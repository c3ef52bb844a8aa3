-- ===== src/Platform.antt =====
-- src/drivers/platform/imx8mq/ccm.cc: the clock control module of the platform driver.
pub mod Ccm
pub mod Closest
pub mod Pll
pub mod Divider
pub mod FracPll
pub mod Resets
pub mod Imx53
pub mod Roots
pub mod Tree
pub mod Imx8mp
mod Tests
