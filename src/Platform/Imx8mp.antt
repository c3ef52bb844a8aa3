-- ===== src/Platform/Imx8mp.antt =====
-- src/drivers/platform/imx8mp/ccm.h and ccm.cc: the two kinds of PLL of the i.MX8MP.
pub mod Pll14xx
pub mod Safety
pub mod Table
pub mod Compute
pub mod Search
pub mod Fraction
mod Tests
