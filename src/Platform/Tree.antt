-- ===== src/Platform/Tree.antt =====
-- The trees of clocks of src/drivers/platform/imx8mq/ccm.h and src/drivers/platform/imx8mp/ccm.h.
pub mod Clocks
pub mod Sources
pub mod RootsA
pub mod RootsB
pub mod RootsC
pub mod Closed
pub mod Imx8mp
pub mod Boards
mod Tests
