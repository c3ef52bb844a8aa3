-- ===== src/Platform/Tree/Imx8mp.antt =====
-- The tree of clocks of src/drivers/platform/imx8mp/ccm.h.
pub mod Sources
pub mod RootsA
pub mod RootsB
pub mod RootsC
