-- ===== src/Ipu.antt =====
-- src/drivers/framebuffer/imx53/ipu.h: the image processing unit of the i.MX53.
pub mod Descriptor
pub mod Registers
pub mod Displays
pub mod Init
pub mod Overlay
pub mod Order
pub mod Memory
mod Tests
