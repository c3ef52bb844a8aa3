-- ===== src/Display.antt =====
-- The framebuffer driver of src/drivers/framebuffer/imx8mq.
pub mod I2c
pub mod Fb
pub mod Dummies
pub mod Screens
