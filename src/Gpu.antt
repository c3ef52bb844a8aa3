-- ===== src/Gpu.antt =====
-- The GPU driver of src/drivers/gpu/imx8mq.
pub mod State
pub mod Session
pub mod Abi
pub mod Linux
pub mod Ioctl
pub mod Calls
pub mod Mapping
pub mod Tasks
pub mod Server
