-- ===== src/Nic.antt =====
-- The network drivers of src/drivers/nic.
pub mod Api
pub mod Uplink
