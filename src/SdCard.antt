-- ===== src/SdCard.antt =====
-- The block driver of src/drivers/sd_card.
pub mod Store
pub mod Claim
pub mod Bdevs
pub mod Disks
pub mod Io
pub mod Requests
pub mod LxEmul
