-- ===== src/Legacy.antt =====
-- The earlier revisions of two drivers: src/drivers/nic/fec_legacy and
-- src/drivers/sd_card_legacy/imx8mq.
pub mod NicTask
pub mod Block
pub mod Emul
pub mod SdEmul
