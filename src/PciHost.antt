-- ===== src/PciHost.antt =====
-- src/drivers/pci_host/imx8mq/main.cc: the driver of the PCIe host controllers.
pub mod Registers
pub mod Controller
pub mod Scanner
pub mod Waits
pub mod Windows
pub mod Buses
mod Tests
