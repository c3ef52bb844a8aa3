-- ===== src/Gpio.antt =====
-- src/drivers/gpio/imx/driver.h: the driver of the GPIO banks, whose registers gpio.h lists.
pub mod Bank
pub mod Driver
pub mod Probe
pub mod Delivery
pub mod Masks
pub mod Calls
pub mod Pins
pub mod Banks
mod Tests
