-- ===== src/DriverManager.antt =====
-- src/app/driver_manager/imx8mq/main.cc: the driver manager, which turns reports on devices into
-- configurations.
pub mod Xml
pub mod Drivers
pub mod Manager
pub mod Current
pub mod Routes
pub mod Usb
mod Tests
