-- ===== src/Bootstrap.antt =====
-- src/bootstrap/board: what the kernel's boot loader sets up on the boards with an i.MX8.
pub mod Tables
pub mod Setup
pub mod Pads
pub mod Frequency
mod Tests
