-- ===== src/Emul.antt =====
-- Linux functions that the drivers' lx_emul.c files emulate.
pub mod Chrdev
pub mod Pages
pub mod PseudoFs
pub mod DmaPool
pub mod Slab
pub mod Soc
pub mod Forward
pub mod UsbImx8mq
pub mod Wifi
