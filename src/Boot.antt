-- ===== src/Boot.antt =====
-- The UEFI loader, bootloader/*.c.
pub mod Utils
pub mod Firmware
pub mod Files
pub mod Loader
pub mod Font
pub mod Screen
pub mod Starter
pub mod Main
