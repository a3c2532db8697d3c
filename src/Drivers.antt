-- ===== src/Drivers.antt =====
-- kernel/src/drivers.
pub mod Keyboard
pub mod Ps2
