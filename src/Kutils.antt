-- ===== src/Kutils.antt =====
-- kernel/src/kutils: the bit macros, the bitmap and formatted output.
pub mod Bits
pub mod Bitmap
pub mod Printf
