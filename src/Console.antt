-- ===== src/Console.antt =====
-- kernel/src/framebuffer and kernel/src/console.
pub mod Framebuffer
pub mod Cursor
pub mod Terminal
