-- ===== src/Libc.antt =====
-- kernel/src/libc/stdlib.cpp: the memory, string and conversion functions.
pub mod MemOps
pub mod Strings
pub mod Itoa
