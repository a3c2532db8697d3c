-- ===== src/Cpu.antt =====
-- The processor as the kernel sets it up and asks about it: kernel/src/cpu, idt and gdt.
pub mod Info
pub mod Signature
pub mod Idt
pub mod Gdt
pub mod Interrupts
pub mod Report
