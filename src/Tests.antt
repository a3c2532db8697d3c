-- ===== src/Tests.antt =====
-- The theorems at concrete inputs.
mod Libc
mod PMem
mod Paging
mod Heap
mod Devices
mod Acpi
mod Kernel
mod Cpu
mod Printf
mod Boot
