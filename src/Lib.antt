-- ===== src/Lib.antt =====
-- printOS: the boot loader, in C under bootloader, and the parts of the kernel that compute or drive
-- devices, in C++ under kernel/src, each as a model of its state and operations with what makes it
-- right.
--
-- The parts and how they interact. The boot loader opens two files through the firmware, puts the
-- segments of the kernel in memory, loads a font, finds the screen and the ACPI pointer, takes the
-- memory map, leaves the firmware and enters the kernel. The physical allocator lays its bitmap of
-- frames in the largest free segment of the map, and hands out frames. Paging takes frames for its
-- page tables and maps memory and devices to themselves. The heap takes a page at first, and runs
-- of frames when it has to grow, and keeps a list of blocks in them. The console draws text with
-- the framebuffer, and the keyboard turns scan codes into characters. kprintf formats text for the
-- console. The ACPI tables lead to the interrupt controllers and the timer. The interrupt table
-- leads to the handlers, of which that of the keyboard joins keyboard, console and local APIC. The
-- start-up constructs all of these in turn.
--
-- Base: shared names, Boolean tests, lists. Mem: memory as bytes by address. Hardware: the accesses
--   to device registers and ports, and `sti`.
-- Libc: kernel/src/libc/stdlib.cpp. MemOps has memset and memcpy, Strings has str_len, str_reverse,
--   strcmp and strncmp, Itoa has itoa; the modules below them have the proofs.
-- Kutils: kernel/src/kutils/bits.hpp (Bits), kernel/src/kutils/bitmap.{hpp,cpp} (Bitmap) and
--   kernel/src/kutils/console.cpp (Printf). Printf.Spec says which text a format and its arguments
--   stand for; Convert, Step and Run follow the formatter; Panic has the messages and the panics.
-- Memory.MMap: kernel/src/memory/mmap.{hpp,cpp}.
-- Memory.PMem: kernel/src/memory/pmem.{hpp,cpp}. `create` is the constructor; the other operations
--   have the names of the methods. Flags has what they do to the bitmap, Counters and Built the
--   counters, Init the constructor, Request and RequestFrames the two searches.
-- Memory.Paging: kernel/src/memory/paging.{hpp,cpp}. `descend` is one of the three like parts of
--   allocate_page. Tree says what a tree of tables is; Descend, Leaf and Allocate follow a mapping;
--   Presence is about when it succeeds and is_page_allocated, Identity about __identity_paging; Setup
--   is the constructor.
-- Memory.Heap: kernel/src/memory/heap.{hpp,cpp}. `extend`, `split` and `take_block` are the parts
--   of malloc, `merge_next` and `merge_prev` those of free. Chain says which list of blocks a heap
--   represents; Create, Edit, Malloc, Grow, Merge, MergePrev, Free and Stats follow the operations on it.
-- Drivers: Keyboard is kernel/src/drivers/keyboard.{hpp,cpp}, with `cases` for the switch of
--   read_key, and Ps2 is kernel/src/drivers/ps2.{hpp,cpp}.
-- Console: Framebuffer is kernel/src/framebuffer, Cursor and Terminal are kernel/src/console.
-- Acpi: kernel/src/acpi. Tables is acpi.{hpp,cpp}, Madt, Ioapic and Lapic are the files of apic, Hpet
--   and Hpet.Comparator those of hpet. Search has the idea of a first match, which both searches share.
-- Cpu: Info is kernel/src/cpu/cpu.{hpp,cpp}, with the signature of the processor in Signature; Gdt
--   is kernel/src/gdt, Idt, Interrupts and Report are kernel/src/idt, with kprint_cpu_info in Report.
-- Boot: bootloader. Firmware has the services of the firmware, and what a chain of their calls means
--   (Inversion). Utils is utils.c, Files is file.c, Loader is kernel_loader.c, Font is font.c, Screen
--   is gop.c and acpi.c, Starter is kernel_starter.c, Main is main.c. Loader.Fields has the fields of
--   the ELF structures, Layout what it is for segments to lie apart; Segment, Rounds and Kernel follow
--   the loader, Ends is about the end of its loop, Verify about its check.
-- Kernel: kernel/src/kernel.cpp, `_start`. Located is about the tables that it finds, Controllers and
--   BringUp about the state in which it comes to the heap; Trial has the rest, with the calls of the heap.
-- Tests: the theorems at concrete inputs.
--
-- How the code is read. A method takes the object as a record and returns the new one. A failed
-- assertion stops the kernel for good, and is `none`, as is a write through a null pointer in the
-- heap. Numbers are natural numbers; `size` and `u64` arithmetic is taken modulo 2 ^ 64 where it can
-- wrap, `u32` and `u16` likewise, and a store to a byte modulo 256. Addresses of bytes are not
-- wrapped. Page tables, heap headers and descriptors are stores of their own, apart from the bytes
-- in Mem: the model does not see a program that writes over them. The 32-bit address fields of the
-- page table entries are promoted to `unsigned int` when they are shifted, as C++ prescribes.
--
-- Parameters. Devices and the firmware are not code of the repository. A type of states, the memory
-- in it and the effect of each access or service on it are arguments of the definitions that use
-- them. What the code relies on is a record of laws, with the theorems that need it: that a register
-- reads back what was written (Acpi.Ioapic.RoundTrip, Acpi.Lapic, Acpi.Hpet.Timing), that a file has
-- a position and that a read fills its buffer (Boot.Loader.Segment), that the memory map has a size
-- (Boot.Starter.Growth), that the two interrupt controllers have registers of their own and that no
-- store to a device changes the interrupt flag (Kernel.Controllers). The answers of cpuid are a function. The buffers on the stack and the
-- string literals are addresses that are arguments.
--
-- Bounds and fuel. Loops that count are recursion on the rounds that are left. The loops that
-- follow a string, a number or the chain of blocks take fuel, and return `none` when it runs out;
-- the theorems give the fuel that is enough: the length of the string and its terminator, one round
-- more than the bits of the number (65 for itoa in kprintf), the length of the chain. The loop over
-- the program headers reads its bound, of 16 bits, again in each round: it has 2 ^ 16 rounds of
-- fuel, and would fail without (Boot.Loader.Ends).
--
-- Not modelled: assembly and control registers (the loads of GDT and IDT, the moves to CR0, CR3 and
-- CR4, the routine of kernel/src/pic), the output for debugging in kernel/src/debug, which
-- nothing calls, the log of kernel/src/klog, which is declared only, and what the boot loader prints.
-- The line that request_frames prints is left out.
pub mod Base
pub mod Mem
pub mod Libc
pub mod Kutils
pub mod Memory
pub mod Drivers
pub mod Cpu
pub mod Boot
pub mod Console
pub mod Tests
pub mod Hardware
pub mod Acpi
pub mod Kernel
