-- ===== src/Tests/Kernel.antt =====
-- The theorems on kernel/src/kernel.cpp at a concrete input: the tables of a small machine.
mod Machine
use print_os.Base.{
  ℕ, ◌+◌, ◌*◌, ◌/◌, ◌%◌, ◌^◌, ◌≡◌, ◌≢◌, ap, refl, Option, none, some, Bool, true, false, ◌||◌,
  arith, ◌==◌, if◌then◌else◌,
}
use print_os.Mem.{Mem, read_le}
use print_os.Libc.MemOps.Laws.{IsBytes}
use print_os.Libc.Strings.{strncmp}
use print_os.Acpi.Tables
use print_os.Acpi.Tables.{entries, search_tables}
use print_os.Acpi.Madt
use print_os.Acpi.Madt.{cpu_lapic, io_apic, search_ics}
use print_os.Hardware.{Hardware}
use print_os.Acpi.Ioapic.Entry.{RedirEntry, IsEntry}
use print_os.Memory.MMap.{MemoryMap}
use print_os.Memory.Paging.{Tables}
use print_os.Console.Framebuffer.{draw}
use print_os.Libc.MemOps.{memset, memcpy}
use print_os.Libc.Strings.{str_len}
use print_os.Console.Terminal
use print_os.Console.Terminal.{Console, ConsoleFont, clear, print_string, print_loop}
use print_os.Kutils.Printf.{kprintf, format, printf_loop}
use print_os.Kutils.Printf.Panic.{Literals, kprint_succ}
use print_os.Cpu.Idt.{Table}
use print_os.Cpu.Info.{Registers}
use print_os.Kutils.Bits.{set_bit, clear_bit, test_bit}
use print_os.Kutils.Bitmap
use print_os.Acpi.Hpet
use print_os.Acpi.Lapic.{IsLapic}
use print_os.Acpi.Ioapic.{ioredtbl}
use print_os.Acpi.Madt.{lapic_addr, io_apic_addr}
use print_os.Kernel.BringUp.{finish_lem}
use print_os.Kernel.Controllers.{HasFlag, AreApart, TakesInterrupts}
use print_os.Acpi.Ioapic.RoundTrip.{IsIoapic}
use print_os.Cpu.Info.{get_info}
use print_os.Memory.MMap.{get_desc}
use print_os.Memory.PMem.{PMem, lock_frame, idx_to_frame_ptr, request_loop, request_frame}
use print_os.Memory.Paging
use print_os.Memory.Paging.Setup
use print_os.Memory.Paging.{
  map_segments, identity_paging, identity_loop, identity_rounds, allocate_page, descend, attach,
  set_entry, clear_table, page_indexer,
}
use print_os.Kernel.{
  AcpiTables, Kernel, Texts, Layout, BootloaderData, find_tables, finish, built, set_up_paging,
  print_lapic_info,
}
use print_os.Kernel.Located.{FirstTable, FirstStructure, find_tables_lem}
use print_os.Tests.Kernel.Machine.{
  memory, Store, put, machine, rest, machine-IsLapic, machine-IsIoapic, machine-HasFlag,
  machine-AreApart, redir_entry, redir_entry-IsEntry,
}

memory-IsBytes : IsBytes memory
memory-IsBytes q = ground arith

abbrev acpi : AcpiTables
acpi = record { madt = 200; lapic = 244; ioapic = 252; hpet = 160 }

acpi_eq : find_tables memory 0 300 310 ≡ some acpi
unfolding find_tables Tables.get_header Madt.get_header search_tables search_ics entries strncmp
    read_le
acpi_eq = refl

find_tables_lem_example :
    FirstTable memory 0 300 200
    × FirstStructure memory 200 cpu_lapic 244
    × FirstStructure memory 200 io_apic 252
    × FirstTable memory 0 310 160
find_tables_lem_example = find_tables_lem memory 0 300 310 acpi memory-IsBytes acpi_eq

abbrev literals : Literals
literals = record {
  kernel_error = 10063;
  kernel_success = 10063;
  kernel_info = 10063;
  heap_blocks = 10063;
  pmem_info = 10063;
  all_frames = 10063;
  free_frames = 10063;
  locked_frames = 10063;
  kernel_panic = 10063;
  error_line = 10063;
  message_line = 10063;
  file_line = 10063;
  line_line = 10063;
  func_line = 10063;
}

-- Every message is the empty text at the end of the second buffer.
abbrev texts : Texts
texts = record {
  pmem_success = 10063;
  cpu_error = 10063;
  cpu_correct = 10063;
  gdt_success = 10063;
  idt_success = 10063;
  acpi_1 = 10063;
  acpi_2 = 10063;
  acpi_unknown = 10063;
  rsdp_bad = 10063;
  rsdp_good = 10063;
  rsdt_bad = 10063;
  rsdt_good = 10063;
  hpet_success = 10063;
  paging_success = 10063;
  paging_failed = 10063;
  lapic_info = 10063;
  rsdp_sig = 40;
  rsdt_sig = 40;
  madt_sig = 300;
  hpet_sig = 310;
}

abbrev layout : Layout
layout = record {
  fuel = 1;
  buf = 5000;
  temp_buf = 10000;
  literals = literals;
  texts = texts;
  bitmap = 4096;
  root = 0x100000;
  redir_entry = redir_entry;
  handlers = record {
    divide_by_zero_handler = 0x400000;
    page_fault_handler = 0x401000;
    timer_handler = 0x402000;
    keyboard_handler = 0x403000;
    spurious_handler = 0x404000;
  };
}

abbrev bd : BootloaderData
bd = record {
  self = 12288;
  framebuffer = record {
    fb_addr = 20480;
    double_fb_addr = 20480;
    b_size = 0;
    width = 0;
    height = 0;
    px_per_scan = 0;
    b_per_px = 4;
  };
  font = record { charsize = 0; glyph_height = 0; glyph_width = 0; glyph_buffer = 0 };
  memory = record { mmap = 0; mmap_sz = 48; desc_sz = 48; entries = 1 };
  descs = λ a. record { kind = 7; paddr = 8192; vaddr = 0; pages = 6; attr = 0 };
  acpi_rsdp = 0;
}

abbrev cpuid : (leaf : ℕ) → Registers
cpuid leaf = record { eax = 0; ebx = 0; ecx = 0; edx = 0 }

abbrev no_tables : Tables
no_tables a i = record { present = false; rw_flag = false; addr = 0; others = 0 }

abbrev no_vectors : Table
no_vectors v = record {
  offset1 = 0;
  segment_selector = 0;
  ist = 0;
  ignore1 = 0;
  gate_type = 0;
  ignore2 = 0;
  dpl = 0;
  present = 0;
  offset2 = 0;
  offset3 = 0;
  reserved1 = 0;
}

-- The kernel that is never used, for a run that fails.
abbrev no_kernel : Kernel Store
no_kernel = record {
  map = record { mmap_sz = 0; desc_sz = 0; entries = 0; mmap = 0; descs = bd.descs };
  console = Terminal.create bd.font bd.framebuffer memory;
  space = record {
    pmem = record {
      last_free_idx = 0;
      free_frames = 0;
      locked_frames = 0;
      frames = 0;
      bitmap = record { self = 0; buffer = 0; size = 0 };
      mem = memory;
    };
    tables = no_tables;
  };
  cr3 = 0;
  cpu = get_info cpuid;
  idt = no_vectors;
  acpi = acpi;
  devices = rest;
}

abbrev or_kernel : Option (Kernel Store) → Kernel Store
or_kernel (some k) = k
or_kernel none = no_kernel

-- Eight frames, of which the first two are locked; their bitmap is at 20000.
abbrev pmem : PMem
pmem = record {
  last_free_idx = 0;
  free_frames = 6;
  locked_frames = 2;
  frames = 8;
  bitmap = record { self = 0; buffer = 20000; size = 1 };
  mem = memory;
}

abbrev map : MemoryMap
map = record { mmap_sz = 48; desc_sz = 48; entries = 1; mmap = 0; descs = bd.descs }

abbrev console : Console
console = record {
  font = bd.font;
  framebuffer = bd.framebuffer;
  cursor = record { row = 0; col = 0; fg = 0; bg = 0; max_col = 100; max_row = 37 };
  mem = λ q. if q == 20000 then 3 else memory q;
}

abbrev finished : Option (Kernel Store)
finished = finish machine layout cpuid no_tables no_vectors map pmem acpi console rest

abbrev kernel : Kernel Store
kernel = or_kernel finished

finished_eq : finished ≡ some kernel
unfolding draw memcpy get_desc memset lock_frame Bitmap.get Bitmap.set test_bit set_bit clear_bit
    read_le finish set_up_paging Setup.set_efer Setup.create Setup.write_test Setup.test_passed
    Paging.init map_segments identity_paging identity_loop allocate_page descend attach set_entry
    clear_table page_indexer request_frame request_loop idx_to_frame_ptr Hpet.get_mmio_sz
    Hpet.get_no_comparators Hpet.read_reg print_lapic_info kprint_succ kprintf format str_len
    printf_loop print_string print_loop Paging.child Paging.to_field Madt.get_header search_ics
finished_eq = refl

-- The MADT of the test gives 0 as the address of the local APIC.
address_eq : lapic_addr kernel.console.mem 200 ≡ 0
unfolding draw memcpy get_desc memset lock_frame Bitmap.get Bitmap.set test_bit set_bit clear_bit
    read_le finish set_up_paging Setup.set_efer Setup.create Setup.write_test Setup.test_passed
    Paging.init map_segments identity_paging identity_loop allocate_page descend attach set_entry
    clear_table page_indexer request_frame request_loop idx_to_frame_ptr Hpet.get_mmio_sz
    Hpet.get_no_comparators Hpet.read_reg print_lapic_info kprint_succ kprintf format str_len
    printf_loop print_string print_loop Paging.child Paging.to_field Madt.get_header search_ics
    built
address_eq = refl

-- It gives 4096 as that of the I/O APIC.
io_address_eq : io_apic_addr kernel.console.mem 252 ≡ 4096
unfolding draw memcpy get_desc memset lock_frame Bitmap.get Bitmap.set test_bit set_bit clear_bit
    read_le finish set_up_paging Setup.set_efer Setup.create Setup.write_test Setup.test_passed
    Paging.init map_segments identity_paging identity_loop allocate_page descend attach set_entry
    clear_table page_indexer request_frame request_loop idx_to_frame_ptr Hpet.get_mmio_sz
    Hpet.get_no_comparators Hpet.read_reg print_lapic_info kprint_succ kprintf format str_len
    printf_loop print_string print_loop Paging.child Paging.to_field Madt.get_header search_ics
    built
io_address_eq = refl

finish_lem_example :
    (kernel.acpi ≡ acpi)
    × TakesInterrupts machine-HasFlag machine-IsLapic machine-IsIoapic layout kernel
finish_lem_example =
    finish_lem machine layout cpuid no_tables no_vectors map pmem acpi console rest kernel 0 4096
      machine-HasFlag machine-IsLapic machine-IsIoapic machine-AreApart finished_eq address_eq
      io_address_eq redir_entry-IsEntry (omega arith) (omega arith)
