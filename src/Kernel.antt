-- ===== src/Kernel.antt =====
-- `_start` of kernel/src/kernel.cpp up to the heap: the parts of the kernel are constructed in turn.
-- There is one memory, which is that of the console. `none` is a failed assertion, or a formatter
-- that does not return. The loads of the descriptor tables and of CR0 and CR4 and the routine that
-- disables the old interrupt controller are assembly, and left out.
pub mod Located
pub mod Controllers
pub mod BringUp
pub mod Trial
use print_os.Base.{ℕ, ◌+◌, Option, none, some, false, List, [], ◌∷◌, ◌>>=◌, ◌==◌, if◌then◌else◌}
use print_os.Mem.{Mem, read8, read_le}
use print_os.Hardware.{Hardware}
use print_os.Acpi.Tables
use print_os.Acpi.Tables.{Version, ver_1, ver_2, unknown}
use print_os.Acpi.Madt
use print_os.Acpi.Ioapic
use print_os.Acpi.Ioapic.Entry.{RedirEntry}
use print_os.Acpi.Lapic
use print_os.Acpi.Hpet
use print_os.Memory.MMap
use print_os.Memory.MMap.{EfiMMapDesc, MemoryData, MemoryMap}
use print_os.Memory.PMem
use print_os.Memory.PMem.{PMem}
use print_os.Memory.Paging.Setup
use print_os.Memory.Paging.{Space, Regions, Tables}
use print_os.Console.Framebuffer
use print_os.Console.Framebuffer.{Framebuffer}
use print_os.Console.Terminal
use print_os.Console.Terminal.{Console, ConsoleFont, clear}
use print_os.Kutils.Printf.{kprintf}
use print_os.Kutils.Printf.Panic.{Literals, kprint_succ, kprint_pmem_info, kpanic}
use print_os.Cpu.Idt
use print_os.Cpu.Idt.{Handlers, Table}
use print_os.Cpu.Info.{
  Info, get_info, Registers, State, error, success, no_long_mode, no_fpu, no_lapic, no_msr,
  check_state,
}

-- The `BootloaderData` at the address `self`, with what its pointers lead to.
pub record BootloaderData : Type 0 where
  pub self : ℕ
  pub framebuffer : Framebuffer
  pub font : ConsoleFont
  pub memory : MemoryData
  pub descs : ℕ → EfiMMapDesc
  pub acpi_rsdp : ℕ

pub record AcpiTables : Type 0 where
  pub madt : ℕ
  pub lapic : ℕ
  pub ioapic : ℕ
  pub hpet : ℕ

-- The addresses of the texts of `_start`, of `dbg_print_lapic_info` and of the signatures.
pub record Texts : Type 0 where
  pub pmem_success : ℕ
  pub cpu_error : ℕ
  pub cpu_correct : ℕ
  pub gdt_success : ℕ
  pub idt_success : ℕ
  pub acpi_1 : ℕ
  pub acpi_2 : ℕ
  pub acpi_unknown : ℕ
  pub rsdp_bad : ℕ
  pub rsdp_good : ℕ
  pub rsdt_bad : ℕ
  pub rsdt_good : ℕ
  pub hpet_success : ℕ
  pub paging_success : ℕ
  pub paging_failed : ℕ
  pub lapic_info : ℕ
  pub rsdp_sig : ℕ
  pub rsdt_sig : ℕ
  pub madt_sig : ℕ
  pub hpet_sig : ℕ

-- What the layout of the image and of the stack decides: fuel for the texts and the heap, the buffers of the
-- formatter, the literals, the bitmap field of the allocator, the page table at the root, the
-- variable of `ioapic::init` before it is set, and the handlers.
pub record Layout : Type 0 where
  pub fuel : ℕ
  pub buf : ℕ
  pub temp_buf : ℕ
  pub literals : Literals
  pub texts : Texts
  pub bitmap : ℕ
  pub root : ℕ
  pub redir_entry : RedirEntry
  pub handlers : Handlers

-- The enumeration `State` as a number.
abbrev pub state_number : State → ℕ
state_number error = 0
state_number success = 1
state_number no_long_mode = 2
state_number no_fpu = 3
state_number no_lapic = 4
state_number no_msr = 5

-- An assertion that a pointer is not null.
abbrev pub not_null : ℕ → Option ℕ
not_null p = if p == 0 then none else some p

abbrev pub with_mem : Console → Mem → Console
with_mem c m = record c { mem = m }

-- The memory map, and the console on a clear screen.
unfoldable pub open_console : BootloaderData → Mem → Option (MemoryMap × Console)
open_console bd m = do
  map ← MMap.create bd.descs bd.memory
  fb ← Framebuffer.create bd.framebuffer
  some (map, clear (Terminal.create bd.font fb m))

module _ (l : Layout) where
  abbrev pub say : (format : ℕ) → (args : List ℕ) → Console → Option Console
  say format args = kprintf l.fuel l.buf l.temp_buf format args

  abbrev pub succeed : (msg : ℕ) → Console → Option Console
  succeed msg = kprint_succ l.fuel l.buf l.temp_buf l.literals msg

  abbrev pub panic : (msg : ℕ) → Console → Option Console
  panic msg = kpanic l.fuel l.buf l.temp_buf l.literals msg

  -- The allocator of frames; the stack is taken to be at the data of the boot loader.
  unfoldable pub set_up_memory : BootloaderData → MemoryMap → Console → Option (PMem × Console)
  set_up_memory bd map c = do
    pmem ←
        PMem.create
          (record {
            map = map;
            memory_entries = bd.memory.entries;
            stack = bd.self;
            self = l.bitmap;
          })
          c.mem
    c ← succeed l.texts.pmem_success (with_mem c pmem.mem)
    c ←
        kprint_pmem_info l.fuel l.buf l.temp_buf l.literals pmem.frames pmem.free_frames
          pmem.locked_frames c
    some (pmem, c)

  -- The state of the processor is reported, and the kernel goes on whatever it is.
  unfoldable pub report_cpu : (cpuid : ℕ → Registers) → Console → Option Console
  report_cpu cpuid c = do
    c ←
        if state_number (check_state cpuid) == 1
        then succeed l.texts.cpu_correct c
        else say l.texts.cpu_error (state_number (check_state cpuid) ∷ []) c
    c ← succeed l.texts.gdt_success c
    succeed l.texts.idt_success c

  abbrev pub report_version : Version → Console → Option Console
  report_version ver_1 = succeed l.texts.acpi_1
  report_version ver_2 = succeed l.texts.acpi_2
  report_version unknown = panic l.texts.acpi_unknown

  -- `kpanic` comes back: a bad version or signature is reported, and the kernel goes on.
  unfoldable pub check_acpi : (rsdp : ℕ) → Console → Option Console
  check_acpi rsdp c = do
    c ← report_version (Tables.get_version c.mem rsdp) c
    c ←
        if Tables.verify_rsdp c.mem rsdp l.texts.rsdp_sig
        then succeed l.texts.rsdp_good c
        else panic l.texts.rsdp_bad c
    if Tables.verify_rsdt c.mem rsdp l.texts.rsdt_sig
        then succeed l.texts.rsdt_good c
        else panic l.texts.rsdt_bad c

-- The tables, each of which has to be there.
unfoldable pub find_tables : Mem → (rsdp madt_sig hpet_sig : ℕ) → Option AcpiTables
find_tables m rsdp madt_sig hpet_sig = do
  madt ← not_null (Tables.get_header m rsdp madt_sig)
  lapic ← not_null (Madt.get_header m madt Madt.cpu_lapic)
  ioapic ← not_null (Madt.get_header m madt Madt.io_apic)
  hpet ← not_null (Tables.get_header m rsdp hpet_sig)
  some (record { madt = madt; lapic = lapic; ioapic = ioapic; hpet = hpet })

-- The kernel before it makes its heap.
pub record Kernel (S : Type 0) : Type 0 where
  pub map : MemoryMap
  pub console : Console
  pub space : Space
  pub cr3 : ℕ
  pub cpu : Info
  pub idt : Table
  pub acpi : AcpiTables
  pub devices : S

module _ {S : Type 0} (hw : Hardware S) (l : Layout) where
  -- The constructor of `Paging`; the size of the timer's registers is read from the timer.
  unfoldable pub set_up_paging :
      Tables → MemoryMap → PMem → AcpiTables → Console → S → Option (Space × (Console × S))
  set_up_paging tables map pmem acpi c s = do
    let m = c.mem
    let mmio = Hpet.get_mmio_sz hw (Hpet.base_address m acpi.hpet) (Setup.set_efer hw s).1
    space ←
        Setup.create l.root map
          (record {
            fb_addr = c.framebuffer.fb_addr;
            fb_size = c.framebuffer.b_size;
            lapic_addr = Madt.lapic_addr m acpi.madt;
            io_apic_addr = Madt.io_apic_addr m acpi.ioapic;
            hpet_addr = Hpet.base_address m acpi.hpet;
            hpet_size = mmio.0;
          })
          (record { pmem = record pmem { mem = m }; tables = tables })
    let m' = Setup.write_test space.pmem.mem
    c ←
        if Setup.test_passed m'
        then some (with_mem c m')
        else panic l l.texts.paging_failed (with_mem c m')
    c ← succeed l l.texts.paging_success c
    some (space, (c, mmio.1))

  -- `dbg_print_lapic_info`, which searches the MADT again; the flags are passed as the word that they are.
  unfoldable pub print_lapic_info : (madt : ℕ) → Console → Option Console
  print_lapic_info madt c =
      let apic = Madt.get_header c.mem madt Madt.cpu_lapic in
      say l l.texts.lapic_info
        (read8 c.mem (apic + 2) ∷ read8 c.mem (apic + 3) ∷ read_le c.mem (apic + 4) 4 ∷ []) c

  -- The flag of the processor, and the two interrupt controllers.
  unfoldable pub set_up_interrupts : Mem → AcpiTables → S → S
  set_up_interrupts m acpi s =
      let s1 = (Idt.enable_external_interrupts hw s).1 in
      let s2 = (Ioapic.init hw (Madt.io_apic_addr m acpi.ioapic) l.redir_entry s1).1 in
      (Lapic.init hw (Madt.lapic_addr m acpi.madt) s2).1

  -- The kernel with its parts in place.
  unfoldable pub built :
      (cpuid : ℕ → Registers) → Table → MemoryMap → AcpiTables → Space → Console → S → Kernel S
  built cpuid idt map acpi space c s = record {
    map = map;
    console = c;
    space = record space { pmem = record space.pmem { mem = c.mem } };
    cr3 = Setup.set_cr3_register l.root false false;
    cpu = get_info cpuid;
    idt = Idt.create l.handlers idt;
    acpi = acpi;
    devices = set_up_interrupts c.mem acpi s;
  }

  -- `_start` from the tables on.
  unfoldable pub finish :
      (cpuid : ℕ → Registers)
      → Tables
      → Table
      → MemoryMap
      → PMem
      → AcpiTables
      → Console
      → S
      → Option (Kernel S)
  finish cpuid tables idt map pmem acpi c s = do
    c ← succeed l l.texts.hpet_success c
    (space, (c, s)) ← set_up_paging tables map pmem acpi c s
    c ← print_lapic_info acpi.madt c
    some (built cpuid idt map acpi space c s)

  -- `_start` up to `lapic::init`. `tables` and `idt` are what is there before.
  unfoldable pub bring_up :
      (cpuid : ℕ → Registers) → BootloaderData → Tables → Table → Mem → S → Option (Kernel S)
  bring_up cpuid bd tables idt m s = do
    (map, c) ← if bd.self == 0 then none else open_console bd m
    (pmem, c) ← set_up_memory l bd map c
    c ← report_cpu l cpuid c
    c ← check_acpi l bd.acpi_rsdp c
    acpi ← find_tables c.mem bd.acpi_rsdp l.texts.madt_sig l.texts.hpet_sig
    finish cpuid tables idt map pmem acpi c s
