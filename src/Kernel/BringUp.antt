-- ===== src/Kernel/BringUp.antt =====
-- In which state `_start` of kernel/src/kernel.cpp leaves the kernel for its heap.
use print_os.Base.{
  ℕ, ◌^◌, ◌<◌, ◌≡◌, ◌≢◌, refl, sym, ap, subst, ◌∙◌, some, none, ◌==◌, if◌then◌else◌, >>=-elim,
  some-eq,
}
use print_os.Mem.{Mem}
use print_os.Hardware.{Hardware}
use print_os.Acpi.Madt.{lapic_addr, io_apic_addr}
use print_os.Acpi.Ioapic.Entry.{IsEntry}
use print_os.Acpi.Ioapic.RoundTrip.{IsIoapic}
use print_os.Acpi.Lapic.{IsLapic}
use print_os.Cpu.Idt
use print_os.Cpu.Idt.{
  Handlers, Table, target, keyboard, timer, handler_of, interrupt_gate, create-gates,
  enable_external_interrupts,
}
use print_os.Kernel.Controllers.{HasFlag, AreApart, TakesInterrupts, set_up-TakesInterrupts}
use print_os.Memory.MMap.{MemoryMap}
use print_os.Memory.PMem.{PMem}
use print_os.Memory.Paging.{Space, Tables}
use print_os.Console.Terminal.{Console}
use print_os.Cpu.Info.{Registers}
use print_os.Memory.Paging.{Tables}
use print_os.Kernel.{
  AcpiTables, BootloaderData, Kernel, Layout, succeed, open_console, set_up_memory, report_cpu,
  check_acpi, find_tables, set_up_paging, print_lapic_info, set_up_interrupts, bring_up, built,
  finish,
}
use print_os.Kernel.Located.{find_tables-eq-some}

-- No pointer to a table is null.
abbrev pub HasTables : AcpiTables → Type 0
HasTables t = (t.madt ≢ 0) × (t.lapic ≢ 0) × (t.ioapic ≢ 0) × (t.hpet ≢ 0)

find_tables-HasTables :
    (m : Mem) (rsdp madt_sig hpet_sig : ℕ) (t : AcpiTables)
    → find_tables m rsdp madt_sig hpet_sig ≡ some t
    → HasTables t
find_tables-HasTables m rsdp madt_sig hpet_sig t h =
    let parts = find_tables-eq-some m rsdp madt_sig hpet_sig t h in
    (
      subst (λ p. p ≢ 0) parts.0.0 parts.0.1,
      subst (λ p. p ≢ 0) parts.1.0 parts.1.1,
      subst (λ p. p ≢ 0) parts.2.0 parts.2.1,
      subst (λ p. p ≢ 0) parts.3.0 parts.3.1,
    )

-- What a run up to the heap leaves: the vectors, and devices whose last change was that of the
-- interrupt controllers.
abbrev Ended : {S : Type 0} → Hardware S → Layout → Table → AcpiTables → Kernel S → Type 0
Ended {S} hw l idt acpi k =
    (k.acpi ≡ acpi)
    × (k.idt ≡ Idt.create l.handlers idt)
    × ((s : S) × (k.devices ≡ set_up_interrupts hw l k.console.mem k.acpi s))

module _ {S : Type 0} (hw : Hardware S) (l : Layout) (idt : Table) (k : Kernel S) where
  built-Ended :
      (cpuid : ℕ → Registers) (map : MemoryMap) (acpi : AcpiTables) (space : Space) (c : Console)
      (s : S)
      → some (built hw l cpuid idt map acpi space c s) ≡ some k
      → Ended hw l idt acpi k
  unfolding built
  built-Ended cpuid map acpi space c s h =
      subst (Ended hw l idt acpi) (some-eq h) (refl, refl, (s, refl))

  finish-Ended :
      (cpuid : ℕ → Registers) (tables : Tables) (map : MemoryMap) (pmem : PMem) (acpi : AcpiTables)
      (c : Console) (s : S)
      → finish hw l cpuid tables idt map pmem acpi c s ≡ some k
      → Ended hw l idt acpi k
  unfolding finish
  finish-Ended cpuid tables map pmem acpi c s run =
      >>=-elim (succeed l l.texts.hpet_success c) _ run λ c1 e1 h1.
        >>=-elim (set_up_paging hw l tables map pmem acpi c1 s) _ h1 λ r e2 h2.
          >>=-elim (print_lapic_info hw l acpi.madt r.1.0) _ h2
            λ c3 e3 h3. built-Ended cpuid map acpi r.0 c3 r.1.1 h3

-- When the start-up, once it has its ACPI tables, comes to the heap, with the screen, the page tables
-- and the devices set up in between, it has kept these tables, and the kernel takes interrupts, if
-- the two interrupt controllers are where the MADT says, have registers of their own and leave the
-- interrupt flag alone, the uninitialised entry holds what its bit fields can, and the addresses of
-- the two handlers have 64 bits: the interrupt flag is set; the local APIC accepts every priority and is enabled, in its register and in
-- the MSR; the I/O APIC sends the interrupts of the HPET and of the keyboard as the vectors 40 and
-- 41, unmasked, fixed, physical, active high, triggered by edge and to the APIC 0; and these two
-- vectors lead to the handlers of the timer and the keyboard by interrupt gates that are present, in
-- the kernel's code segment.
pub finish_lem :
    {S : Type 0} (hw : Hardware S) (l : Layout) (cpuid : ℕ → Registers) (tables : Tables)
    (idt : Table) (map : MemoryMap) (pmem : PMem) (acpi : AcpiTables) (c : Console) (s : S)
    (k : Kernel S) (base io_base : ℕ) (cpu : HasFlag hw) (dev : IsLapic hw base)
    (io : IsIoapic hw io_base)
    → AreApart hw base io_base io
    → finish hw l cpuid tables idt map pmem acpi c s ≡ some k
    → lapic_addr k.console.mem acpi.madt ≡ base
    → io_apic_addr k.console.mem acpi.ioapic ≡ io_base
    → IsEntry l.redir_entry
    → l.handlers.timer_handler < 2 ^ 64
    → l.handlers.keyboard_handler < 2 ^ 64
    → (k.acpi ≡ acpi) × TakesInterrupts cpu dev io l k
finish_lem {S} hw l cpuid tables idt map pmem acpi c s k base io_base cpu dev io apart run at io_at
      fits small_timer small_keyboard =
    let (kept, vectors, (s0, devices)) =
      finish-Ended hw l idt k cpuid tables map pmem acpi c s run in
    (
      kept,
      set_up-TakesInterrupts hw l idt acpi k s0 base io_base cpu dev io apart
          (devices ∙ ap (λ t. set_up_interrupts hw l k.console.mem t s0) kept) at io_at vectors fits
          small_timer small_keyboard,
    )

-- The whole start-up up to the heap: then none of the ACPI pointers is null, and the kernel takes
-- interrupts, under the same conditions on the two controllers.
pub bring_up_lem :
    {S : Type 0} (hw : Hardware S) (l : Layout) (cpuid : ℕ → Registers) (bd : BootloaderData)
    (tables : Tables) (idt : Table) (m : Mem) (s : S) (k : Kernel S) (base io_base : ℕ)
    (cpu : HasFlag hw) (dev : IsLapic hw base) (io : IsIoapic hw io_base)
    → AreApart hw base io_base io
    → bring_up hw l cpuid bd tables idt m s ≡ some k
    → lapic_addr k.console.mem k.acpi.madt ≡ base
    → io_apic_addr k.console.mem k.acpi.ioapic ≡ io_base
    → IsEntry l.redir_entry
    → l.handlers.timer_handler < 2 ^ 64
    → l.handlers.keyboard_handler < 2 ^ 64
    → HasTables k.acpi × TakesInterrupts cpu dev io l k
unfolding bring_up
bring_up_lem hw l cpuid bd tables idt m s k base io_base cpu dev io apart run at io_at fits
      small_timer small_keyboard =
    >>=-elim (if bd.self == 0 then none else open_console bd m) _ run λ r e1 h1.
      >>=-elim (set_up_memory l bd r.0 r.1) _ h1 λ p e2 h2.
        >>=-elim (report_cpu l cpuid p.1) _ h2 λ c3 e3 h3.
          >>=-elim (check_acpi l bd.acpi_rsdp c3) _ h3 λ c4 e4 h4.
            >>=-elim (find_tables c4.mem bd.acpi_rsdp l.texts.madt_sig l.texts.hpet_sig) _ h4
              λ acpi e5 h5.
                let kept = (finish-Ended hw l idt k cpuid tables r.0 p.0 acpi c4 s h5).0 in
                (
                  subst HasTables (sym kept) (
                      find_tables-HasTables c4.mem bd.acpi_rsdp l.texts.madt_sig l.texts.hpet_sig
                        acpi e5),
                  (finish_lem hw l cpuid tables idt r.0 p.0 acpi c4 s k base io_base cpu dev io
                      apart h5 (ap (λ t. lapic_addr k.console.mem t.madt) (sym kept) ∙ at)
                      (ap (λ t. io_apic_addr k.console.mem t.ioapic) (sym kept) ∙ io_at) fits
                      small_timer small_keyboard).1,
                )
