-- ===== src/Kernel/Controllers.antt =====
-- What kernel/src/kernel.cpp relies on when it turns the interrupts on and sets up the two interrupt
-- controllers after one another, and what the registers of the one and the flag of the processor
-- keep while it does so.
use print_os.Base.{ℕ, ◌+◌, ◌*◌, ◌^◌, ◌<◌, ◌≡◌, refl, ap, ◌∙◌, Bool, true, arith, some}
use print_os.Hardware.{Hardware}
use print_os.Acpi.Ioapic
use print_os.Acpi.Ioapic.{set_redir_entry, get_redir_entry, ioredtbl, irq_hpet, irq_keyboard}
use print_os.Acpi.Ioapic.Entry.{RedirEntry, IsEntry, SameSettings, timer, keyboard}
use print_os.Acpi.Ioapic.RoundTrip.{IsIoapic, prepared, get_redir_entry-reg, init-redirects}
use print_os.Acpi.Lapic
use print_os.Acpi.Lapic.{IsLapic, tpr_reg, spurious_reg, base_msr, init-keeps, init-enabled}
use print_os.Acpi.Madt.{lapic_addr, io_apic_addr}
use print_os.Kutils.Bits.{test_bit}
use print_os.Cpu.Gdt.{kernel_code}
use print_os.Cpu.Idt
use print_os.Cpu.Idt.{
  Handlers, Table, target, handler_of, interrupt_gate, create-gates, enable_external_interrupts,
}
use print_os.Kernel.{AcpiTables, Kernel, Layout, set_up_interrupts}

-- The interrupt flag of the processor: `sti` sets it, and no store to a device changes it.
pub record HasFlag {S : Type 0} (hw : Hardware S) : Type 0 where
  pub flag : S → Bool
  pub sti_sets : (s : S) → flag (hw.sti s).1 ≡ true
  pub mmio_keeps : (addr v : ℕ) (s : S) → flag (hw.mmio_write32 addr v s).1 ≡ flag s
  pub msr_keeps : (n v : ℕ) (s : S) → flag (hw.write_msr n v s).1 ≡ flag s

-- The two controllers are apart: the local one's registers are none of the other one's.
pub record AreApart {S : Type 0} (hw : Hardware S) (base io_base : ℕ) (io : IsIoapic hw io_base)
    : Type 0 where
  pub tpr_apart : (v q : ℕ) (s : S) → io.reg (hw.mmio_write32 (base + tpr_reg) v s).1 q ≡ io.reg s q
  pub spurious_apart :
      (v q : ℕ) (s : S) → io.reg (hw.mmio_write32 (base + spurious_reg) v s).1 q ≡ io.reg s q
  pub msr_apart : (v q : ℕ) (s : S) → io.reg (hw.write_msr base_msr v s).1 q ≡ io.reg s q

module _ {S : Type 0} (hw : Hardware S) (base io_base : ℕ) (dev : IsLapic hw base) where
  -- The flag outlives the two routines.
  pub controllers-flag :
      (cpu : HasFlag hw) (entry : RedirEntry) (s : S)
      → let s1 = (Ioapic.init hw io_base entry s).1 in
        cpu.flag (Lapic.init hw base s1).1 ≡ cpu.flag s
  unfolding Ioapic.init set_redir_entry
  controllers-flag cpu entry s =
      init-keeps hw base dev cpu.flag (cpu.mmio_keeps (base + tpr_reg))
        (cpu.mmio_keeps (base + spurious_reg)) (cpu.msr_keeps base_msr)
        (Ioapic.init hw io_base entry s).1
      ∙ cpu.mmio_keeps _ _ _
      ∙ cpu.mmio_keeps _ _ _
      ∙ cpu.mmio_keeps _ _ _
      ∙ cpu.mmio_keeps _ _ _
      ∙ cpu.mmio_keeps _ _ _
      ∙ cpu.mmio_keeps _ _ _
      ∙ cpu.mmio_keeps _ _ _
      ∙ cpu.mmio_keeps _ _ _

  -- An entry of the I/O APIC outlives the other routine.
  lapic_init-entry :
      (io : IsIoapic hw io_base)
      → AreApart hw base io_base io
      → (id : ℕ) (s : S) → id < 120
      → (get_redir_entry hw io_base id (Lapic.init hw base s).1).0
        ≡ (get_redir_entry hw io_base id s).0
  lapic_init-entry io apart id s h =
      let kept : (q : ℕ) → io.reg (Lapic.init hw base s).1 q ≡ io.reg s q = λ q.
        init-keeps hw base dev (λ (t : S). io.reg t q) (λ v t. apart.tpr_apart v q t)
          (λ v t. apart.spurious_apart v q t) (λ v t. apart.msr_apart v q t) s in
      rw
        (
          get_redir_entry-reg hw io_base io id (Lapic.init hw base s).1 h,
          get_redir_entry-reg hw io_base io id s h,
          kept (ioredtbl + id * 2),
          kept (ioredtbl + id * 2 + 1),
        )
        refl

  -- The entries of the timer and the keyboard after both routines.
  pub controllers-entries :
      (io : IsIoapic hw io_base)
      → AreApart hw base io_base io
      → (entry : RedirEntry) (s : S) → IsEntry entry
      → let s' = (Lapic.init hw base (Ioapic.init hw io_base entry s).1).1 in
        SameSettings (get_redir_entry hw io_base irq_hpet s').0 (prepared entry timer)
        × SameSettings (get_redir_entry hw io_base irq_keyboard s').0 (prepared entry keyboard)
  controllers-entries io apart entry s fits =
      let s1 = (Ioapic.init hw io_base entry s).1 in
      let redirects = init-redirects hw io_base io entry s fits in
      (
        rw (lapic_init-entry io apart irq_hpet s1 (omega arith)) redirects.0,
        rw (lapic_init-entry io apart irq_keyboard s1 (omega arith)) redirects.1,
      )

-- The vector leads to the handler by an interrupt gate that is present, in the kernel's code segment.
pub record IsGate (idt : Table) (v handler : ℕ) : Type 0 where
  pub leads_to : target (idt v) ≡ handler
  pub is_present : (idt v).present ≡ 1
  pub is_interrupt : (idt v).gate_type ≡ interrupt_gate
  pub in_kernel : (idt v).segment_selector ≡ kernel_code

module _ {S : Type 0} {hw : Hardware S} {base io_base : ℕ} (cpu : HasFlag hw)
    (dev : IsLapic hw base) (io : IsIoapic hw io_base) (l : Layout) (k : Kernel S) where
  -- What an interrupt of the timer or the keyboard needs to be taken: the flag of the processor, the
  -- local APIC that accepts every priority and is enabled in its own register and in the MSR, an
  -- entry of the I/O APIC that sends it, and a gate.
  pub record TakesInterrupts : Type 0 where
    pub flag_set : cpu.flag k.devices ≡ true
    pub all_priorities : dev.priority k.devices ≡ 0
    pub enabled : dev.spurious k.devices ≡ 0x1ff
    pub enabled_in_msr : test_bit (dev.msr k.devices) 11 ≡ true
    pub timer_entry :
        SameSettings
          (get_redir_entry hw io_base irq_hpet k.devices).0
          (prepared l.redir_entry timer)
    pub keyboard_entry :
        SameSettings
          (get_redir_entry hw io_base irq_keyboard k.devices).0
          (prepared l.redir_entry keyboard)
    pub timer_gate : IsGate k.idt timer l.handlers.timer_handler
    pub keyboard_gate : IsGate k.idt keyboard l.handlers.keyboard_handler

create-IsGate :
    (h : Handlers) (idt : Table) (v handler : ℕ)
    → handler_of h v ≡ some (interrupt_gate, handler)
    → handler < 2 ^ 64
    → IsGate (Idt.create h idt) v handler
create-IsGate h idt v handler e small =
    let gate = (create-gates h idt v).0 interrupt_gate handler e small in
    record { leads_to = gate.0; is_present = gate.1; is_interrupt = gate.2; in_kernel = gate.3 }

-- The kernel with the table of `Idt.create` and the devices that `set_up_interrupts` leaves.
pub set_up-TakesInterrupts :
    {S : Type 0} (hw : Hardware S) (l : Layout) (idt : Table) (acpi : AcpiTables) (k : Kernel S)
    (s : S) (base io_base : ℕ) (cpu : HasFlag hw) (dev : IsLapic hw base) (io : IsIoapic hw io_base)
    → AreApart hw base io_base io
    → k.devices ≡ set_up_interrupts hw l k.console.mem acpi s
    → lapic_addr k.console.mem acpi.madt ≡ base
    → io_apic_addr k.console.mem acpi.ioapic ≡ io_base
    → k.idt ≡ Idt.create l.handlers idt
    → IsEntry l.redir_entry
    → l.handlers.timer_handler < 2 ^ 64
    → l.handlers.keyboard_handler < 2 ^ 64
    → TakesInterrupts cpu dev io l k
unfolding set_up_interrupts enable_external_interrupts handler_of
set_up-TakesInterrupts hw l idt acpi k s base io_base cpu dev io apart set_up at io_at vectors fits
      small_timer small_keyboard =
    let s1 = (hw.sti s).1 in
    let on = init-enabled hw base dev (Ioapic.init hw io_base l.redir_entry s1).1 in
    let devices =
      set_up
      ∙ ap
          (λ a.
            (Lapic.init hw a
              (Ioapic.init hw (io_apic_addr k.console.mem acpi.ioapic) l.redir_entry s1).1).1)
          at
      ∙ ap (λ b. (Lapic.init hw base (Ioapic.init hw b l.redir_entry s1).1).1) io_at in
    let entries = controllers-entries hw base io_base dev io apart l.redir_entry s1 fits in
    record {
      flag_set =
          ap cpu.flag devices
          ∙ controllers-flag hw base io_base dev cpu l.redir_entry s1
          ∙ cpu.sti_sets s;
      all_priorities = ap dev.priority devices ∙ on.0;
      enabled = ap dev.spurious devices ∙ on.1;
      enabled_in_msr = ap (λ t. test_bit (dev.msr t) 11) devices ∙ on.2 11;
      timer_entry = rw devices entries.0;
      keyboard_entry = rw devices entries.1;
      timer_gate =
          rw vectors (create-IsGate l.handlers idt timer l.handlers.timer_handler refl small_timer);
      keyboard_gate =
          rw vectors
            (create-IsGate l.handlers idt keyboard l.handlers.keyboard_handler refl small_keyboard);
    }
