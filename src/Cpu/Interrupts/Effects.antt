-- ===== src/Cpu/Interrupts/Effects.antt =====
-- What the handlers of kernel/src/idt/interrupts.cpp keep, and that they acknowledge.
use print_os.Base.{
  ℕ, zero, suc, ◌+◌, ◌*◌, ◌/◌, ◌%◌, ◌^◌, ◌<◌, ◌≡◌, refl, ◌∙◌, ap, arith, false, ◌&&◌, ◌==◌,
  Bool-cases, inl, inr,
}
use print_os.Hardware.{Hardware}
use print_os.Acpi.Lapic.{eoi_reg}
use print_os.Drivers.Ps2.{data_rw}
use print_os.Drivers.Keyboard.{read_key}
use print_os.Console.Terminal.{print}
use print_os.Console.Terminal.Motion.{roomy}
use print_os.Console.Terminal.Bounds.{InRange, at_origin, print_char-InRange}
use print_os.Cpu.Interrupts.{Clock, Kernel, tick, keyboard_handler}

-- The clock after a number of ticks.
abbrev pub ticks : (n : ℕ) → Clock → Clock
ticks zero c = c
ticks (suc n) c = tick (ticks n c)

-- From 0 on, the clock counts ten ticks to a second: after `n` ticks it shows `n / 10` seconds and
-- `n % 10` tenths, until the word of the seconds is full.
pub ticks_lem :
    (n : ℕ)
    → n < 10 * 2 ^ 64
    → let c = ticks n (record { secs = 0; ms = 0 }) in (c.secs ≡ n / 10) × (c.ms ≡ n % 10)
unfolding tick
ticks_lem zero h = (refl, refl)
ticks_lem (suc n) h = let (secs, ms) = ticks_lem n (omega arith) in ground arith

-- The devices of an interrupt: the local APIC counts the ends of interrupts, and reading the port of
-- the controller does not change that count.
pub record IsAcknowledged {S : Type 0} (hw : Hardware S) (lapic_addr : ℕ) : Type 0 where
  pub acknowledged : S → ℕ
  pub write_eoi :
      (v : ℕ) (s : S)
      → acknowledged (hw.mmio_write32 (lapic_addr + eoi_reg) v s).1 ≡ suc (acknowledged s)
  pub read_port : (s : S) → acknowledged (hw.inb data_rw s).1 ≡ acknowledged s

-- The handler of the keyboard leaves the cursor in range, unless the key is a backspace at the top
-- left corner; it acknowledges the interrupt once, whatever the key; a key without a character
-- leaves the console as it was; and the modifiers are those that `read_key` leaves.
pub keyboard_handler_lem :
    {S : Type 0} (hw : Hardware S) (lapic_addr : ℕ) (dev : IsAcknowledged hw lapic_addr)
    → (k : Kernel) (s : S) → InRange k.console.cursor
    → let pressed = read_key (hw.inb data_rw s).0 k.keyboard in
      ((pressed.0 == 8) && at_origin (roomy k.console.cursor)) ≡ false
      → let after = keyboard_handler hw lapic_addr k s in
        InRange after.0.console.cursor
        × (dev.acknowledged after.1 ≡ suc (dev.acknowledged s))
        × (pressed.0 ≡ 0 → after.0.console ≡ k.console)
        × (after.0.keyboard ≡ pressed.1)
unfolding keyboard_handler print
keyboard_handler_lem hw lapic_addr dev k s g o =
    let pressed = read_key (hw.inb data_rw s).0 k.keyboard in
    let ack = dev.write_eoi 0xff (hw.inb data_rw s).1 ∙ ap suc (dev.read_port s) in
    elim (Bool-cases (pressed.0 == 0)) [
      | inl silent ↦ (rw silent g, ack, λ e. rw silent refl, refl)
      | inr typed ↦ (
        rw typed (print_char-InRange pressed.0 k.console g o),
        ack,
        λ e. absurd (ground arith),
        refl,
      )
    ]
