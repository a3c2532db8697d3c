-- ===== src/Cpu/Interrupts.antt =====
-- kernel/src/idt/interrupts.cpp: the handlers, over the objects of the kernel that they use and a
-- state of the devices. Those that end in an endless loop are in Report.
pub mod Effects
use print_os.Base.{ℕ, ◌+◌, ◌%◌, ◌^◌, Option, none, some, [], ◌∷◌, ◌>>=◌, ◌==◌, if◌then◌else◌}
use print_os.Hardware.{Hardware}
use print_os.Acpi.Lapic
use print_os.Drivers.Ps2
use print_os.Drivers.Keyboard.{Keyboard, read_key}
use print_os.Console.Terminal.{Console, print}
use print_os.Kutils.Printf.{kprintf}
use print_os.Cpu.Idt.{division_by_zero, page_fault, keyboard, spurious}

-- The instruction `int` that `interrupt` executes for an index, if any. The case of the spurious
-- interrupt falls through to the default, which does nothing.
unfoldable pub interrupt : (isr_index : ℕ) → Option ℕ
interrupt isr_index =
    if isr_index == division_by_zero
    then some division_by_zero
    else if isr_index == page_fault
    then some page_fault
    else if isr_index == keyboard
    then some keyboard
    else if isr_index == spurious
    then some spurious
    else none

-- The globals `secs` and `ms`, of 64 and 8 bits.
pub record Clock : Type 0 where
  pub secs : ℕ
  pub ms : ℕ

pub record Kernel : Type 0 where
  pub clock : Clock
  pub keyboard : Keyboard
  pub console : Console

unfoldable pub tick : Clock → Clock
tick c =
    let ms = (c.ms + 1) % 256 in
    if ms == 10
    then record { secs = (c.secs + 1) % 2 ^ 64; ms = 0 }
    else record { secs = c.secs; ms = ms }

module _ {S : Type 0} (hw : Hardware S) (lapic_addr : ℕ) where
  -- `format` is the address of "%d.%d\r"; `none` is a formatter that does not return.
  unfoldable pub timer_handler : (fuel buf temp_buf format : ℕ) → Kernel → S → Option (Kernel × S)
  unfolding tick Lapic.write_eoi
  timer_handler fuel buf temp_buf format k s = do
    let clock = tick k.clock
    console ← kprintf fuel buf temp_buf format (clock.secs ∷ clock.ms ∷ []) k.console
    some (record k { clock = clock; console = console }, (Lapic.write_eoi hw lapic_addr s).1)

  unfoldable pub keyboard_handler : Kernel → S → Kernel × S
  unfolding Ps2.read_data Lapic.write_eoi
  keyboard_handler k s =
      let code = Ps2.read_data hw s in
      let pressed = read_key code.0 k.keyboard in
      let console = if pressed.0 == 0 then k.console else print pressed.0 k.console in
      (
        record k { keyboard = pressed.1; console = console },
        (Lapic.write_eoi hw lapic_addr code.1).1,
      )
