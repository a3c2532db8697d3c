-- ===== src/Acpi/Ioapic.antt =====
-- kernel/src/acpi/apic/ioapic.cpp and ioapic.hpp: the registers of the I/O APIC are reached through
-- a pair of registers in memory, one that selects and one that is the window.
pub mod Entry
pub mod RoundTrip
use print_os.Base.{ℕ, ◌+◌, ◌*◌, ◌/◌, ◌%◌, ◌^◌}
use print_os.Hardware.{Action, Hardware, pure, ◌>>=◌, ◌>>◌}
use print_os.Acpi.Ioapic.Entry.{RedirEntry, lower_half, upper_half, of_halves, timer, keyboard}

-- `MMIO_Reg` and `Reg`; `IOREGSEL` is at offset 0.
abbrev pub iowin : ℕ
iowin = 0x10

abbrev pub ioapicid : ℕ
ioapicid = 0

abbrev pub ioapicver : ℕ
ioapicver = 1

abbrev pub ioredtbl : ℕ
ioredtbl = 0x10

-- `IRQ`.
abbrev pub irq_hpet : ℕ
irq_hpet = 0

abbrev pub irq_keyboard : ℕ
irq_keyboard = 1

module _ {S : Type 0} (hw : Hardware S) (io_apic_addr : ℕ) where
  -- The argument is a `u8`.
  unfoldable pub set_ioregsel : (reg_id : ℕ) → Action S (Unit {0})
  set_ioregsel reg_id = hw.mmio_write32 io_apic_addr (reg_id % 256)

  unfoldable pub set_iowin : (val : ℕ) → Action S (Unit {0})
  set_iowin val = hw.mmio_write32 (io_apic_addr + iowin) val

  unfoldable pub get_iowin : Action S ℕ
  get_iowin = hw.mmio_read32 (io_apic_addr + iowin)

  unfoldable pub get_id : Action S ℕ
  unfolding set_ioregsel get_iowin
  get_id = do set_ioregsel ioapicid; val ← get_iowin; pure (val * 2 ^ 4 % 2 ^ 32 / 2 ^ 28 % 256)

  unfoldable pub get_version_reg : Action S ℕ
  unfolding set_ioregsel get_iowin
  get_version_reg = do set_ioregsel ioapicver; get_iowin

  unfoldable pub get_version : Action S ℕ
  unfolding get_version_reg
  get_version = do val ← get_version_reg; pure (val % 256)

  -- The cast binds tighter than the addition, and the result is a `u8`.
  unfoldable pub get_entries_num : Action S ℕ
  unfolding get_version_reg
  get_entries_num = do val ← get_version_reg; pure ((val / 2 ^ 16 % 256 + 1) % 256)

  -- `addr_off` is a `u8`.
  abbrev pub addr_off : (entry_id : ℕ) → ℕ
  addr_off entry_id = (ioredtbl + entry_id * 2) % 256

  unfoldable pub set_redir_entry : (entry_id : ℕ) → RedirEntry → Action S (Unit {0})
  unfolding set_ioregsel set_iowin
  set_redir_entry entry_id entry = do
    set_ioregsel (addr_off entry_id)
    set_iowin (lower_half entry)
    set_ioregsel (addr_off entry_id + 1)
    set_iowin (upper_half entry)

  unfoldable pub get_redir_entry : (entry_id : ℕ) → Action S RedirEntry
  unfolding set_ioregsel get_iowin
  get_redir_entry entry_id = do
    set_ioregsel (addr_off entry_id)
    lower ← get_iowin
    set_ioregsel (addr_off entry_id + 1)
    upper ← get_iowin
    pure (of_halves lower upper)

  -- `entry` stands for what the variable holds before it is set.
  unfoldable pub init : (entry : RedirEntry) → Action S (Unit {0})
  unfolding set_redir_entry
  init entry = do
    let set = record entry {
      delmod = 0;
      destmod = 0;
      intpol = 0;
      int_mask = 0;
      destination = 0;
      trigmod = 0;
    }
    set_redir_entry irq_hpet (record set { intvec = timer })
    set_redir_entry irq_keyboard (record set { intvec = keyboard })
