-- ===== src/Acpi/Hpet.antt =====
-- kernel/src/acpi/hpet/hpet.cpp and hpet.hpp: the general registers of the event timer. The global
-- `g_clk_period_ns` is a result of `init` and an argument where it is read.
pub mod Comparator
pub mod Timing
use print_os.Base.{ℕ, ◌+◌, ◌*◌, ◌/◌, ◌%◌, ◌^◌, Bool, ◌==◌}
use print_os.Mem.{Mem, read_le}
use print_os.Hardware.{Action, Hardware, pure, ◌>>=◌, ◌>>◌}
use print_os.Acpi.Tables.{header_sz}
use print_os.Acpi.Tables

-- `Reg`; `CAP_REG` is at offset 0.
abbrev pub cap_reg : ℕ
cap_reg = 0

abbrev pub config_reg : ℕ
config_reg = 0x10

abbrev pub counter_reg : ℕ
counter_reg = 0xf0

-- `SDT_Table`: behind the header and the block id comes a `GAS`, with its address last.
abbrev pub base_address : Mem → (hpet : ℕ) → ℕ
base_address m hpet = read_le m (hpet + header_sz + 4 + 4) 8

unfoldable pub get_sdt_table : Mem → (rsdp hpet_sig : ℕ) → ℕ
unfolding Tables.get_header
get_sdt_table m rsdp hpet_sig = Tables.get_header m rsdp hpet_sig

-- The bit-field `enable_cnf` is the lowest bit.
abbrev pub with_enable_cnf : (reg bit : ℕ) → ℕ
with_enable_cnf reg bit = reg / 2 * 2 + bit

module _ {S : Type 0} (hw : Hardware S) (base : ℕ) where
  unfoldable pub read_reg : (reg : ℕ) → Action S ℕ
  read_reg reg = hw.mmio_read64 (base + reg)

  unfoldable pub write_reg : (reg val : ℕ) → Action S (Unit {0})
  write_reg reg val = hw.mmio_write64 (base + reg) val

  -- The result is a `u32`.
  unfoldable pub get_counter_clk_period : Action S ℕ
  unfolding read_reg
  get_counter_clk_period = do cap ← read_reg cap_reg; pure (cap / 2 ^ 32 % 2 ^ 32)

  unfoldable pub init : Action S ℕ
  unfolding get_counter_clk_period
  init = do period ← get_counter_clk_period; pure (period / 1000000)

  unfoldable pub enable_counter : Action S (Unit {0})
  unfolding read_reg write_reg
  enable_counter = do
    write_reg counter_reg 0
    reg ← read_reg config_reg
    write_reg config_reg (with_enable_cnf reg 1)

  unfoldable pub disable_counter : Action S (Unit {0})
  unfolding read_reg write_reg
  disable_counter = do
    reg ← read_reg config_reg
    write_reg config_reg (with_enable_cnf reg 0)
    write_reg counter_reg 0

  unfoldable pub is_counter_enabled : Action S Bool
  unfolding read_reg
  is_counter_enabled = do reg ← read_reg config_reg; pure (reg % 2 == 1)

  unfoldable pub get_counter : Action S ℕ
  unfolding read_reg
  get_counter = read_reg counter_reg

  unfoldable pub get_no_comparators : Action S ℕ
  unfolding read_reg
  get_no_comparators = do cap ← read_reg cap_reg; pure (cap / 2 ^ 8 % 2 ^ 5 + 1)

  unfoldable pub get_mmio_sz : Action S ℕ
  unfolding get_no_comparators
  get_mmio_sz = do n ← get_no_comparators; pure (8 * 8 + n * (4 * 8))
