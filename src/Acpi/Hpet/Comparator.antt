-- ===== src/Acpi/Hpet/Comparator.antt =====
-- kernel/src/acpi/hpet/comparator.cpp and comparator.hpp: one comparator of the event timer.
use print_os.Base.{ℕ, ◌+◌, ◌*◌, ◌/◌, ◌%◌, ◌^◌, Option, none, some, ◌==◌, if◌then◌else◌, u64_mod}
use print_os.Hardware.{Action, Hardware, pure, ◌>>=◌, ◌>>◌}
use print_os.Acpi.Ioapic.{irq_hpet}
use print_os.Acpi.Hpet.{get_counter, enable_counter, disable_counter}

-- `ConfigReg`, the bit fields from the low end of the 64 bits.
pub record ConfigReg : Type 0 where
  pub reserved1 : ℕ  -- 1 bit
  pub int_type_cnf : ℕ  -- 1
  pub int_enb_cnf : ℕ  -- 1
  pub type_cnf : ℕ  -- 1
  pub per_int_cap : ℕ  -- 1
  pub size_cap : ℕ  -- 1
  pub val_set_cnf : ℕ  -- 1
  pub reserved2 : ℕ  -- 1
  pub mode32_cnf : ℕ  -- 1
  pub int_route_cnf : ℕ  -- 5
  pub fsb_en_cnf : ℕ  -- 1
  pub fsb_int_del_cap : ℕ  -- 1
  pub reserved3 : ℕ  -- 16
  pub int_route_cap : ℕ  -- 32

unfoldable pub word : ConfigReg → ℕ
word c =
    c.reserved1
    + 2 * c.int_type_cnf
    + 2 ^ 2 * c.int_enb_cnf
    + 2 ^ 3 * c.type_cnf
    + 2 ^ 4 * c.per_int_cap
    + 2 ^ 5 * c.size_cap
    + 2 ^ 6 * c.val_set_cnf
    + 2 ^ 7 * c.reserved2
    + 2 ^ 8 * c.mode32_cnf
    + 2 ^ 9 * c.int_route_cnf
    + 2 ^ 14 * c.fsb_en_cnf
    + 2 ^ 15 * c.fsb_int_del_cap
    + 2 ^ 16 * c.reserved3
    + 2 ^ 32 * c.int_route_cap

-- The fields that an initialiser does not name are 0.
abbrev pub blank : ConfigReg
blank = record {
  reserved1 = 0;
  int_type_cnf = 0;
  int_enb_cnf = 0;
  type_cnf = 0;
  per_int_cap = 0;
  size_cap = 0;
  val_set_cnf = 0;
  reserved2 = 0;
  mode32_cnf = 0;
  int_route_cnf = 0;
  fsb_en_cnf = 0;
  fsb_int_del_cap = 0;
  reserved3 = 0;
  int_route_cap = 0;
}

abbrev pub block_sz : ℕ
block_sz = 32

abbrev pub first_off : ℕ
first_off = 0x100

abbrev pub config : ℕ
config = 0

abbrev pub compar : ℕ
compar = 8

abbrev pub one_shot : ℕ
one_shot = 0

abbrev pub periodic : ℕ
periodic = 1

-- The constructor keeps the id, a `u8`; `none` is a failed assertion.
unfoldable pub create : (g_clk_period_ns timer_id : ℕ) → Option ℕ
create g_clk_period_ns timer_id = if g_clk_period_ns == 0 then none else some (timer_id % 256)

-- Products and sums of 64 bits.
unfoldable pub calc_ms_to_compar : (g_clk_period_ns counter ms_time : ℕ) → ℕ
calc_ms_to_compar g_clk_period_ns counter ms_time =
    (counter + ms_time * 1000000 % u64_mod / g_clk_period_ns) % u64_mod

abbrev pub get_compar_reg_ptr : (base id reg : ℕ) → ℕ
get_compar_reg_ptr base id reg = base + first_off + id * block_sz + reg

module _ {S : Type 0} (hw : Hardware S) (base id : ℕ) where
  unfoldable pub write_reg : (reg val : ℕ) → Action S (Unit {0})
  write_reg reg val = hw.mmio_write64 (get_compar_reg_ptr base id reg) val

  unfoldable pub read_reg : (reg : ℕ) → Action S ℕ
  read_reg reg = hw.mmio_read64 (get_compar_reg_ptr base id reg)

  unfoldable pub set_config : ConfigReg → Action S (Unit {0})
  unfolding write_reg word
  set_config reg = write_reg config (word reg)

  unfoldable pub set_compar_value : (val : ℕ) → Action S (Unit {0})
  unfolding write_reg
  set_compar_value val = write_reg compar val

  unfoldable pub get_compar_value : Action S ℕ
  unfolding read_reg
  get_compar_value = read_reg compar

  unfoldable pub get_available_ioapic_routes : Action S ℕ
  unfolding read_reg
  get_available_ioapic_routes = do reg ← read_reg config; pure (reg / 2 ^ 32 % 2 ^ 32)

  unfoldable pub set_one_shot : (g_clk_period_ns ms_time : ℕ) → Action S (Unit {0})
  unfolding get_counter set_compar_value set_config calc_ms_to_compar
  set_one_shot g_clk_period_ns ms_time = do
    counter ← get_counter hw base
    set_compar_value (calc_ms_to_compar g_clk_period_ns counter ms_time)
    set_config (record blank { int_enb_cnf = 1; type_cnf = one_shot; int_route_cnf = irq_hpet })

  unfoldable pub set_periodic : (g_clk_period_ns ms_time : ℕ) → Action S (Unit {0})
  unfolding disable_counter enable_counter set_compar_value set_config calc_ms_to_compar
  set_periodic g_clk_period_ns ms_time = do
    disable_counter hw base
    set_config (record blank {
      int_enb_cnf = 1;
      type_cnf = periodic;
      val_set_cnf = 1;
      int_route_cnf = irq_hpet;
    })
    set_compar_value (calc_ms_to_compar g_clk_period_ns 0 ms_time)
    enable_counter hw base
