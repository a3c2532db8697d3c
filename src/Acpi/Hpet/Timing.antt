-- ===== src/Acpi/Hpet/Timing.antt =====
-- What the two modes of kernel/src/acpi/hpet/comparator.cpp leave in the timer, and what that means
-- in time.
use native.Mathlib.Nat.{div-add-mod, mod-lt, mul-le-mul_right}
use print_os.Base.{
  ℕ, ◌+◌, ◌*◌, ◌/◌, ◌%◌, ◌^◌, ◌≤◌, ◌<◌, ◌≡◌, refl, sym, ap, ◌∙◌, none, arith, u64_mod,
}
use print_os.Hardware.{Hardware}
use print_os.Acpi.Hpet.{
  cap_reg, config_reg, counter_reg, init, with_enable_cnf, enable_counter, disable_counter,
}
use print_os.Acpi.Hpet.Comparator.{
  create, calc_ms_to_compar, get_compar_reg_ptr, config, compar, set_one_shot, set_periodic,
}

-- The event timer at an address, with the comparator `id`: the general configuration, the main
-- counter, and what the comparator was last given. The configuration reads as it was written, and a
-- write to one of the four leaves the others. The counter stays while the code below runs only in
-- so far as it is stopped: it is not read back here after it has been started.
pub record IsHpet {S : Type 0} (hw : Hardware S) (base id : ℕ) : Type 0 where
  pub general : S → ℕ
  pub counter : S → ℕ
  pub mode : S → ℕ
  pub value : S → ℕ
  pub read_config : (s : S) → hw.mmio_read64 (base + config_reg) s ≡ (general s, s)
  pub read_counter : (s : S) → hw.mmio_read64 (base + counter_reg) s ≡ (counter s, s)
  pub write_config :
      (v : ℕ) (s : S)
      → let s' = (hw.mmio_write64 (base + config_reg) v s).1 in
        (general s' ≡ v) × (counter s' ≡ counter s) × (mode s' ≡ mode s) × (value s' ≡ value s)
  pub write_counter :
      (v : ℕ) (s : S)
      → let s' = (hw.mmio_write64 (base + counter_reg) v s).1 in
        (general s' ≡ general s) × (counter s' ≡ v) × (mode s' ≡ mode s) × (value s' ≡ value s)
  pub write_mode :
      (v : ℕ) (s : S)
      → let s' = (hw.mmio_write64 (get_compar_reg_ptr base id config) v s).1 in
        (general s' ≡ general s) × (counter s' ≡ counter s) × (mode s' ≡ v) × (value s' ≡ value s)
  pub write_value :
      (v : ℕ) (s : S)
      → let s' = (hw.mmio_write64 (get_compar_reg_ptr base id compar) v s).1 in
        (general s' ≡ general s) × (counter s' ≡ counter s) × (mode s' ≡ mode s) × (value s' ≡ v)

module _ {S : Type 0} (hw : Hardware S) (base id : ℕ) (dev : IsHpet hw base id) where
  open dev use {
    general, counter, mode, value, read_config, read_counter, write_config, write_counter,
    write_mode, write_value,
  }

  -- `disable_counter` stops the counter at 0; the rest of the configuration is as before.
  disable_counter_lem :
      (s : S)
      → let s' = (disable_counter hw base s).1 in
        (general s' ≡ with_enable_cnf (general s) 0)
        × (counter s' ≡ 0)
        × (mode s' ≡ mode s)
        × (value s' ≡ value s)
  unfolding disable_counter
  disable_counter_lem s =
      let s1 = (hw.mmio_write64 (base + config_reg) (with_enable_cnf (general s) 0) s).1 in
      let first = write_config (with_enable_cnf (general s) 0) s in
      let second = write_counter 0 s1 in
      rw (read_config s) (second.0 ∙ first.0, second.1, second.2 ∙ first.2, second.3 ∙ first.3)

  -- `enable_counter` starts it from 0.
  enable_counter_lem :
      (s : S)
      → let s' = (enable_counter hw base s).1 in
        (general s' ≡ with_enable_cnf (general s) 1)
        × (counter s' ≡ 0)
        × (mode s' ≡ mode s)
        × (value s' ≡ value s)
  unfolding enable_counter
  enable_counter_lem s =
      let s1 = (hw.mmio_write64 (base + counter_reg) 0 s).1 in
      let first = write_counter 0 s in
      let second = write_config (with_enable_cnf (general s1) 1) s1 in
      rw (read_config s1) (
        second.0 ∙ ap (λ (t : ℕ). with_enable_cnf t 1) first.0,
        second.1 ∙ first.1,
        second.2 ∙ first.2,
        second.3 ∙ first.3,
      )

-- `set_periodic` leaves the comparator in periodic mode with its interrupt on, interrupt type 0 and route 0,
-- and with the value of the period; and it leaves the main counter running from 0, with the rest of
-- the general configuration as it was.
pub set_periodic_lem :
    {S : Type 0} (hw : Hardware S) (base id : ℕ) (dev : IsHpet hw base id)
    → (g_clk_period_ns ms_time : ℕ) (s : S)
    → let s' = (set_periodic hw base id g_clk_period_ns ms_time s).1 in
      (dev.mode s' ≡ 2 ^ 2 + 2 ^ 3 + 2 ^ 6)
      × (dev.value s' ≡ calc_ms_to_compar g_clk_period_ns 0 ms_time)
      × (dev.counter s' ≡ 0)
      × (dev.general s' % 2 ≡ 1)
      × (dev.general s' / 2 ≡ dev.general s / 2)
unfolding set_periodic
set_periodic_lem {S} hw base id dev g_clk_period_ns ms_time s =
    let s1 = (disable_counter hw base s).1 in
    let s2 = (hw.mmio_write64 (get_compar_reg_ptr base id config) 76 s1).1 in
    let v = calc_ms_to_compar g_clk_period_ns 0 ms_time in
    let s3 = (hw.mmio_write64 (get_compar_reg_ptr base id compar) v s2).1 in
    let stop = disable_counter_lem hw base id dev s in
    let second = dev.write_mode 76 s1 in
    let third = dev.write_value v s2 in
    let start = enable_counter_lem hw base id dev s3 in
    (
      start.2 ∙ third.2 ∙ second.2,
      start.3 ∙ third.3,
      start.1,
      omega (arith, start.0),
      omega (arith, start.0, third.0, second.0, stop.0),
    )

-- `set_one_shot` leaves the comparator in one-shot mode with its interrupt on and route 0, and with
-- a value that lies the time ahead of the main counter; counter and configuration are as they were.
pub set_one_shot_lem :
    {S : Type 0} (hw : Hardware S) (base id : ℕ) (dev : IsHpet hw base id)
    → (g_clk_period_ns ms_time : ℕ) (s : S)
    → let s' = (set_one_shot hw base id g_clk_period_ns ms_time s).1 in
      (dev.mode s' ≡ 2 ^ 2)
      × (dev.value s' ≡ calc_ms_to_compar g_clk_period_ns (dev.counter s) ms_time)
      × (dev.counter s' ≡ dev.counter s)
      × (dev.general s' ≡ dev.general s)
unfolding set_one_shot
set_one_shot_lem hw base id dev g_clk_period_ns ms_time s =
    let v = calc_ms_to_compar g_clk_period_ns (dev.counter s) ms_time in
    let s1 = (hw.mmio_write64 (get_compar_reg_ptr base id compar) v s).1 in
    let first = dev.write_value v s in
    let second = dev.write_mode 4 s1 in
    rw (dev.read_counter s) (second.2, second.3 ∙ first.3, second.1 ∙ first.1, second.0 ∙ first.0)

-- With a tick of `fs` femtoseconds, of which `init` makes whole nanoseconds, a period of `ms_time`
-- milliseconds that fits lasts as long as it should, within these bounds: one tick more takes longer
-- than the time asked for, and the period itself is longer than that time by at most the part of a
-- nanosecond that is dropped from each of its ticks.
pub calc_ms_to_compar_bound :
    (fs ms_time : ℕ)
    → 1000000 ≤ fs
    → ms_time * 1000000 < u64_mod
    → let time = ms_time * 1000000 * 1000000 in
      let ticks = calc_ms_to_compar (fs / 1000000) 0 ms_time in
      (time < (ticks + 1) * fs) × (ticks * fs ≤ time + ticks * (fs % 1000000))
unfolding calc_ms_to_compar
calc_ms_to_compar_bound fs ms_time h fits =
    let q = ms_time * 1000000 in
    let n = fs / 1000000 in
    let d = q / n in
    let parts : n * d + q % n ≡ q = div-add-mod q n in
    let rest : q % n < n = mod-lt q (omega arith) in
    let below : d ≤ n * d = grind arith in
    let wraps : (0 + q % u64_mod / n) % u64_mod ≡ d =
      (let e : q % u64_mod ≡ q = omega arith in rw e (omega arith)) in
    let whole : n * 1000000 + fs % 1000000 ≡ fs = omega arith in
    let spread : d * (n * 1000000 + fs % 1000000) ≡ n * d * 1000000 + d * (fs % 1000000) =
      grind arith in
    let expanded : d * fs ≡ d * (n * 1000000 + fs % 1000000) = ap (λ t. d * t) (sym whole) in
    let floor : n * 1000000 ≤ fs = omega arith in
    rw wraps (omega (arith, mul-le-mul_right (d + 1) floor), omega (arith, expanded, spread))

-- On a timer whose tick is shorter than a nanosecond the constructor fails its assertion.
pub create-init :
    {S : Type 0} (hw : Hardware S) (base timer_id cap : ℕ) (s : S)
    → (hw.mmio_read64 (base + cap_reg) s).0 ≡ cap
    → cap / 2 ^ 32 % 2 ^ 32 < 1000000
    → create (init hw base s).0 timer_id ≡ none
unfolding create init
create-init hw base timer_id cap s e h =
    let zero_period : cap / 2 ^ 32 % 2 ^ 32 / 1000000 ≡ 0 = omega arith in rw (e, zero_period) refl
