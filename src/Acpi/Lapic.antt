-- ===== src/Acpi/Lapic.antt =====
-- kernel/src/acpi/apic/lapic.cpp and lapic.hpp: the local APIC, by its registers in memory and its
-- model-specific register. `cpuid_ebx` is what the instruction `cpuid` with 1 gives in `ebx`.
use print_os.Base.{ℕ, ◌+◌, ◌/◌, ◌%◌, ◌^◌, ◌≡◌, ◌<◌, ◌||◌, refl, ap, ◌∙◌, arith, ◌==◌}
use print_os.Hardware.{Action, Hardware, pure, ◌>>=◌, ◌>>◌}
use print_os.Kutils.Bits.{set_bit, test_bit}
use print_os.Kutils.Bits.Laws.{test_bit-set_bit_wide}

abbrev pub base_msr : ℕ
base_msr = 0x1b

-- `Reg`.
abbrev pub id_reg : ℕ
id_reg = 0x20

abbrev pub version_reg : ℕ
version_reg = 0x30

abbrev pub tpr_reg : ℕ
tpr_reg = 0x80

abbrev pub eoi_reg : ℕ
eoi_reg = 0xb0

abbrev pub spurious_reg : ℕ
spurious_reg = 0xf0

-- `Interrupt::SPURIOUS`.
abbrev pub spurious_vector : ℕ
spurious_vector = 0xff

unfoldable pub get_init_id : (cpuid_ebx : ℕ) → ℕ
get_init_id cpuid_ebx = cpuid_ebx / 2 ^ 24 % 256

module _ {S : Type 0} (hw : Hardware S) where
  unfoldable pub write_msr : (value : ℕ) → Action S (Unit {0})
  write_msr value = hw.write_msr base_msr value

  unfoldable pub read_msr : Action S ℕ
  read_msr = hw.read_msr base_msr

  module _ (lapic_addr : ℕ) where
    unfoldable pub read_reg : (reg : ℕ) → Action S ℕ
    read_reg reg = hw.mmio_read32 (lapic_addr + reg)

    unfoldable pub write_reg : (reg val : ℕ) → Action S (Unit {0})
    write_reg reg val = hw.mmio_write32 (lapic_addr + reg) val

    unfoldable pub enable : Action S (Unit {0})
    unfolding write_msr read_msr read_reg write_reg
    enable = do
      msr ← read_msr
      write_msr (set_bit msr 11)
      reg ← read_reg spurious_reg
      write_reg spurious_reg (set_bit reg 8)

    unfoldable pub set_spurious_interrupt : Action S (Unit {0})
    unfolding write_reg
    set_spurious_interrupt = write_reg spurious_reg spurious_vector

    unfoldable pub get_id : Action S ℕ
    unfolding read_reg
    get_id = do reg ← read_reg id_reg; pure (reg / 2 ^ 24 % 256)

    unfoldable pub get_version : Action S ℕ
    unfolding read_reg
    get_version = do reg ← read_reg version_reg; pure (reg % 256)

    unfoldable pub write_eoi : Action S (Unit {0})
    unfolding write_reg
    write_eoi = write_reg eoi_reg 0xff

    unfoldable pub init : Action S (Unit {0})
    unfolding write_reg set_spurious_interrupt enable
    init = do write_reg tpr_reg 0; set_spurious_interrupt; enable

-- The local APIC at an address: the task priority, the spurious vector register and the base MSR
-- hold what is written to them, and a write to one of them leaves the others.
pub record IsLapic {S : Type 0} (hw : Hardware S) (base : ℕ) : Type 0 where
  pub priority : S → ℕ
  pub spurious : S → ℕ
  pub msr : S → ℕ
  pub write_tpr : (v : ℕ) (s : S) → priority (hw.mmio_write32 (base + tpr_reg) v s).1 ≡ v
  pub tpr_msr : (v : ℕ) (s : S) → msr (hw.mmio_write32 (base + tpr_reg) v s).1 ≡ msr s
  pub write_spurious :
      (v : ℕ) (s : S) → v < 512 → spurious (hw.mmio_write32 (base + spurious_reg) v s).1 ≡ v
  pub spurious_priority :
      (v : ℕ) (s : S) → priority (hw.mmio_write32 (base + spurious_reg) v s).1 ≡ priority s
  pub spurious_msr : (v : ℕ) (s : S) → msr (hw.mmio_write32 (base + spurious_reg) v s).1 ≡ msr s
  pub read_spurious : (s : S) → hw.mmio_read32 (base + spurious_reg) s ≡ (spurious s, s)
  pub write_base : (v : ℕ) (s : S) → msr (hw.write_msr base_msr v s).1 ≡ v
  pub base_spurious : (v : ℕ) (s : S) → spurious (hw.write_msr base_msr v s).1 ≡ spurious s
  pub base_priority : (v : ℕ) (s : S) → priority (hw.write_msr base_msr v s).1 ≡ priority s
  pub read_base : (s : S) → hw.read_msr base_msr s ≡ (msr s, s)

-- After `init` every interrupt priority is accepted, the spurious vector register holds the vector
-- 255 with the bit that enables the APIC, and of the MSR the enabling bit is set and every other
-- bit is as it was.
pub init-enabled :
    {S : Type 0} (hw : Hardware S) (base : ℕ) (dev : IsLapic hw base) (s : S)
    → let s' = (init hw base s).1 in
      (dev.priority s' ≡ 0)
      × (dev.spurious s' ≡ 0x1ff)
      × ((k : ℕ) → test_bit (dev.msr s') k ≡ ((11 == k) || test_bit (dev.msr s) k))
init-enabled {S} hw base dev s = rw final (
  dev.spurious_priority 0x1ff s3
      ∙ dev.base_priority (set_bit (dev.msr s2) 11) s2
      ∙ dev.spurious_priority spurious_vector s1
      ∙ dev.write_tpr 0 s,
  dev.write_spurious 0x1ff s3 (omega arith),
  λ k. rw (msr_after, test_bit-set_bit_wide (dev.msr s) 11 k) refl,
)
  where
    s1 : S
    s1 = (hw.mmio_write32 (base + tpr_reg) 0 s).1

    s2 : S
    s2 = (hw.mmio_write32 (base + spurious_reg) spurious_vector s1).1

    s3 : S
    s3 = (hw.write_msr base_msr (set_bit (dev.msr s2) 11) s2).1

    held : dev.spurious s3 ≡ spurious_vector
    held =
        dev.base_spurious (set_bit (dev.msr s2) 11) s2
        ∙ dev.write_spurious spurious_vector s1 (omega arith)

    enabled : set_bit spurious_vector 8 ≡ 0x1ff
    enabled = unfold set_bit in refl

    final : (init hw base s).1 ≡ (hw.mmio_write32 (base + spurious_reg) 0x1ff s3).1
    final = unfold init in rw (dev.read_base s2, dev.read_spurious s3, held, enabled) refl

    msr_after : dev.msr (hw.mmio_write32 (base + spurious_reg) 0x1ff s3).1 ≡ set_bit (dev.msr s) 11
    msr_after =
        dev.spurious_msr 0x1ff s3
        ∙ dev.write_base (set_bit (dev.msr s2) 11) s2
        ∙ ap (λ (v : ℕ). set_bit v 11) (dev.spurious_msr spurious_vector s1 ∙ dev.tpr_msr 0 s)

-- What a write to any of the three registers of `init` leaves, `init` leaves.
pub init-keeps :
    {S : Type 0} (hw : Hardware S) (base : ℕ)
    → IsLapic hw base
    → {A : Type 0} (seen : S → A)
    → ((v : ℕ) (s : S) → seen (hw.mmio_write32 (base + tpr_reg) v s).1 ≡ seen s)
    → ((v : ℕ) (s : S) → seen (hw.mmio_write32 (base + spurious_reg) v s).1 ≡ seen s)
    → ((v : ℕ) (s : S) → seen (hw.write_msr base_msr v s).1 ≡ seen s)
    → (s : S) → seen (init hw base s).1 ≡ seen s
unfolding init
init-keeps hw base dev seen tpr spurious msr s =
    let s1 = (hw.mmio_write32 (base + tpr_reg) 0 s).1 in
    let s2 = (hw.mmio_write32 (base + spurious_reg) spurious_vector s1).1 in
    let s3 = (hw.write_msr base_msr (set_bit (dev.msr s2) 11) s2).1 in
    rw (dev.read_base s2, dev.read_spurious s3)
      (spurious (set_bit (dev.spurious s3) 8) s3
        ∙ msr (set_bit (dev.msr s2) 11) s2
        ∙ spurious spurious_vector s1
        ∙ tpr 0 s)
