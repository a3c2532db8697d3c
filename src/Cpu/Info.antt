-- ===== src/Cpu/Info.antt =====
-- kernel/src/cpu/cpu.cpp and cpu.hpp. What the instruction `cpuid` gives for a leaf is an argument.
use print_os.Base.{
  ℕ, ◌+◌, ◌/◌, ◌%◌, ◌^◌, ◌≡◌, ◌↔◌, ◌≢◌, Bool, List, [], ◌∷◌, ◌++◌, arith, ◌==◌, if◌then◌else◌,
}
use print_os.Kutils.Bits.{test_bit}
use print_os.Kutils.Bits.Laws.{test_bit-div}

pub record Registers : Type 0 where
  pub eax : ℕ
  pub ebx : ℕ
  pub ecx : ℕ
  pub edx : ℕ

pub record Info : Type 0 where
  pub manufacturer : List ℕ  -- 13 characters
  pub stepping_id : ℕ  -- 4 bits
  pub type : ℕ  -- 2 bits
  pub model_id : ℕ  -- 16 bits
  pub family_id : ℕ  -- 16 bits
  pub brand : List ℕ  -- 49 characters
  pub hyperthreading : Bool
  pub physical_cores : ℕ  -- 8 bits
  pub logical_cores : ℕ  -- 8 bits

pub data State : Type 0 where
  error success no_long_mode no_fpu no_lapic no_msr : State

-- The four bytes of a register, as `memcpy` copies them.
abbrev pub bytes : ℕ → List ℕ
bytes r = r % 256 ∷ (r / 2 ^ 8 % 256) ∷ (r / 2 ^ 16 % 256) ∷ (r / 2 ^ 24 % 256) ∷ []

-- The arguments `&edx` and `&ecx` are exchanged in the calls, and so are the copies: the order in
-- the text is `eax`, `ebx`, `ecx`, `edx`.
abbrev pub brand_part : Registers → List ℕ
brand_part r = bytes r.eax ++ (bytes r.ebx ++ (bytes r.ecx ++ bytes r.edx))

module _ (cpuid : (leaf : ℕ) → Registers) where
  unfoldable pub get_cpu_brand : List ℕ
  get_cpu_brand =
      brand_part (cpuid 0x8000_0002)
      ++ (brand_part (cpuid 0x8000_0003) ++ (brand_part (cpuid 0x8000_0004) ++ (0 ∷ [])))

  unfoldable pub get_info : Info
  unfolding get_cpu_brand test_bit
  get_info =
      let leaf0 = cpuid 0 in
      let leaf1 = cpuid 1 in
      let eax = leaf1.eax in
      let model = eax / 2 ^ 4 % 2 ^ 4 in
      let family = eax / 2 ^ 8 % 2 ^ 4 in
      record {
        manufacturer = bytes leaf0.ebx ++ (bytes leaf0.edx ++ (bytes leaf0.ecx ++ (0 ∷ [])));
        stepping_id = eax % 2 ^ 4;
        type = eax / 2 ^ 12 % 2 ^ 2;
        model_id = if model == 0xf then model + eax / 2 ^ 16 % 2 ^ 4 else model;
        family_id = if family == 0xf then family + eax / 2 ^ 20 % 2 ^ 8 else family;
        brand = get_cpu_brand;
        hyperthreading = test_bit leaf1.edx 28;
        physical_cores = ((cpuid 0x8000_0008).ecx % 256 + 1) % 256;
        logical_cores = leaf1.ebx / 2 ^ 16 % 2 ^ 8;
      }

  unfoldable pub check_state : State
  check_state =
      let features = (cpuid 1).edx in
      let extended = (cpuid 0x8000_0001).edx in
      if test_bit features 0
      then if test_bit features 5
        then if test_bit features 9
          then if test_bit extended 29 then success else no_long_mode
          else no_lapic
        else no_msr
      else no_fpu

-- The binary digit of `edx` that stands for a feature.
abbrev pub feature : (cpuid : (leaf : ℕ) → Registers) → (leaf k : ℕ) → ℕ
feature cpuid leaf k = (cpuid leaf).edx / 2 ^ k % 2

-- `check_state` succeeds exactly where the processor has an FPU (digit 0 of `edx` in the leaf 1),
-- model-specific registers (digit 5), a local APIC (digit 9) and long mode (digit 29 in the leaf
-- 0x80000001). Otherwise it reports the first of these, in this order, whose digit is 0, and never
-- `error`.
pub check_state_lem :
    (cpuid : (leaf : ℕ) → Registers)
    → let fpu = feature cpuid 1 0 in
      let msr = feature cpuid 1 5 in
      let lapic = feature cpuid 1 9 in
      let long_mode = feature cpuid 0x8000_0001 29 in
      ((check_state cpuid ≡ success) ↔ ((fpu ≡ 1) × (msr ≡ 1) × (lapic ≡ 1) × (long_mode ≡ 1)))
      × ((check_state cpuid ≡ no_fpu) ↔ (fpu ≡ 0))
      × ((check_state cpuid ≡ no_msr) ↔ ((fpu ≡ 1) × (msr ≡ 0)))
      × ((check_state cpuid ≡ no_lapic) ↔ ((fpu ≡ 1) × (msr ≡ 1) × (lapic ≡ 0)))
      × ((check_state cpuid ≡ no_long_mode)
          ↔ ((fpu ≡ 1) × (msr ≡ 1) × (lapic ≡ 1) × (long_mode ≡ 0)))
      × (check_state cpuid ≢ error)
unfolding check_state
check_state_lem cpuid =
    rw
      (
        test_bit-div (cpuid 1).edx 0,
        test_bit-div (cpuid 1).edx 5,
        test_bit-div (cpuid 1).edx 9,
        test_bit-div (cpuid 0x8000_0001).edx 29,
      )
      (ground arith)
