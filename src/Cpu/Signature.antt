-- ===== src/Cpu/Signature.antt =====
-- The signature of a processor, in the layout that its manufacturers document, and how `get_info`
-- of kernel/src/cpu/cpu.cpp reads it.
use print_os.Base.{ℕ, ◌+◌, ◌*◌, ◌/◌, ◌%◌, ◌^◌, ◌<◌, ◌≡◌, arith, ◌==◌, if◌then◌else◌}
use print_os.Cpu.Info.{Registers, get_info}

-- The fields of `eax` for the leaf 1; two bits after the type and four at the top are reserved.
pub record Signature : Type 0 where
  pub stepping : ℕ
  pub model : ℕ
  pub family : ℕ
  pub kind : ℕ
  pub reserved1 : ℕ
  pub extended_model : ℕ
  pub extended_family : ℕ
  pub reserved2 : ℕ

pub record Fits (g : Signature) : Type 0 where
  pub stepping_fits : g.stepping < 2 ^ 4
  pub model_fits : g.model < 2 ^ 4
  pub family_fits : g.family < 2 ^ 4
  pub kind_fits : g.kind < 2 ^ 2
  pub reserved1_fits : g.reserved1 < 2 ^ 2
  pub extended_model_fits : g.extended_model < 2 ^ 4
  pub extended_family_fits : g.extended_family < 2 ^ 8

abbrev pub encode : Signature → ℕ
encode g =
    g.stepping
    + 2 ^ 4 * g.model
    + 2 ^ 8 * g.family
    + 2 ^ 12 * g.kind
    + 2 ^ 14 * g.reserved1
    + 2 ^ 16 * g.extended_model
    + 2 ^ 20 * g.extended_family
    + 2 ^ 28 * g.reserved2

-- `get_info` takes the fields of the signature apart as they were put together. The extended family
-- counts for the family 15 only, and the extended model is added to the model 15 only.
pub get_info-Signature :
    (cpuid : (leaf : ℕ) → Registers) (g : Signature)
    → Fits g
    → (cpuid 1).eax ≡ encode g
    → let info = get_info cpuid in
      (info.stepping_id ≡ g.stepping)
      × (info.type ≡ g.kind)
      × (info.model_id ≡ (if g.model == 15 then 15 + g.extended_model else g.model))
      × (info.family_id ≡ (if g.family == 15 then 15 + g.extended_family else g.family))
unfolding get_info
get_info-Signature cpuid g fits e =
    let stepping : (cpuid 1).eax % 2 ^ 4 ≡ g.stepping = omega arith in
    let kind : (cpuid 1).eax / 2 ^ 12 % 2 ^ 2 ≡ g.kind = omega arith in
    let model : (cpuid 1).eax / 2 ^ 4 % 2 ^ 4 ≡ g.model = omega arith in
    let family : (cpuid 1).eax / 2 ^ 8 % 2 ^ 4 ≡ g.family = omega arith in
    let extended_model : (cpuid 1).eax / 2 ^ 16 % 2 ^ 4 ≡ g.extended_model = omega arith in
    let extended_family : (cpuid 1).eax / 2 ^ 20 % 2 ^ 8 ≡ g.extended_family = omega arith in
    (stepping, kind, ground arith, ground arith)
