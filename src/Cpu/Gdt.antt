-- ===== src/Cpu/Gdt.antt =====
-- kernel/src/gdt/gdt.cpp and gdt.hpp: the segment descriptors, by index in the table. The load of
-- the register is an assembly routine.
use print_os.Base.{ℕ, ◌-◌, ◌*◌, List, [], ◌∷◌, length}

pub record SegmentDescriptor : Type 0 where
  pub limit0 : ℕ
  pub base0 : ℕ
  pub base1 : ℕ
  pub flags1 : ℕ
  pub limit1_flags2 : ℕ
  pub base2 : ℕ

pub record Gdtr : Type 0 where
  pub size : ℕ
  pub offset : ℕ

-- The size of a `SegmentDescriptor`.
abbrev pub descriptor_sz : ℕ
descriptor_sz = 8

-- Every descriptor of the table has limit and base 0.
abbrev pub flat : (flags1 limit1_flags2 : ℕ) → SegmentDescriptor
flat flags1 limit1_flags2 = record {
  limit0 = 0;
  base0 = 0;
  base1 = 0;
  flags1 = flags1;
  limit1_flags2 = limit1_flags2;
  base2 = 0;
}

abbrev pub gdt : List SegmentDescriptor
gdt = flat 0 0 ∷ flat 0x9a 0xa0 ∷ flat 0x92 0xa0 ∷ flat 0x9a 0xa0 ∷ flat 0x92 0xa0 ∷ []

abbrev pub gdtr : (address : ℕ) → Gdtr
gdtr address = record { size = length gdt * descriptor_sz - 1; offset = address }

-- `SegmentSelector`.
abbrev pub kernel_code : ℕ
kernel_code = 8

abbrev pub kernel_data : ℕ
kernel_data = 16

abbrev pub user_code : ℕ
user_code = 24

abbrev pub user_data : ℕ
user_data = 32
