-- ===== src/Acpi/Madt.antt =====
-- kernel/src/acpi/apic/madt.cpp and madt.hpp: the interrupt controller structures of the MADT.
use print_os.Base.{
  ℕ, zero, suc, ◌+◌, ◌≡◌, ◌≢◌, refl, inl, inr, arith, subst, ◌==◌, if◌then◌else◌, Bool-cases,
}
use print_os.Mem.{Mem, read8, read_le}
use print_os.Acpi.Search.{Found, Found-none, Found-here, Found-next}
use print_os.Acpi.Tables.{header_sz}

-- `Type`.
abbrev pub cpu_lapic : ℕ
cpu_lapic = 0

abbrev pub io_apic : ℕ
io_apic = 1

abbrev pub lapic_addr_override : ℕ
lapic_addr_override = 5

-- `Header`: the type, and the length of the structure.
abbrev pub ics_type : Mem → (header : ℕ) → ℕ
ics_type m header = read8 m header

abbrev pub ics_length : Mem → (header : ℕ) → ℕ
ics_length m header = read8 m (header + 1)

-- `SDT_Table`: a header, the address of the local APIC, the flags, and the structures.
abbrev pub lapic_addr : Mem → (madt : ℕ) → ℕ
lapic_addr m madt = read_le m (madt + header_sz) 4

abbrev pub ics_table : (madt : ℕ) → ℕ
ics_table madt = madt + header_sz + 4 + 4

-- `IO_APIC_Struct`.
abbrev pub io_apic_addr : Mem → (header : ℕ) → ℕ
io_apic_addr m header = read_le m (header + 4) 4

-- The loop, with the rounds left.
unfoldable pub search_ics : (rounds : ℕ) → Mem → (header type : ℕ) → ℕ
search_ics zero m header type = 0
search_ics (suc k) m header type =
    let rest = search_ics k m (header + ics_length m header) type in
    if ics_type m header == type then header else rest

unfoldable pub get_header : Mem → (madt type : ℕ) → ℕ
unfolding search_ics
get_header m madt type = search_ics 15 m (ics_table madt) type

-- The `i`-th structure in the chain, each found by the length of the one before.
pub structure : Mem → (madt i : ℕ) → ℕ
structure m madt zero = ics_table madt
structure m madt (suc i) = structure m madt i + ics_length m (structure m madt i)

module _ (m : Mem) (madt type : ℕ) where
  abbrev HasType : ℕ → Type 0
  HasType i = ics_type m (structure m madt i) ≡ type

  structure-next :
      (i : ℕ) → structure m madt (i + 1) ≡ structure m madt i + ics_length m (structure m madt i)
  unfolding structure
  structure-next i = ground arith

  search_ics-Found :
      (k i hi : ℕ)
      → i + k ≡ hi
      → Found HasType (structure m madt) i hi (search_ics k m (structure m madt i) type)
  unfolding search_ics
  search_ics-Found zero i hi e = Found-none HasType (structure m madt) i hi (omega arith)
  search_ics-Found (suc k) i hi e = elim (Bool-cases (ics_type m (structure m madt i) == type)) [
    | inl here ↦ rw here (Found-here HasType (structure m madt) i hi (omega arith) (ground arith))
    | inr on ↦ rw on (
        Found-next HasType (structure m madt) i hi _ (λ same. ground arith)
          (subst (λ h. Found HasType (structure m madt) (i + 1) hi (search_ics k m h type))
            (structure-next i) (search_ics-Found k (i + 1) hi (omega arith))))
  ]

-- `get_header` looks at the first fifteen structures in the chain, wherever the table ends, and
-- returns the first of them that has the type, or null where none has.
pub get_header-structure :
    (m : Mem) (madt type : ℕ)
    → Found
        (λ i. ics_type m (structure m madt i) ≡ type)
        (structure m madt)
        0
        15
        (get_header m madt type)
unfolding get_header structure
get_header-structure m madt type = search_ics-Found m madt type 15 0 15 refl

stuck_loop :
    (k : ℕ) (m : Mem) (header type : ℕ)
    → ics_length m header ≡ 0
    → ics_type m header ≢ type
    → search_ics k m header type ≡ 0
unfolding search_ics
stuck_loop zero m header type h ne = refl
stuck_loop (suc k) m header type h ne =
    let same : header + ics_length m header ≡ header = omega arith in
    rw same (ground (arith, stuck_loop k m header type h ne))

-- At a structure of length 0 the search stays: from a first structure of another type and of
-- length 0 on, it finds nothing, whatever follows in memory.
pub get_header_stuck :
    (m : Mem) (madt type : ℕ)
    → ics_length m (ics_table madt) ≡ 0
    → ics_type m (ics_table madt) ≢ type
    → get_header m madt type ≡ 0
unfolding get_header
get_header_stuck m madt type h ne = stuck_loop 15 m (ics_table madt) type h ne
