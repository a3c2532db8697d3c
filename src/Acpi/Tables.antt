-- ===== src/Acpi/Tables.antt =====
-- kernel/src/acpi/acpi.cpp and acpi.hpp. The structures lie in memory at the offsets that `packed`
-- gives them. A signature is the address of its characters.
use print_os.Base.{
  ℕ, zero, suc, ◌+◌, ◌-◌, ◌*◌, ◌/◌, ◌%◌, ◌≡◌, Bool, inl, inr, arith, ◌==◌, u64_mod, if◌then◌else◌,
  Bool-cases,
}
use print_os.Mem.{Mem, read8, read_le}
use print_os.Libc.MemOps.Laws.{IsBytes}
use print_os.Libc.Strings.{strncmp}
use print_os.Libc.Strings.Compare.{Agree, strncmp-Agree}
use print_os.Acpi.Search.{Found, Found-none, Found-here, Found-next}

pub data Version : Type 0 where
  ver_1 ver_2 unknown : Version

-- The fields of `RSDP`: a signature of 8 bytes, a checksum, an OEM id of 6 bytes, and then these.
abbrev pub revision : Mem → (rsdp : ℕ) → ℕ
revision m rsdp = read8 m (rsdp + 15)

abbrev pub rsdt_addr : Mem → (rsdp : ℕ) → ℕ
rsdt_addr m rsdp = read_le m (rsdp + 16) 4

-- `Header`: the signature of 4 bytes comes first, and the length of the whole table follows.
abbrev pub header_sz : ℕ
header_sz = 36

abbrev pub table_length : Mem → (header : ℕ) → ℕ
table_length m header = read_le m (header + 4) 4

-- `RSDT`: a header, and the table of 32-bit addresses.
abbrev pub sdt_table : Mem → (rsdt i : ℕ) → ℕ
sdt_table m rsdt i = read_le m (rsdt + header_sz + 4 * i) 4

unfoldable pub get_version : Mem → (rsdp : ℕ) → Version
get_version m rsdp =
    if revision m rsdp == 0 then ver_1 else if revision m rsdp == 2 then ver_2 else unknown

unfoldable pub verify_rsdp : Mem → (rsdp rsdp_sig : ℕ) → Bool
verify_rsdp m rsdp rsdp_sig = strncmp m rsdp rsdp_sig 8 == 0

unfoldable pub verify_rsdt : Mem → (rsdp rsdt_sig : ℕ) → Bool
verify_rsdt m rsdp rsdt_sig = strncmp m (rsdt_addr m rsdp) rsdt_sig 4 == 0

-- The difference is of 64 bits: a length below that of the header wraps around.
unfoldable pub entries : Mem → (rsdt : ℕ) → ℕ
entries m rsdt = (table_length m rsdt + u64_mod - header_sz) % u64_mod / 4

-- The loop, with the rounds left and the index. Null is 0.
unfoldable pub search_tables : (rounds i : ℕ) → Mem → (rsdt signature : ℕ) → ℕ
search_tables zero i m rsdt signature = 0
search_tables (suc k) i m rsdt signature =
    let rest = search_tables k (i + 1) m rsdt signature in
    if strncmp m (sdt_table m rsdt i) signature 4 == 0 then sdt_table m rsdt i else rest

unfoldable pub get_header : Mem → (rsdp signature : ℕ) → ℕ
get_header m rsdp signature =
    let rsdt = rsdt_addr m rsdp in search_tables (entries m rsdt) 0 m rsdt signature

module _ (m : Mem) (rsdt signature : ℕ) (bytes : IsBytes m) where
  abbrev HasSignature : ℕ → Type 0
  HasSignature i = Agree m (sdt_table m rsdt i) signature 4

  search_tables-Found :
      (k i hi : ℕ)
      → i + k ≡ hi
      → Found HasSignature (sdt_table m rsdt) i hi (search_tables k i m rsdt signature)
  unfolding search_tables
  search_tables-Found zero i hi e = Found-none HasSignature (sdt_table m rsdt) i hi (omega arith)
  search_tables-Found (suc k) i hi e =
      let same = strncmp-Agree m (sdt_table m rsdt i) signature 4 bytes in
      elim (Bool-cases (strncmp m (sdt_table m rsdt i) signature 4 == 0)) [
        | inl yes_here ↦
            rw yes_here (
              Found-here HasSignature (sdt_table m rsdt) i hi (omega arith) (same.0 (ground arith)))
        | inr not_here ↦ rw not_here (
            Found-next HasSignature (sdt_table m rsdt) i hi _
              (λ agree. let z = same.1 agree in ground arith)
              (search_tables-Found k (i + 1) hi (omega arith)))
      ]

-- `get_header` returns the first of the tables listed in the RSDT whose signature agrees with the
-- one asked for, or null where no listed table has it.
pub get_header_lem :
    (m : Mem) (rsdp signature : ℕ)
    → IsBytes m
    → let rsdt = rsdt_addr m rsdp in
      Found
        (λ i. Agree m (sdt_table m rsdt i) signature 4)
        (sdt_table m rsdt)
        0
        (entries m rsdt)
        (get_header m rsdp signature)
unfolding get_header
get_header_lem m rsdp signature b =
    search_tables-Found m (rsdt_addr m rsdp) signature b (entries m (rsdt_addr m rsdp)) 0
      (entries m (rsdt_addr m rsdp)) (omega arith)
