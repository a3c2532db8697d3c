-- ===== src/Kernel/Located.antt =====
-- The tables that `_start` of kernel/src/kernel.cpp finds.
use print_os.Base.{
  ℕ, ◌<◌, ◌≡◌, ◌≢◌, inl, inr, Option, some, none, arith, subst, ◌==◌, Bool-cases, >>=-eq-some,
}
use print_os.Mem.{Mem}
use print_os.Libc.MemOps.Laws.{IsBytes}
use print_os.Libc.Strings.Compare.{Agree}
use print_os.Acpi.Search.{Found}
use print_os.Acpi.Tables
use print_os.Acpi.Tables.{sdt_table, rsdt_addr, entries, get_header_lem}
use print_os.Acpi.Madt
use print_os.Acpi.Madt.{ics_type, cpu_lapic, io_apic, structure, get_header-structure}
use print_os.Kernel.{AcpiTables, not_null, find_tables}

-- `r` is the first of the places from 0 to `hi - 1` at which `P` holds, and not null.
abbrev pub First : (P : ℕ → Type 0) (place : ℕ → ℕ) (hi r : ℕ) → Type 0
First P place hi r = (i : ℕ) × (i < hi) × P i × ((j : ℕ) → j < i → ¬ P j) × (r ≡ place i) × (r ≢ 0)

-- The place of a table in the list of the RSDT, by its signature.
abbrev pub FirstTable : Mem → (rsdp signature table : ℕ) → Type 0
FirstTable m rsdp signature table =
    First (λ i. Agree m (sdt_table m (rsdt_addr m rsdp) i) signature 4)
      (sdt_table m (rsdt_addr m rsdp)) (entries m (rsdt_addr m rsdp)) table

-- The place of a structure in the chain of the MADT, by its type.
abbrev pub FirstStructure : Mem → (madt type header : ℕ) → Type 0
FirstStructure m madt type header =
    First (λ i. ics_type m (structure m madt i) ≡ type) (structure m madt) 15 header

First-of-Found :
    (P : ℕ → Type 0) (place : ℕ → ℕ) (hi r : ℕ) → Found P place 0 hi r → r ≢ 0 → First P place hi r
First-of-Found P place hi r (inl (i, a, b, p, before, e)) ne =
    (i, b, p, (λ j h. before j (omega arith) h), e, ne)
First-of-Found P place hi r (inr (no_one, e)) ne = absurd (ne e)

pub not_null-eq-some : (p : ℕ) {q : ℕ} → not_null p ≡ some q → (p ≡ q) × (p ≢ 0)
not_null-eq-some p {q} h = elim (Bool-cases (p == 0)) [
  | inl z ↦ let bad : ◌≡◌ {A = Option ℕ} none (some q) = rw z at h in cc bad
  | inr nz ↦
      let good : ◌≡◌ {A = Option ℕ} (some p) (some q) = rw nz at h in (cc good, λ e. ground arith)
]

-- The parts of a successful search.
pub find_tables-eq-some :
    (m : Mem) (rsdp madt_sig hpet_sig : ℕ) (t : AcpiTables)
    → find_tables m rsdp madt_sig hpet_sig ≡ some t
    → ((Tables.get_header m rsdp madt_sig ≡ t.madt) × (Tables.get_header m rsdp madt_sig ≢ 0))
      × ((Madt.get_header m t.madt cpu_lapic ≡ t.lapic) × (Madt.get_header m t.madt cpu_lapic ≢ 0))
      × ((Madt.get_header m t.madt io_apic ≡ t.ioapic) × (Madt.get_header m t.madt io_apic ≢ 0))
      × ((Tables.get_header m rsdp hpet_sig ≡ t.hpet) × (Tables.get_header m rsdp hpet_sig ≢ 0))
unfolding find_tables
find_tables-eq-some m rsdp madt_sig hpet_sig t h =
    let (madt, e1, h1) = >>=-eq-some (not_null (Tables.get_header m rsdp madt_sig)) _ h in
    let (lapic, e2, h2) = >>=-eq-some (not_null (Madt.get_header m madt cpu_lapic)) _ h1 in
    let (ioapic, e3, h3) = >>=-eq-some (not_null (Madt.get_header m madt io_apic)) _ h2 in
    let (hpet, e4, h4) = >>=-eq-some (not_null (Tables.get_header m rsdp hpet_sig)) _ h3 in
    let made : AcpiTables = record { madt = madt; lapic = lapic; ioapic = ioapic; hpet = hpet } in
    let good : ◌≡◌ {A = Option AcpiTables} (some made) (some t) = h4 in
    let same : made ≡ t = cc good in
    subst
      (λ u.
        ((Tables.get_header m rsdp madt_sig ≡ u.madt) × (Tables.get_header m rsdp madt_sig ≢ 0))
        × ((Madt.get_header m u.madt cpu_lapic ≡ u.lapic)
            × (Madt.get_header m u.madt cpu_lapic ≢ 0))
        × ((Madt.get_header m u.madt io_apic ≡ u.ioapic) × (Madt.get_header m u.madt io_apic ≢ 0))
        × ((Tables.get_header m rsdp hpet_sig ≡ u.hpet) × (Tables.get_header m rsdp hpet_sig ≢ 0)))
      same
      (
        not_null-eq-some (Tables.get_header m rsdp madt_sig) e1,
        not_null-eq-some (Madt.get_header m madt cpu_lapic) e2,
        not_null-eq-some (Madt.get_header m madt io_apic) e3,
        not_null-eq-some (Tables.get_header m rsdp hpet_sig) e4,
      )

-- When the kernel goes on with its ACPI tables, none of the pointers is null: the MADT and the HPET
-- table are the first listed ones with their signatures, and the local APIC and the I/O APIC the
-- first structures of their types among the first fifteen of that MADT.
pub find_tables_lem :
    (m : Mem) (rsdp madt_sig hpet_sig : ℕ) (t : AcpiTables)
    → IsBytes m
    → find_tables m rsdp madt_sig hpet_sig ≡ some t
    → FirstTable m rsdp madt_sig t.madt
      × FirstStructure m t.madt cpu_lapic t.lapic
      × FirstStructure m t.madt io_apic t.ioapic
      × FirstTable m rsdp hpet_sig t.hpet
find_tables_lem m rsdp madt_sig hpet_sig t bytes h =
    let parts = find_tables-eq-some m rsdp madt_sig hpet_sig t h in
    (
      subst (FirstTable m rsdp madt_sig) parts.0.0
          (First-of-Found _ _ _ _ (get_header_lem m rsdp madt_sig bytes) parts.0.1),
      subst (FirstStructure m t.madt cpu_lapic) parts.1.0
          (First-of-Found _ _ _ _ (get_header-structure m t.madt cpu_lapic) parts.1.1),
      subst (FirstStructure m t.madt io_apic) parts.2.0
          (First-of-Found _ _ _ _ (get_header-structure m t.madt io_apic) parts.2.1),
      subst (FirstTable m rsdp hpet_sig) parts.3.0
          (First-of-Found _ _ _ _ (get_header_lem m rsdp hpet_sig bytes) parts.3.1),
    )
