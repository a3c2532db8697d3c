-- ===== src/Acpi/Ioapic/RoundTrip.antt =====
-- What `set_redir_entry` and `init` of kernel/src/acpi/apic/ioapic.cpp leave in the table of the
-- I/O APIC, as `get_redir_entry` reads it, given what the device promises.
use print_os.Base.{ℕ, ◌+◌, ◌*◌, ◌%◌, ◌<◌, ◌≡◌, ◌≢◌, refl, ap, ◌∙◌, arith}
use print_os.Hardware.{Hardware}
use print_os.Acpi.Ioapic.Entry.{
  RedirEntry, IsEntry, SameSettings, SameLower, SameUpper, lower_half, upper_half, of_halves,
  of_halves-SameSettings, timer, keyboard,
}
use print_os.Acpi.Ioapic.{
  iowin, ioredtbl, addr_off, set_redir_entry, get_redir_entry, init, irq_hpet, irq_keyboard,
}

-- The I/O APIC at an address: the register that is selected, the values of its registers, and what
-- a write and a read at its two places in memory do. Of a redirection entry it may keep the bits
-- that are read-only.
pub record IsIoapic {S : Type 0} (hw : Hardware S) (base : ℕ) : Type 0 where
  pub selected : S → ℕ
  pub reg : S → ℕ → ℕ
  pub select : (v : ℕ) (s : S) → v < 256 → selected (hw.mmio_write32 base v s).1 ≡ v
  pub select_keeps : (v : ℕ) (s : S) (q : ℕ) → reg (hw.mmio_write32 base v s).1 q ≡ reg s q
  pub write_lower :
      (v : ℕ) (s : S) (id : ℕ)
      → id < 120
      → selected s ≡ ioredtbl + id * 2
      → SameLower (reg (hw.mmio_write32 (base + iowin) v s).1 (ioredtbl + id * 2)) v
  pub write_upper :
      (v : ℕ) (s : S) (id : ℕ)
      → id < 120
      → selected s ≡ ioredtbl + id * 2 + 1
      → SameUpper (reg (hw.mmio_write32 (base + iowin) v s).1 (ioredtbl + id * 2 + 1)) v
  pub write_other :
      (v : ℕ) (s : S) (q : ℕ)
      → q ≢ selected s
      → reg (hw.mmio_write32 (base + iowin) v s).1 q ≡ reg s q
  pub read : (s : S) → (hw.mmio_read32 (base + iowin) s).0 ≡ reg s (selected s)
  pub read_keeps : (s : S) (q : ℕ) → reg (hw.mmio_read32 (base + iowin) s).1 q ≡ reg s q

module _ {S : Type 0} (hw : Hardware S) (base : ℕ) (dev : IsIoapic hw base) where
  open dev use {
    selected, reg, select, select_keeps, write_lower, write_upper, write_other, read, read_keeps,
  }

  -- The state after a register is selected and a value is written to it.
  abbrev poke : (q v : ℕ) → S → S
  poke q v s = (hw.mmio_write32 (base + iowin) v (hw.mmio_write32 base (q % 256) s).1).1

  small : (q : ℕ) → q < 256 → q % 256 ≡ q
  small q h = omega arith

  poke-selected : (q : ℕ) (s : S) → q < 256 → selected (hw.mmio_write32 base (q % 256) s).1 ≡ q
  poke-selected q s h = rw (small q h) (select q s h)

  poke-other : (q v r : ℕ) (s : S) → q < 256 → r ≢ q → reg (poke q v s) r ≡ reg s r
  poke-other q v r s h ne =
      write_other v (hw.mmio_write32 base (q % 256) s).1 r (λ e. ne (e ∙ poke-selected q s h))
      ∙ select_keeps (q % 256) s r

  poke-lower :
      (id v : ℕ) (s : S)
      → id < 120
      → SameLower (reg (poke (ioredtbl + id * 2) v s) (ioredtbl + id * 2)) v
  poke-lower id v s h =
      write_lower v (hw.mmio_write32 base ((ioredtbl + id * 2) % 256) s).1 id h
        (poke-selected (ioredtbl + id * 2) s (omega arith))

  poke-upper :
      (id v : ℕ) (s : S)
      → id < 120
      → SameUpper (reg (poke (ioredtbl + id * 2 + 1) v s) (ioredtbl + id * 2 + 1)) v
  poke-upper id v s h =
      write_upper v (hw.mmio_write32 base ((ioredtbl + id * 2 + 1) % 256) s).1 id h
        (poke-selected (ioredtbl + id * 2 + 1) s (omega arith))

  peek :
      (q : ℕ) (s : S)
      → q < 256
      → (hw.mmio_read32 (base + iowin) (hw.mmio_write32 base (q % 256) s).1).0 ≡ reg s q
  peek q s h =
      read (hw.mmio_write32 base (q % 256) s).1
      ∙ ap (reg (hw.mmio_write32 base (q % 256) s).1) (poke-selected q s h)
      ∙ select_keeps (q % 256) s q

  off : (id : ℕ) → id < 120 → addr_off hw base id ≡ ioredtbl + id * 2
  off id h = omega arith

  -- `get_redir_entry` reads the two registers of the entry.
  pub get_redir_entry-reg :
      (id : ℕ) (s : S)
      → id < 120
      → (get_redir_entry hw base id s).0
        ≡ of_halves (reg s (ioredtbl + id * 2)) (reg s (ioredtbl + id * 2 + 1))
  unfolding get_redir_entry
  get_redir_entry-reg id s h =
      let s1 = (hw.mmio_write32 base ((ioredtbl + id * 2) % 256) s).1 in
      let s2 = (hw.mmio_read32 (base + iowin) s1).1 in
      rw
        (
          off id h,
          peek (ioredtbl + id * 2) s (omega arith),
          peek (ioredtbl + id * 2 + 1) s2 (omega arith),
          read_keeps s1 (ioredtbl + id * 2 + 1),
          select_keeps ((ioredtbl + id * 2) % 256) s (ioredtbl + id * 2 + 1),
        )
        refl

  set_redir_entry-poke :
      (id : ℕ) (e : RedirEntry) (s : S)
      → id < 120
      → (set_redir_entry hw base id e s).1
        ≡ poke (ioredtbl + id * 2 + 1) (upper_half e) (poke (ioredtbl + id * 2) (lower_half e) s)
  unfolding set_redir_entry
  set_redir_entry-poke id e s h = rw (off id h) refl

-- For the entries 0 to 119, what `set_redir_entry` writes is what `get_redir_entry` then reads, in
-- all the fields that can be set; and every other of these entries reads as before.
pub get-set_redir_entry :
    {S : Type 0} (hw : Hardware S) (base : ℕ)
    → IsIoapic hw base
    → (id : ℕ) (e : RedirEntry) (s : S) → id < 120
    → IsEntry e
    → let s' = (set_redir_entry hw base id e s).1 in
      SameSettings (get_redir_entry hw base id s').0 e
      × ((j : ℕ)
          → j < 120
          → j ≢ id
          → (get_redir_entry hw base j s').0 ≡ (get_redir_entry hw base j s).0)
get-set_redir_entry {S} hw base dev id e s h fits = (here, others)
  where
    open dev use {reg}

    s1 : S
    s1 = poke hw base dev (ioredtbl + id * 2) (lower_half e) s

    here : SameSettings (get_redir_entry hw base id (set_redir_entry hw base id e s).1).0 e
    here =
        rw (set_redir_entry-poke hw base dev id e s h, get_redir_entry-reg hw base dev id _ h)
          (of_halves-SameSettings e _ _ fits
            (rw
              (poke-other hw base dev (ioredtbl + id * 2 + 1) (upper_half e) (ioredtbl + id * 2) s1
                (omega arith) (omega arith))
              (poke-lower hw base dev id (lower_half e) s h))
            (poke-upper hw base dev id (upper_half e) s1 h))

    kept :
        (q : ℕ)
        → q ≢ ioredtbl + id * 2
        → q ≢ ioredtbl + id * 2 + 1
        → reg (set_redir_entry hw base id e s).1 q ≡ reg s q
    kept q n1 n2 = rw (set_redir_entry-poke hw base dev id e s h) (
        poke-other hw base dev (ioredtbl + id * 2 + 1) (upper_half e) q s1 (omega arith) n2
        ∙ poke-other hw base dev (ioredtbl + id * 2) (lower_half e) q s (omega arith) n1)

    others :
        (j : ℕ)
        → j < 120
        → j ≢ id
        → (get_redir_entry hw base j (set_redir_entry hw base id e s).1).0
          ≡ (get_redir_entry hw base j s).0
    others j hj ne =
        rw
          (
            get_redir_entry-reg hw base dev j (set_redir_entry hw base id e s).1 hj,
            get_redir_entry-reg hw base dev j s hj,
            kept (ioredtbl + j * 2) (omega arith) (omega arith),
            kept (ioredtbl + j * 2 + 1) (omega arith) (omega arith),
          )
          refl

-- What `init` sets in an entry, but for the vector, whatever the variable held.
abbrev pub prepared : RedirEntry → (vector : ℕ) → RedirEntry
prepared e vector = record e {
  intvec = vector;
  delmod = 0;
  destmod = 0;
  intpol = 0;
  int_mask = 0;
  destination = 0;
  trigmod = 0;
}

prepared-IsEntry :
    (e : RedirEntry) (vector : ℕ) → vector < 256 → IsEntry e → IsEntry (prepared e vector)
prepared-IsEntry e vector h fits = ground arith

-- `init` leaves the interrupt of the HPET on the timer vector and that of the keyboard on the
-- keyboard vector, both unmasked, fixed, physical, active high, triggered by edge and sent to the
-- APIC 0, whatever the uninitialised variable held; every other entry below 120 is as before.
pub init-redirects :
    {S : Type 0} (hw : Hardware S) (base : ℕ)
    → IsIoapic hw base
    → (entry : RedirEntry) (s : S) → IsEntry entry
    → let s' = (init hw base entry s).1 in
      SameSettings (get_redir_entry hw base irq_hpet s').0 (prepared entry timer)
      × SameSettings (get_redir_entry hw base irq_keyboard s').0 (prepared entry keyboard)
      × ((j : ℕ)
          → j < 120
          → 1 < j
          → (get_redir_entry hw base j s').0 ≡ (get_redir_entry hw base j s).0)
unfolding init
init-redirects hw base dev entry s fits =
    let s1 = (set_redir_entry hw base irq_hpet (prepared entry timer) s).1 in
    let first =
      get-set_redir_entry hw base dev irq_hpet (prepared entry timer) s (omega arith)
        (prepared-IsEntry entry timer (omega arith) fits) in
    let second =
      get-set_redir_entry hw base dev irq_keyboard (prepared entry keyboard) s1 (omega arith)
        (prepared-IsEntry entry keyboard (omega arith) fits) in
    (
      rw (second.1 irq_hpet (omega arith) (omega arith)) first.0,
      second.0,
      λ j h lo. second.1 j h (omega arith) ∙ first.1 j h (omega arith),
    )

-- The offset of an entry is cut to a byte: the entries from 128 on are those from 0 on.
pub set_redir_entry-add_128 :
    {S : Type 0} (hw : Hardware S) (base id : ℕ) (e : RedirEntry) (s : S)
    → set_redir_entry hw base (id + 128) e s ≡ set_redir_entry hw base id e s
unfolding set_redir_entry
set_redir_entry-add_128 hw base id e s =
    let same : addr_off hw base (id + 128) ≡ addr_off hw base id = omega arith in rw same refl
