-- ===== src/Boot/Loader/Rounds.antt =====
-- The loop of bootloader/kernel_loader.c over the program headers loads the segments, byte for byte.
use native.Mathlib.Decide.{ℕ_discrete}
use native.Mathlib.Nat.{mul-le-mul_right}
use print_os.Base.{
  ℕ, zero, suc, ◌+◌, ◌-◌, ◌*◌, ◌≤◌, ◌<◌, ◌≡◌, ◌≢◌, refl, sym, ap, ◌∙◌, arith, ltb, leb, ◌&&◌,
  if◌then◌else◌, subst, Bool-cases, inl, inr,
}
use print_os.Mem.{Mem, read_le}
use print_os.Boot.Firmware.{Efi, Outcome, ok, failed}
use print_os.Boot.Firmware.Inversion.{>>=-eq-ok}
use print_os.Boot.Loader.Fields.{
  e_hdr_sz, e_phoff, e_phentsize, e_phnum, p_hdr_sz, p_type, p_offset, p_paddr, p_filesz, pt_load,
}
use print_os.Boot.Loader.{load_if_loadable, load_segments, get_next_p_hdr}
use print_os.Boot.Loader.Segment.{IsFile, Loaded, read_le-cong, header-eq, load_if_loadable-Loaded}
use print_os.Boot.Loader.Layout.{
  Apart, header_at, Loads, paddr, filesz, offset, IsLaidOut, Copied, Segments,
}

module _ {S : Type 0} (efi : Efi S) (file : ℕ) (f : Mem) (size : ℕ) (dev : IsFile efi file f size)
    (base e_hdr : ℕ) (lay : IsLaidOut f size base e_hdr) where
  abbrev pub z : ℕ
  z = e_phentsize f 0

  abbrev pub n : ℕ
  n = e_phnum f 0

  abbrev pub HasTable : Mem → Type 0
  HasTable m = Copied f m base (e_phoff f 0) (n * z)

  -- A field of a header in memory is that of the file.
  field-eq :
      (m : Mem) (i k w : ℕ)
      → HasTable m
      → i < n
      → k + w ≤ p_hdr_sz
      → read_le m (base + i * z + k) w ≡ read_le f (header_at f i + k) w
  field-eq m i k w table h fits = read_le-cong m f (base + i * z + k) (header_at f i + k) w λ x l.
      let wide = lay.wide in
      let below : (i + 1) * z ≤ n * z = mul-le-mul_right z (omega arith) in
      ap m (omega arith) ∙ table (i * z + k + x) (omega arith) ∙ ap f (omega arith)

  -- The type of a header, which is its first field.
  type-eq :
      (m : Mem) (i : ℕ) → HasTable m → i < n → p_type m (base + i * z) ≡ p_type f (header_at f i)
  type-eq m i table h =
      let e : base + i * z + 0 ≡ base + i * z = omega arith in
      let e' : header_at f i + 0 ≡ header_at f i = omega arith in
      ap (λ p. read_le m p 4) (sym e)
      ∙ field-eq m i 0 4 table h (omega arith)
      ∙ ap (λ p. read_le f p 4) e'

  -- One round of the loop, in the terms of the file.
  one-Segments :
      (i : ℕ) (s s1 : S)
      → HasTable (efi.mem s)
      → i < n
      → load_if_loadable efi file (base + i * z) s ≡ (ok tt, s1)
      → Segments f i (i + 1) (efi.mem s) (efi.mem s1)
  one-Segments i s s1 table h run = elim (ℕ_discrete (p_type f (header_at f i)) pt_load) [
    | yes l ↦
        let t : p_type (efi.mem s) (base + i * z) ≡ pt_load = type-eq (efi.mem s) i table h ∙ l in
        let filled : (q : ℕ)
            → efi.mem s1 q ≡ (
                if leb (paddr f i) q && ltb q (paddr f i + filesz f i)
                then f (offset f i + (q - paddr f i))
                else efi.mem s q) =
          λ q. one.0 t q ∙ rw (po, pa, fs) refl in
        record {
          loaded = λ j a b lj.
              let same : i ≡ j = omega arith in
              subst (λ k. Copied f (efi.mem s1) (paddr f k) (offset f k) (filesz f k)) same
                λ x lx.
                  let e : paddr f i + x - paddr f i ≡ x = omega arith in
                  ground (arith, filled (paddr f i + x), e);
          frame = λ q apart.
              let away = apart i (omega arith) (omega arith) l in ground (arith, filled q);
        }
    | no u ↦ record {
      loaded =
          λ j a b lj. let same : j ≡ i = omega arith in absurd (u (subst (λ k. Loads f k) same lj));
      frame = λ q apart. ap (λ m. m q) (one.1 λ t. u (sym (type-eq (efi.mem s) i table h) ∙ t));
    }
  ]
    where
      pa : p_paddr (efi.mem s) (base + i * z) ≡ paddr f i
      pa = field-eq (efi.mem s) i 24 8 table h (omega arith)

      po : p_offset (efi.mem s) (base + i * z) ≡ offset f i
      po = field-eq (efi.mem s) i 8 8 table h (omega arith)

      fs : p_filesz (efi.mem s) (base + i * z) ≡ filesz f i
      fs = field-eq (efi.mem s) i 32 8 table h (omega arith)

      one :
          (p_type (efi.mem s) (base + i * z) ≡ pt_load
            → Loaded f (base + i * z) (efi.mem s) (efi.mem s1))
          × (p_type (efi.mem s) (base + i * z) ≢ pt_load → efi.mem s1 ≡ efi.mem s)
      one = load_if_loadable-Loaded efi file f size dev (base + i * z) s s1 run λ t.
          let l : Loads f i = sym (type-eq (efi.mem s) i table h) ∙ t in
          rw (po, fs) (lay.inside i h l)

  abbrev pub HasHeader : Mem → Type 0
  HasHeader m = Copied f m e_hdr 0 e_hdr_sz

  -- What the segments leave of the file header.
  pub HasHeader-frame :
      (i hi : ℕ) (m m' : Mem) → hi ≤ n → HasHeader m → Segments f i hi m m' → HasHeader m'
  HasHeader-frame i hi m m' le header seg x l =
      seg.frame (e_hdr + x) (λ j a b lj. away j (lay.clear_e_hdr j (omega arith) lj)) ∙ header x l
    where
      away :
          (j : ℕ)
          → Apart (paddr f j) (filesz f j) e_hdr e_hdr_sz
          → Apart (e_hdr + x) 1 (paddr f j) (filesz f j)
      away j apart = omega arith

  -- What a segment leaves of the table of headers.
  HasTable-frame :
      (i hi : ℕ) (m m' : Mem) → hi ≤ n → HasTable m → Segments f i hi m m' → HasTable m'
  HasTable-frame i hi m m' le table seg x l =
      seg.frame (base + x) (λ j a b lj. away j (lay.clear_table j (omega arith) lj)) ∙ table x l
    where
      away :
          (j : ℕ)
          → Apart (paddr f j) (filesz f j) base (n * z)
          → Apart (base + x) 1 (paddr f j) (filesz f j)
      away j apart = omega arith

  -- The segment of one round, and those of the rounds behind it.
  Segments-suc :
      (i hi : ℕ) (m m1 m' : Mem)
      → i < hi
      → hi ≤ n
      → Segments f i (i + 1) m m1
      → Segments f (i + 1) hi m1 m'
      → Segments f i hi m m'
  Segments-suc i hi m m1 m' lt le one rest = record {
    loaded = λ j a b lj. elim (ℕ_discrete i j) [
      | yes e ↦ λ x lx.
          rest.frame (paddr f j + x) (λ k c d lk.
            inner j k x lx
              (lay.disjoint j k (omega arith) (omega arith) (λ same. absurd (omega arith)) lj lk))
          ∙ one.loaded j (omega arith) (omega arith) lj x lx
      | no ne ↦ rest.loaded j (omega arith) b lj
    ];
    frame = λ q apart.
        rest.frame q (λ k c d lk. apart k (omega arith) d lk)
        ∙ one.frame q (λ k c d lk. apart k c (omega arith) lk);
  }
    where
      inner :
          (j k x : ℕ)
          → x < filesz f j
          → Apart (paddr f j) (filesz f j) (paddr f k) (filesz f k)
          → Apart (paddr f j + x) 1 (paddr f k) (filesz f k)
      inner j k x lx apart = omega arith

  -- The pointer before the round `i`: that of the round before, but for the first.
  abbrev before : (i : ℕ) → ℕ
  before zero = base
  before (suc i) = base + i * z

  before-next :
      (i sz : ℕ)
      → sz ≡ z
      → (if ltb 0 i then get_next_p_hdr efi file (before i) sz else before i) ≡ base + i * z
  before-next zero sz e = ground arith
  before-next (suc i) sz e = ground (arith, e)

  -- The loop over the headers from `i` on.
  pub load_segments-Segments :
      (k i : ℕ) (s s' : S)
      → i ≤ n
      → HasTable (efi.mem s)
      → HasHeader (efi.mem s)
      → load_segments efi file e_hdr k i (before i) s ≡ (ok tt, s')
      → Segments f i n (efi.mem s) (efi.mem s')
  unfolding load_segments
  load_segments-Segments zero i s s' le table header run =
      let no_round : ◌≡◌ {A = Outcome (Unit {0}) (Unit {0})} (failed tt) (ok tt) =
        ap (λ r. r.0) run in
      cc no_round
  load_segments-Segments (suc k) i s s' le table header run =
      elim (Bool-cases (ltb i (e_phnum (efi.mem s) e_hdr))) [
        | inl more ↦
            let inside : i < n = ground (arith, more, number) in
            let run1 = rw (more, before-next i (e_phentsize (efi.mem s) e_hdr) sz) at run in
            let (done, first, later) =
              >>=-eq-ok (load_if_loadable efi file (base + i * z)) _ s run1 in
            let s1 = (load_if_loadable efi file (base + i * z) s).1 in
            let one = one-Segments i s s1 table inside (λ t. (first t, s1)) in
            let next : suc i ≡ i + 1 = omega arith in
            let rest =
              load_segments-Segments k (suc i) s1 s' inside
                (HasTable-frame i (i + 1) (efi.mem s) (efi.mem s1) (omega (arith, inside)) table
                  one)
                (HasHeader-frame i (i + 1) (efi.mem s) (efi.mem s1) (omega (arith, inside)) header
                  one)
                later in
            Segments-suc i n (efi.mem s) (efi.mem s1) (efi.mem s') inside (omega arith) one
              (subst (λ t. Segments f t n (efi.mem s1) (efi.mem s')) next rest)
        | inr over ↦
            let outside : n ≤ i = ground (arith, over, number) in
            let stop : ◌≡◌ {A = Outcome (Unit {0}) (Unit {0}) × S} (ok tt, s) (ok tt, s') =
              rw over at run in
            record {
              loaded = λ j a b lj. absurd (omega (arith, outside));
              frame = λ q apart. ap (λ r. efi.mem r.1 q) (sym stop);
            }
      ]
    where
      sz : e_phentsize (efi.mem s) e_hdr ≡ z
      sz = header-eq f e_hdr (efi.mem s) 54 2 header (omega arith)

      number : e_phnum (efi.mem s) e_hdr ≡ n
      number = header-eq f e_hdr (efi.mem s) 56 2 header (omega arith)
