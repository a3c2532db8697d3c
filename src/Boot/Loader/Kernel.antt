-- ===== src/Boot/Loader/Kernel.antt =====
-- `load_kernel_into_memory` of bootloader/kernel_loader.c: what it loads, and which files it refuses.
use print_os.Base.{
  ℕ, ◌+◌, ◌*◌, ◌^◌, ◌≤◌, ◌<◌, ◌≡◌, refl, sym, ap, ◌∙◌, inl, inr, arith, if◌then◌else◌, Bool-cases,
  subst,
}
use print_os.Mem.{Mem}
use print_os.Boot.Firmware.{Efi, Outcome, ok, failed, call, call_for, or_null}
use print_os.Boot.Firmware.Inversion.{>>=-eq-ok, call-eq-ok, call_for-eq-ok, or_null-run}
use print_os.Boot.Loader.Fields.{e_hdr_sz, e_entry, e_phoff, e_phentsize, e_phnum}
use print_os.Boot.Loader.{
  load_segments, load_kernel_into_memory, verify_kernel_elf_header, get_elf_header, get_elf_p_hdrs,
  load_program,
}
use print_os.Boot.Loader.Segment.{IsFile, header-eq, copy-Copied}
use print_os.Boot.Loader.Layout.{Apart, Loads, paddr, filesz, offset, IsLaidOut, Copied, Segments}
use print_os.Boot.Loader.Rounds.{load_segments-Segments, HasHeader-frame}

module _ {S : Type 0} (efi : Efi S) (file : ℕ) (f : Mem) (size : ℕ) (dev : IsFile efi file f size)
    (e_hdr : ℕ) where
  get_elf_header-Copied :
      (s s' : S)
      → get_elf_header efi file e_hdr s ≡ (ok tt, s')
      → e_hdr_sz ≤ size
      → Copied f (efi.mem s') e_hdr 0 e_hdr_sz
  unfolding get_elf_header
  get_elf_header-Copied s s' run fits =
      let (a, sought, later) = >>=-eq-ok (call (efi.set_position file 0)) _ s run in
      let s1 = (efi.set_position file 0 s).1 in
      let copied =
        copy-Copied efi file f size dev 0 e_hdr_sz e_hdr s
          (call-eq-ok (efi.set_position file 0) s sought)
          (call-eq-ok (efi.read file e_hdr_sz e_hdr) s1 (ap (λ r. r.0) later)) (omega arith) in
      subst (λ t. Copied f (efi.mem t) e_hdr 0 e_hdr_sz) (ap (λ r. r.1) later) copied.0

  abbrev table_sz : ℕ
  table_sz = e_phentsize f 0 * e_phnum f 0

  get_elf_p_hdrs-Copied :
      (s s' : S) (p_hdrs : ℕ)
      → get_elf_p_hdrs efi file e_hdr s ≡ (ok p_hdrs, s')
      → Copied f (efi.mem s) e_hdr 0 e_hdr_sz
      → e_phoff f 0 + table_sz ≤ size
      → ((s : S) → Apart (efi.allocate_pool table_sz s).0.1 table_sz e_hdr e_hdr_sz)
      → ((efi.allocate_pool table_sz s).0.1 ≡ p_hdrs)
        × Copied f (efi.mem s') p_hdrs (e_phoff f 0) table_sz
        × Copied f (efi.mem s') e_hdr 0 e_hdr_sz
  unfolding get_elf_p_hdrs
  get_elf_p_hdrs-Copied s s' p_hdrs run header fits apart =
      let m = efi.mem s in
      let sz = e_phentsize m e_hdr * e_phnum m e_hdr in
      let size_eq : sz ≡ table_sz =
        rw
          (
            header-eq f e_hdr m 54 2 header (omega arith),
            header-eq f e_hdr m 56 2 header (omega arith),
          )
          refl in
      let pool = efi.allocate_pool sz in
      let (p, allocated, run1) = >>=-eq-ok (call_for pool) _ s run in
      let s1 = (pool s).1 in
      let seek = efi.set_position file (e_phoff (efi.mem s1) e_hdr) in
      let (b, sought, run2) = >>=-eq-ok (call seek) _ s1 run1 in
      let s2 = (seek s1).1 in
      let (c, done, run3) = >>=-eq-ok (call (efi.read file sz p)) _ s2 run2 in
      let s3 = (efi.read file sz p s2).1 in
      let kept : efi.mem s1 ≡ m = dev.pool_mem sz s in
      let phoff : e_phoff (efi.mem s1) e_hdr ≡ e_phoff f 0 =
        ap (λ t. e_phoff t e_hdr) kept ∙ header-eq f e_hdr m 32 8 header (omega arith) in
      let where_p : (pool s).0.1 ≡ p = (call_for-eq-ok pool s allocated).1 in
      let same_p : ok p ≡ ok p_hdrs = ap (λ r. r.0) run3 in
      let p_eq : p ≡ p_hdrs = cc same_p in
      let final : s3 ≡ s' = ap (λ r. r.1) run3 in
      let copied =
        copy-Copied efi file f size dev (e_phoff (efi.mem s1) e_hdr) sz p s1
          (call-eq-ok seek s1 sought) (call-eq-ok (efi.read file sz p) s2 done)
          (omega (arith, phoff, size_eq)) in
      let place : (efi.allocate_pool table_sz s).0.1 ≡ p_hdrs =
        ap (λ t. (efi.allocate_pool t s).0.1) (sym size_eq) ∙ where_p ∙ p_eq in
      let away = apart s in
      (
        place,
        λ x l.
            ap (λ t. efi.mem t (p_hdrs + x)) (sym final)
            ∙ ap (λ t. efi.mem s3 (t + x)) (sym p_eq)
            ∙ copied.0 x (omega arith)
            ∙ ap (λ t. f (t + x)) phoff,
        λ x l.
            ap (λ t. efi.mem t (e_hdr + x)) (sym final)
            ∙ copied.1 (e_hdr + x) (omega arith)
            ∙ ap (λ t. t (e_hdr + x)) kept
            ∙ header x l,
      )

module _ {S : Type 0} (efi : Efi S) (file : ℕ) (f : Mem) (size : ℕ) (dev : IsFile efi file f size)
    (e_hdr p_hdrs : ℕ) (lay : IsLaidOut f size p_hdrs e_hdr) where
  -- The file header outlives the loop.
  entry-eq :
      (m m' : Mem)
      → Copied f m e_hdr 0 e_hdr_sz
      → Segments f 0 (e_phnum f 0) m m'
      → e_entry m' e_hdr ≡ e_entry f 0
  entry-eq m m' header seg =
      header-eq f e_hdr m' 24 8
        (HasHeader-frame efi file f size dev p_hdrs e_hdr lay 0 (e_phnum f 0) m m' (omega arith)
          header seg)
        (omega arith)

-- When the loader returns an entry point, that is the one of the file, and every segment to load is
-- in memory at its physical address, byte for byte, if the file is whole and its segments lie apart
-- from each other, from the table of headers that is allocated and from the file header.
pub load_kernel-Segments :
    {S : Type 0} (efi : Efi S) (file : ℕ) (f : Mem) (size : ℕ)
    → IsFile efi file f size
    → (elfmag e_hdr : ℕ)
    → let table_sz = e_phentsize f 0 * e_phnum f 0 in
      e_hdr_sz ≤ size
      → e_phoff f 0 + table_sz ≤ size
      → ((s : S) → Apart (efi.allocate_pool table_sz s).0.1 table_sz e_hdr e_hdr_sz)
      → ((s : S) → IsLaidOut f size (efi.allocate_pool table_sz s).0.1 e_hdr)
      → (s s' : S) (entry : ℕ) → load_kernel_into_memory efi file elfmag e_hdr s ≡ (ok entry, s')
      → (entry ≡ e_entry f 0)
        × ((i : ℕ)
            → i < e_phnum f 0
            → Loads f i
            → Copied f (efi.mem s') (paddr f i) (offset f i) (filesz f i))
unfolding load_kernel_into_memory load_program
load_kernel-Segments {S} efi file f size dev elfmag e_hdr whole table apart lay s s' entry run =
    let (a, got, run1) = >>=-eq-ok (or_null (get_elf_header efi file e_hdr)) _ s run in
    let s1 = (get_elf_header efi file e_hdr s).1 in
    let header =
      get_elf_header-Copied efi file f size dev e_hdr s s1
        (or_null-run (get_elf_header efi file e_hdr) s (λ i. (got i, s1))) whole in
    elim (Bool-cases (verify_kernel_elf_header (efi.mem s1) elfmag e_hdr)) [
      | inl bad ↦
          let no_entry : ◌≡◌ {A = Outcome (Unit {0}) ℕ × S} (failed tt, s1) (ok entry, s') =
            rw bad at run1 in
          cc no_entry
      | inr good ↦
          let run2 = rw (good, if◌then◌else◌) at run1 in
          let (p, tabled, run3) = >>=-eq-ok (or_null (get_elf_p_hdrs efi file e_hdr)) _ s1 run2 in
          let s2 = (get_elf_p_hdrs efi file e_hdr s1).1 in
          let (place, rows, header2) =
            get_elf_p_hdrs-Copied efi file f size dev e_hdr s1 s2 p
              (or_null-run (get_elf_p_hdrs efi file e_hdr) s1 (λ i. (tabled i, s2))) header table
              apart in
          let loop = load_segments efi file e_hdr (2 ^ 16) 0 p in
          let (c, looped, run4) = >>=-eq-ok loop _ s2 run3 in
          let s3 = (loop s2).1 in
          let lay' = subst (λ t. IsLaidOut f size t e_hdr) place (lay s1) in
          let segments =
            load_segments-Segments efi file f size dev p e_hdr lay' (2 ^ 16) 0 s2 s3 (omega arith)
              (λ x l. rows x (omega arith)) header2 (λ i. (looped i, s3)) in
          let result : ok (e_entry (efi.mem s3) e_hdr) ≡ ok entry = ap (λ r. r.0) run4 in
          let same : e_entry (efi.mem s3) e_hdr ≡ entry = cc result in
          (
            sym same
                ∙ entry-eq efi file f size dev e_hdr p lay' (efi.mem s2) (efi.mem s3) header2
                    segments,
            λ i h l.
                subst (λ t. Copied f (efi.mem t) (paddr f i) (offset f i) (filesz f i))
                  (ap (λ r. r.1) run4) (segments.loaded i (omega arith) h l),
          )
    ]
