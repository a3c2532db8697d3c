-- ===== src/Boot/Loader/Segment.antt =====
-- One segment of the kernel in bootloader/kernel_loader.c, given what the firmware promises of files
-- and memory.
use print_os.Base.{
  ℕ, zero, suc, ◌+◌, ◌-◌, ◌/◌, ◌%◌, ◌^◌, ◌≤◌, ◌<◌, ◌≡◌, ◌≢◌, refl, sym, ap, ◌∙◌, inl, inr, arith,
  ltb, leb, ◌&&◌, if◌then◌else◌, ◌==◌, Bool-cases,
}
use print_os.Mem.{Mem, read_le}
use print_os.Boot.Firmware.{Efi, Outcome, ok, efi_success, call, or_null}
use print_os.Boot.Firmware.Inversion.{>>=-eq-ok, call-eq-ok, or_null-run}
use print_os.Boot.Loader.Fields.{e_hdr_sz, p_type, p_offset, p_paddr, p_filesz, pt_load}
use print_os.Boot.Loader.Layout.{Apart, Copied}
use print_os.Boot.Loader.{load_elf_segment_by_p_hdr, load_if_loadable}

-- A file that is open: its bytes `f`, its size, and its position. Only a read changes memory that is
-- in use, and one within the file that succeeds fills its buffer with what is at the position.
pub record IsFile {S : Type 0} (efi : Efi S) (file : ℕ) (f : Mem) (size : ℕ) : Type 0 where
  pub position : S → ℕ
  pub seek :
      (p : ℕ) (s : S)
      → (efi.set_position file p s).0 ≡ efi_success
      → position (efi.set_position file p s).1 ≡ p
  pub seek_mem : (p : ℕ) (s : S) → efi.mem (efi.set_position file p s).1 ≡ efi.mem s
  pub pages_mem : (n p : ℕ) (s : S) → efi.mem (efi.allocate_pages n p s).1 ≡ efi.mem s
  pub pool_mem : (n : ℕ) (s : S) → efi.mem (efi.allocate_pool n s).1 ≡ efi.mem s
  pub fill :
      (n b : ℕ) (s : S)
      → (efi.read file n b s).0 ≡ efi_success
      → position s + n ≤ size
      → (q : ℕ)
      → efi.mem (efi.read file n b s).1 q
        ≡ (if leb b q && ltb q (b + n) then f (position s + (q - b)) else efi.mem s q)

pub read_le-cong :
    (m m' : Mem) (p q n : ℕ)
    → ((x : ℕ) → x < n → m (p + x) ≡ m' (q + x))
    → read_le m p n ≡ read_le m' q n
unfolding read_le
read_le-cong m m' p q zero h = refl
read_le-cong m m' p q (suc n) h =
    let zp : p + 0 ≡ p = omega arith in
    let zq : q + 0 ≡ q = omega arith in
    let first : m p ≡ m' q = ap m (sym zp) ∙ h 0 (omega arith) ∙ ap m' zq in
    let rest : read_le m (p + 1) n ≡ read_le m' (q + 1) n =
      read_le-cong m m' (p + 1) (q + 1) n
        λ x l. ap m (omega arith) ∙ h (suc x) (omega arith) ∙ ap m' (omega arith) in
    rw (first, rest) refl

-- The memory after a segment is loaded by the header at `p_hdr`.
abbrev pub Loaded : (f : Mem) → (p_hdr : ℕ) → (m m' : Mem) → Type 0
Loaded f p_hdr m m' =
    (q : ℕ)
    → m' q ≡ (
        if leb (p_paddr m p_hdr) q && ltb q (p_paddr m p_hdr + p_filesz m p_hdr)
        then f (p_offset m p_hdr + (q - p_paddr m p_hdr))
        else m q)

module _ {S : Type 0} (efi : Efi S) (file : ℕ) (f : Mem) (size : ℕ)
    (dev : IsFile efi file f size) where
  open dev use {position, seek, seek_mem, pages_mem, pool_mem, fill}

  -- A jump and a read that succeed.
  pub seek_read :
      (p n b : ℕ) (s : S) (s1 : S)
      → s1 ≡ (efi.set_position file p s).1
      → (efi.set_position file p s).0 ≡ efi_success
      → (efi.read file n b s1).0 ≡ efi_success
      → p + n ≤ size
      → (q : ℕ)
      → efi.mem (efi.read file n b s1).1 q
        ≡ (if leb b q && ltb q (b + n) then f (p + (q - b)) else efi.mem s q)
  seek_read p n b s s1 e sought done fits q =
      let at : position s1 ≡ p = ap position e ∙ seek p s sought in
      let same : efi.mem s1 ≡ efi.mem s = ap efi.mem e ∙ seek_mem p s in
      fill n b s1 done (omega arith) q ∙ rw (at, same) refl

  -- A jump and a read of the file put a copy in memory, and leave the rest.
  pub copy-Copied :
      (p n b : ℕ) (s : S)
      → (efi.set_position file p s).0 ≡ efi_success
      → (efi.read file n b (efi.set_position file p s).1).0 ≡ efi_success
      → p + n ≤ size
      → let m' = efi.mem (efi.read file n b (efi.set_position file p s).1).1 in
        Copied f m' b p n × ((q : ℕ) → Apart q 1 b n → m' q ≡ efi.mem s q)
  copy-Copied p n b s sought done fits = (
    λ x l. let e : b + x - b ≡ x = omega arith in ground (arith, filled (b + x), e),
    λ q away. ground (arith, filled q),
  )
    where
      filled :
          (q : ℕ)
          → efi.mem (efi.read file n b (efi.set_position file p s).1).1 q
            ≡ (if leb b q && ltb q (b + n) then f (p + (q - b)) else efi.mem s q)
      filled q = seek_read p n b s _ refl sought done fits q

  pub load_elf_segment-Loaded :
      (p_hdr : ℕ) (s s' : S)
      → load_elf_segment_by_p_hdr efi file p_hdr s ≡ (ok tt, s')
      → p_offset (efi.mem s) p_hdr + p_filesz (efi.mem s) p_hdr ≤ size
      → Loaded f p_hdr (efi.mem s) (efi.mem s')
  unfolding load_elf_segment_by_p_hdr
  load_elf_segment-Loaded p_hdr s s' run fits q =
      let m = efi.mem s in
      let paddr = p_paddr m p_hdr in
      let pages = efi.allocate_pages ((p_filesz m p_hdr / 0x1000 + 1) % 2 ^ 16) paddr in
      let s1 = (pages s).1 in
      let (a, allocated, run1) = >>=-eq-ok (call pages) _ s run in
      let (b, sought, run2) =
        >>=-eq-ok (call (efi.set_position file (p_offset (efi.mem s1) p_hdr))) _ s1 run1 in
      let s2 = (efi.set_position file (p_offset (efi.mem s1) p_hdr) s1).1 in
      let first : efi.mem s1 ≡ m = pages_mem ((p_filesz m p_hdr / 0x1000 + 1) % 2 ^ 16) paddr s in
      let second : efi.mem s2 ≡ m = seek_mem (p_offset (efi.mem s1) p_hdr) s1 ∙ first in
      let read_all = efi.read file (p_filesz (efi.mem s2) p_hdr) paddr in
      let offset : p_offset (efi.mem s1) p_hdr ≡ p_offset m p_hdr =
        ap (λ t. p_offset t p_hdr) first in
      let filesz : p_filesz (efi.mem s2) p_hdr ≡ p_filesz m p_hdr =
        ap (λ t. p_filesz t p_hdr) second in
      let final : (read_all s2).1 ≡ s' = ap (λ r. r.1) run2 in
      let filled =
        seek_read (p_offset (efi.mem s1) p_hdr) (p_filesz (efi.mem s2) p_hdr) paddr s1 s2 refl
          (call-eq-ok (efi.set_position file (p_offset (efi.mem s1) p_hdr)) s1 sought)
          (call-eq-ok read_all s2 (ap (λ r. r.0) run2)) (omega (arith, offset, filesz)) q in
      ap (λ t. efi.mem t q) (sym final) ∙ filled ∙ rw (filesz, offset, first) refl

  -- Under a header of another type memory stays.
  pub load_if_loadable-Loaded :
      (p_hdr : ℕ) (s s' : S)
      → load_if_loadable efi file p_hdr s ≡ (ok tt, s')
      → (p_type (efi.mem s) p_hdr ≡ pt_load
          → p_offset (efi.mem s) p_hdr + p_filesz (efi.mem s) p_hdr ≤ size)
      → (p_type (efi.mem s) p_hdr ≡ pt_load → Loaded f p_hdr (efi.mem s) (efi.mem s'))
        × (p_type (efi.mem s) p_hdr ≢ pt_load → efi.mem s' ≡ efi.mem s)
  unfolding load_if_loadable
  load_if_loadable-Loaded p_hdr s s' run fits =
      elim (Bool-cases (p_type (efi.mem s) p_hdr == pt_load)) [
        | inl e ↦
            let loads : p_type (efi.mem s) p_hdr ≡ pt_load = ground arith in
            let ran : or_null (load_elf_segment_by_p_hdr efi file p_hdr) s ≡ (ok tt, s') =
              rw e at run in
            (
              λ _.
                  load_elf_segment-Loaded p_hdr s s'
                    (or_null-run (load_elf_segment_by_p_hdr efi file p_hdr) s ran) (fits loads),
              λ ne. absurd (ne loads),
            )
        | inr e ↦
            let ran : ◌≡◌ {A = Outcome (Unit {0}) (Unit {0}) × S} (ok tt, s) (ok tt, s') =
              rw e at run in
            (λ l. absurd (ground arith), λ _. ap (λ r. efi.mem r.1) (sym ran))
      ]

-- A field of the file header in memory is that of the file.
pub header-eq :
    (f : Mem) (e_hdr : ℕ) (m : Mem) (k w : ℕ)
    → ((x : ℕ) → x < e_hdr_sz → m (e_hdr + x) ≡ f (0 + x))
    → k + w ≤ e_hdr_sz
    → read_le m (e_hdr + k) w ≡ read_le f (0 + k) w
header-eq f e_hdr m k w h fits =
    read_le-cong m f (e_hdr + k) (0 + k) w
      λ x l. ap m (omega arith) ∙ h (k + x) (omega arith) ∙ ap f (omega arith)
