-- ===== src/Boot/Font/Glyphs.antt =====
-- What `load_psf_font` of bootloader/font.c loads of a font file.
use print_os.Base.{
  ℕ, ◌+◌, ◌-◌, ◌*◌, ◌≤◌, ◌≡◌, ◌≢◌, refl, sym, ap, ◌∙◌, arith, ◌==◌, if◌then◌else◌, Bool-cases, inl,
  inr, subst,
}
use print_os.Mem.{Mem}
use print_os.Boot.Firmware.{
  Outcome, ok, failed, Run, Efi, pure, fail, ◌>>=◌, call, call_for, or_null,
}
use print_os.Boot.Firmware.Inversion.{>>=-eq-ok, call-eq-ok, or_null-run}
use print_os.Boot.Files.{load_file}
use print_os.Boot.Loader.Layout.{Copied}
use print_os.Boot.Loader.Segment.{IsFile, read_le-cong}
use print_os.Boot.Font.{
  Psf1Font, psf_header_sz, psf_font_sz, psf1_magic, magic, mode, charsize, verify_psf_header,
  glyphs_buf_sz, get_psf_header, get_psf_glyphs, load_psf_font,
}

module _ {S : Type 0} (efi : Efi S) (file : ℕ) (f : Mem) (size : ℕ)
    (dev : IsFile efi file f size) where
  get_psf_header-Copied :
      (s s' : S) (psf_header : ℕ)
      → get_psf_header efi file s ≡ (ok psf_header, s')
      → dev.position s ≡ 0
      → ((n : ℕ) (s : S) → dev.position (efi.allocate_pool n s).1 ≡ dev.position s)
      → psf_header_sz ≤ size
      → Copied f (efi.mem s') psf_header 0 psf_header_sz
  unfolding get_psf_header
  get_psf_header-Copied s s' psf_header run at_start pool_position whole x l =
      let pool = efi.allocate_pool psf_header_sz in
      let (p, allocated, run1) = >>=-eq-ok (call_for pool) _ s run in
      let s1 = (pool s).1 in
      let (c, done, run2) = >>=-eq-ok (call (efi.read file psf_header_sz p)) _ s1 run1 in
      let start : dev.position s1 ≡ 0 = pool_position psf_header_sz s ∙ at_start in
      let filled =
        dev.fill psf_header_sz p s1 (call-eq-ok (efi.read file psf_header_sz p) s1 done)
          (omega arith) (p + x) in
      let index : p + x - p ≡ x = omega arith in
      let same : ◌≡◌ {A = Outcome ℕ ℕ} (ok p) (ok psf_header) = ap (λ r. r.0) run2 in
      let p_eq : p ≡ psf_header = cc same in
      ap (λ t. efi.mem t (psf_header + x)) (sym (ap (λ r. r.1) run2))
      ∙ ap (λ t. efi.mem (efi.read file psf_header_sz p s1).1 (t + x)) (sym p_eq)
      ∙ ground (arith, filled, index, start)

  get_psf_glyphs-Copied :
      (n : ℕ) (s s' : S) (glyphs_buf : ℕ)
      → get_psf_glyphs efi file n s ≡ (ok glyphs_buf, s')
      → ((n : ℕ) (s : S) → dev.position (efi.allocate_pool n s).1 ≡ dev.position s)
      → psf_header_sz + n ≤ size
      → Copied f (efi.mem s') glyphs_buf psf_header_sz n
  unfolding get_psf_glyphs
  get_psf_glyphs-Copied n s s' glyphs_buf run pool_position whole x l =
      let seek = efi.set_position file psf_header_sz in
      let (a, sought, run1) = >>=-eq-ok (call seek) _ s run in
      let s1 = (seek s).1 in
      let pool = efi.allocate_pool n in
      let (p, allocated, run2) = >>=-eq-ok (call_for pool) _ s1 run1 in
      let s2 = (pool s1).1 in
      let (c, done, run3) = >>=-eq-ok (call (efi.read file n p)) _ s2 run2 in
      let start : dev.position s2 ≡ psf_header_sz =
        pool_position n s1 ∙ dev.seek psf_header_sz s (call-eq-ok seek s sought) in
      let filled = dev.fill n p s2 (call-eq-ok (efi.read file n p) s2 done) (omega arith) (p + x) in
      let index : p + x - p ≡ x = omega arith in
      let same : ◌≡◌ {A = Outcome ℕ ℕ} (ok p) (ok glyphs_buf) = ap (λ r. r.0) run3 in
      let p_eq : p ≡ glyphs_buf = cc same in
      ap (λ t. efi.mem t (glyphs_buf + x)) (sym (ap (λ r. r.1) run3))
      ∙ ap (λ t. efi.mem (efi.read file n p s2).1 (t + x)) (sym p_eq)
      ∙ ground (arith, filled, index, start)

  glyphs_buf_sz-eq :
      (m : Mem) (psf_header : ℕ)
      → Copied f m psf_header 0 psf_header_sz
      → glyphs_buf_sz m psf_header ≡ glyphs_buf_sz f 0
  unfolding glyphs_buf_sz
  glyphs_buf_sz-eq m psf_header h = rw (h 2 (omega arith), h 3 (omega arith)) refl

  -- The body of `load_psf_font` once the glyphs can be read.
  abbrev with_glyphs : (psf_header n : ℕ) → Run S (Unit {0}) Psf1Font
  with_glyphs psf_header n = do
    glyphs_buf ← or_null (get_psf_glyphs efi file n)
    psf_font ← or_null (call_for (efi.allocate_pool psf_font_sz))
    pure (record {
      address = psf_font;
      psf_header = psf_header;
      glyph_height = 16;
      glyph_width = 8;
      glyph_buffer = glyphs_buf;
    })

  -- The body of `load_psf_font` once the header is read.
  abbrev with_header : (psf_header : ℕ) → Run S (Unit {0}) Psf1Font
  with_header psf_header s =
      (if verify_psf_header (efi.mem s) psf_header
          then fail tt
          else with_glyphs psf_header (glyphs_buf_sz (efi.mem s) psf_header))
        s

  HasGlyphs : Mem → (n : ℕ) → Psf1Font → Type 0
  HasGlyphs m n font =
      Copied f m font.glyph_buffer psf_header_sz n
      × (font.glyph_height ≡ 16)
      × (font.glyph_width ≡ 8)

  with_glyphs-HasGlyphs :
      (psf_header n : ℕ) (s s' : S) (font : Psf1Font)
      → with_glyphs psf_header n s ≡ (ok font, s')
      → ((n : ℕ) (s : S) → dev.position (efi.allocate_pool n s).1 ≡ dev.position s)
      → psf_header_sz + n ≤ size
      → HasGlyphs (efi.mem s') n font
  unfolding HasGlyphs
  with_glyphs-HasGlyphs psf_header n s s' font run pool_position whole =
      let glyphs_of = get_psf_glyphs efi file n in
      let (buf, got, run1) = >>=-eq-ok (or_null glyphs_of) _ s run in
      let s1 = (glyphs_of s).1 in
      let copied =
        get_psf_glyphs-Copied n s s1 buf (or_null-run glyphs_of s (λ i. (got i, s1))) pool_position
          whole in
      let pool = efi.allocate_pool psf_font_sz in
      let (address, allocated, run2) = >>=-eq-ok (or_null (call_for pool)) _ s1 run1 in
      let made : Psf1Font = record {
        address = address;
        psf_header = psf_header;
        glyph_height = 16;
        glyph_width = 8;
        glyph_buffer = buf;
      } in
      let same : ◌≡◌ {A = Outcome (Unit {0}) Psf1Font} (ok made) (ok font) = ap (λ r. r.0) run2 in
      let font_eq : made ≡ font = cc same in
      let kept : efi.mem s' ≡ efi.mem s1 =
        ap (λ r. efi.mem r.1) (sym run2) ∙ dev.pool_mem psf_font_sz s1 in
      subst
        (λ t.
          Copied f (efi.mem s') t.glyph_buffer psf_header_sz n
          × (t.glyph_height ≡ 16)
          × (t.glyph_width ≡ 8))
        font_eq (λ x l. ap (λ t. t (buf + x)) kept ∙ copied x l, refl, refl)

  with_header-HasGlyphs :
      (p : ℕ) (s s' : S) (font : Psf1Font)
      → with_header p s ≡ (ok font, s')
      → Copied f (efi.mem s) p 0 psf_header_sz
      → ((n : ℕ) (s : S) → dev.position (efi.allocate_pool n s).1 ≡ dev.position s)
      → psf_header_sz + glyphs_buf_sz f 0 ≤ size
      → HasGlyphs (efi.mem s') (glyphs_buf_sz f 0) font × (magic f 0 ≢ psf1_magic)
  unfolding verify_psf_header
  with_header-HasGlyphs p s s' font run header pool_position whole =
      let magic_eq : magic (efi.mem s) p ≡ magic f 0 =
        read_le-cong (efi.mem s) f p 0 2 (λ x l. header x (omega arith)) in
      elim (Bool-cases (magic (efi.mem s) p == psf1_magic)) [
        | inl bad ↦
            let no_font : ◌≡◌ {A = Outcome (Unit {0}) Psf1Font × S} (failed tt, s) (ok font, s') =
              rw bad at run in
            cc no_font
        | inr good ↦
            let run1 : with_glyphs p (glyphs_buf_sz (efi.mem s) p) s ≡ (ok font, s') =
              rw (good, if◌then◌else◌) at run in
            let n = glyphs_buf_sz-eq (efi.mem s) p header in
            let run2 = subst (λ t. with_glyphs p t s ≡ (ok font, s')) n run1 in
            (
              with_glyphs-HasGlyphs p (glyphs_buf_sz f 0) s s' font run2 pool_position whole,
              λ e. absurd (ground (arith, magic_eq)),
            )
      ]

-- A font that is loaded has the glyphs of its file in its buffer: 512 of them if the mode is 1, and
-- 256 otherwise, each of the size that the header of the file gives. The magic number of the file is
-- then not the one that the code tests for.
pub load_psf_font-Copied :
    {S : Type 0} (efi : Efi S) (dir path image_handle file : ℕ) (f : Mem) (size : ℕ)
    (dev : IsFile efi file f size) (s s' : S) (font : Psf1Font)
    → (load_file efi dir path image_handle s).0 ≡ ok file
    → dev.position (load_file efi dir path image_handle s).1 ≡ 0
    → ((n : ℕ) (s : S) → dev.position (efi.allocate_pool n s).1 ≡ dev.position s)
    → psf_header_sz + glyphs_buf_sz f 0 ≤ size
    → load_psf_font efi dir path image_handle s ≡ (ok font, s')
    → Copied f
        (efi.mem s')
        font.glyph_buffer
        psf_header_sz
        (if mode f 0 == 1 then charsize f 0 * 512 else charsize f 0 * 256)
      × (magic f 0 ≢ psf1_magic)
      × (font.glyph_height ≡ 16)
      × (font.glyph_width ≡ 8)
unfolding load_psf_font glyphs_buf_sz HasGlyphs
load_psf_font-Copied {S} efi dir path image_handle file f size dev s s' font opened at_start
      pool_position whole run =
    let open_it = load_file efi dir path image_handle in
    let s1 = (open_it s).1 in
    let run1 = rw opened at run in
    let header_of = get_psf_header efi file in
    let (p, got, run2) = >>=-eq-ok (or_null header_of) _ s1 run1 in
    let s2 = (header_of s1).1 in
    let header =
      get_psf_header-Copied efi file f size dev s1 s2 p
        (or_null-run header_of s1 (λ i. (got i, s2))) at_start pool_position (omega arith) in
    let result =
      with_header-HasGlyphs efi file f size dev p s2 s' font run2 header pool_position whole in
    (result.0.0, result.1, result.0.1, result.0.2)
