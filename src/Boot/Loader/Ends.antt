-- ===== src/Boot/Loader/Ends.antt =====
-- The loop of bootloader/kernel_loader.c over the program headers ends by its own test, whatever the
-- segments do to the file header, since `e_phnum` has 16 bits.
use print_os.Base.{
  ℕ, zero, suc, ◌+◌, ◌^◌, ◌≤◌, ◌<◌, ◌≡◌, refl, ap, ◌∙◌, arith, ltb, false, if◌then◌else◌,
}
use print_os.Boot.Firmware.{Efi, pure, ◌>>◌}
use print_os.Boot.Loader.{load_segments, load_if_loadable, get_next_p_hdr}
use print_os.Boot.Loader.Fields.{e_phnum, e_phentsize}

module _ {S : Type 0} (efi : Efi S) (file e_hdr : ℕ)
    (bits : (s : S) → e_phnum (efi.mem s) e_hdr < 2 ^ 16) where
  load_segments-suc :
      (k i p_hdr : ℕ) (s : S)
      → 2 ^ 16 ≤ i + suc k
      → load_segments efi file e_hdr (suc (suc k)) i p_hdr s
        ≡ load_segments efi file e_hdr (suc k) i p_hdr s
  unfolding load_segments
  load_segments-suc zero i p_hdr s enough =
      let small = bits s in
      let over : ltb i (e_phnum (efi.mem s) e_hdr) ≡ false = ground arith in rw over refl
  load_segments-suc (suc k) i p_hdr s enough =
      let m = efi.mem s in
      let p = if ltb 0 i then get_next_p_hdr efi file p_hdr (e_phentsize m e_hdr) else p_hdr in
      let rest = λ (t : S). load_segments-suc k (suc i) p t (omega arith) in
      λ j.
        (if ltb i (e_phnum m e_hdr)
            then load_if_loadable efi file p >> (λ t. rest t j)
            else pure tt)
          s

  -- More fuel than 2 ^ 16 changes nothing: the loop never runs out of it.
  load_segments-add :
      (extra k p_hdr : ℕ) (s : S)
      → 2 ^ 16 ≤ suc k
      → load_segments efi file e_hdr (extra + suc k) 0 p_hdr s
        ≡ load_segments efi file e_hdr (suc k) 0 p_hdr s
  load_segments-add zero k p_hdr s enough =
      ap (λ t. load_segments efi file e_hdr t 0 p_hdr s) (omega arith)
  load_segments-add (suc extra) k p_hdr s enough =
      ap (λ t. load_segments efi file e_hdr t 0 p_hdr s) (omega arith)
      ∙ load_segments-suc (extra + k) 0 p_hdr s (omega arith)
      ∙ ap (λ t. load_segments efi file e_hdr t 0 p_hdr s) (omega arith)
      ∙ load_segments-add extra k p_hdr s enough
