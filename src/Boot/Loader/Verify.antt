-- ===== src/Boot/Loader/Verify.antt =====
-- Which headers `verify_kernel_elf_header` of bootloader/kernel_loader.c accepts, and what the loader
-- does with them.
use print_os.Base.{ℕ, ◌+◌, ◌<◌, ◌≡◌, refl, arith, true, ◌↔◌, inl, inr, Bool-cases}
use print_os.Mem.{Mem}
use print_os.Boot.Firmware.{Efi, ok, failed}
use print_os.Boot.Loader.Fields.{e_type, e_machine, e_version}
use print_os.Boot.Utils.{Sign, memcmp, memcmp-Compared, zero_sign, minus_one, plus_one, Compared}
use print_os.Boot.Loader.{
  load_kernel_into_memory, verify_kernel_elf_header, get_elf_header, is_zero, load_program,
}

Compared-is_zero :
    (m : Mem) (a b n : ℕ) (r : Sign)
    → Compared m a b n r
    → (is_zero r ≡ true) ↔ ((j : ℕ) → j < n → m (a + j) ≡ m (b + j))
Compared-is_zero m a b n minus_one (i, h, before, lt) =
    (λ e. cc e, λ same. absurd (omega (arith, same i h)))
Compared-is_zero m a b n zero_sign same = (λ e. same, λ h. refl)
Compared-is_zero m a b n plus_one (i, h, before, lt) =
    (λ e. cc e, λ same. absurd (omega (arith, same i h)))

-- What the fields of a header say, but for its first four bytes.
abbrev pub IsKernel : Mem → (e_hdr : ℕ) → Type 0
IsKernel m e_hdr =
    (m (e_hdr + 4) ≡ 2)
    × (m (e_hdr + 5) ≡ 1)
    × (e_type m e_hdr ≡ 2)
    × (e_machine m e_hdr ≡ 62)
    × (e_version m e_hdr ≡ 1)

verify_lem :
    (m : Mem) (elfmag e_hdr : ℕ)
    → (verify_kernel_elf_header m elfmag e_hdr ≡ true)
      ↔ (((j : ℕ) → j < 4 → m (m e_hdr + j) ≡ m (elfmag + j)) × IsKernel m e_hdr)
unfolding verify_kernel_elf_header
verify_lem m elfmag e_hdr =
    let magic =
      Compared-is_zero m (m e_hdr) elfmag 4 (memcmp m (m e_hdr) elfmag 4)
        (memcmp-Compared m (m e_hdr) elfmag 4) in
    (λ h. (magic.0 (ground arith), ground arith), λ h. let first = magic.1 h.0 in ground arith)

-- A header that passes the check: the four bytes at the address that is the value of its first byte
-- are the magic number, and its fields are those of a kernel.
abbrev pub Passes : Mem → (elfmag e_hdr : ℕ) → Type 0
Passes m elfmag e_hdr = ((j : ℕ) → j < 4 → m (m e_hdr + j) ≡ m (elfmag + j)) × IsKernel m e_hdr

-- The check is of the four bytes at the address that is the value of the first byte of the header,
-- not of the header's own, and its result is taken the wrong way round. Once the header is read, one
-- that passes (those four bytes are the magic number, and the class, the byte order, the type, the
-- machine and the version are those of a kernel) is refused, with a null pointer and nothing loaded;
-- with every other one the loader goes on to its segments, as `load_program` does.
pub load_kernel-verified :
    {S : Type 0} (efi : Efi S) (file elfmag e_hdr : ℕ) (s s1 : S)
    → get_elf_header efi file e_hdr s ≡ (ok tt, s1)
    → (Passes (efi.mem s1) elfmag e_hdr
        → load_kernel_into_memory efi file elfmag e_hdr s ≡ (failed tt, s1))
      × (¬ Passes (efi.mem s1) elfmag e_hdr
          → load_kernel_into_memory efi file elfmag e_hdr s ≡ load_program efi file e_hdr s1)
unfolding load_kernel_into_memory
load_kernel-verified efi file elfmag e_hdr s s1 got =
    let both = verify_lem (efi.mem s1) elfmag e_hdr in
    (
      λ passes. rw (got, both.1 passes) refl,
      λ fails. elim (Bool-cases (verify_kernel_elf_header (efi.mem s1) elfmag e_hdr)) [
        | inl passed ↦ absurd (fails (both.0 passed))
        | inr refused ↦ rw (got, refused) refl
      ],
    )
