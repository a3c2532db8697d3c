-- ===== src/Boot/Loader.antt =====
-- bootloader/kernel_loader.c: the ELF file of the kernel is read, and its segments are put at their
-- physical addresses. The ELF structures are in memory at the offsets that the format gives them.
pub mod Fields
pub mod Segment
pub mod Layout
pub mod Rounds
pub mod Ends
pub mod Kernel
pub mod Verify
use print_os.Base.{
  ℕ, zero, suc, ◌+◌, ◌*◌, ◌/◌, ◌%◌, ◌^◌, Bool, true, false, ◌&&◌, ◌==◌, ltb, if◌then◌else◌,
}
use print_os.Mem.{Mem, read8}
use print_os.Boot.Firmware.{
  Outcome, Run, Efi, call, call_for, memory, or_null, pure, fail, ◌>>=◌, ◌>>◌,
}
use print_os.Boot.Utils.{memcmp, Sign, zero_sign}
use print_os.Boot.Loader.Fields.{
  e_hdr_sz, e_type, e_machine, e_version, e_entry, e_phoff, e_phentsize, e_phnum, p_type, p_offset,
  p_paddr, p_filesz, pt_load,
}

abbrev pub is_zero : Sign → Bool
is_zero zero_sign = true
is_zero _ = false

-- The first argument of `memcmp` is the value of the byte `e_ident[EI_MAG0]`, not its address.
unfoldable pub verify_kernel_elf_header : Mem → (elfmag e_hdr : ℕ) → Bool
verify_kernel_elf_header m elfmag e_hdr =
    is_zero (memcmp m (read8 m e_hdr) elfmag 4)
    && read8 m (e_hdr + 4) == 2
    && read8 m (e_hdr + 5) == 1
    && e_type m e_hdr == 2
    && e_machine m e_hdr == 62
    && e_version m e_hdr == 1

module _ {S : Type 0} (efi : Efi S) (file : ℕ) where
  unfoldable pub get_elf_header : (e_hdr : ℕ) → Run S ℕ (Unit {0})
  get_elf_header e_hdr = do call (efi.set_position file 0); call (efi.read file e_hdr_sz e_hdr)

  -- The pointer to the headers.
  unfoldable pub get_elf_p_hdrs : (e_hdr : ℕ) → Run S ℕ ℕ
  get_elf_p_hdrs e_hdr = do
    m ← memory efi
    let all_p_hdrs_sz = e_phentsize m e_hdr * e_phnum m e_hdr
    p_hdrs ← call_for (efi.allocate_pool all_p_hdrs_sz)
    m' ← memory efi
    call (efi.set_position file (e_phoff m' e_hdr))
    call (efi.read file all_p_hdrs_sz p_hdrs)
    pure p_hdrs

  -- The number of pages is a `UINT16`.
  unfoldable pub load_elf_segment_by_p_hdr : (p_hdr : ℕ) → Run S ℕ (Unit {0})
  load_elf_segment_by_p_hdr p_hdr = do
    m ← memory efi
    let num_of_pages = (p_filesz m p_hdr / 0x1000 + 1) % 2 ^ 16
    let segment_paddr = p_paddr m p_hdr
    call (efi.allocate_pages num_of_pages segment_paddr)
    m1 ← memory efi
    call (efi.set_position file (p_offset m1 p_hdr))
    m2 ← memory efi
    call (efi.read file (p_filesz m2 p_hdr) segment_paddr)

  -- The body of the loop over the program headers.
  unfoldable pub load_if_loadable : (p_hdr : ℕ) → Run S (Unit {0}) (Unit {0})
  unfolding load_elf_segment_by_p_hdr
  load_if_loadable p_hdr = do
    m ← memory efi
    if p_type m p_hdr == pt_load then or_null (load_elf_segment_by_p_hdr p_hdr) else pure tt

  abbrev pub get_next_p_hdr : (p_hdr e_phentsize : ℕ) → ℕ
  get_next_p_hdr p_hdr e_phentsize = p_hdr + e_phentsize

  -- The loop from the index `i` on; the number and the size of the headers are read in each round.
  unfoldable pub load_segments : (e_hdr fuel i p_hdr : ℕ) → Run S (Unit {0}) (Unit {0})
  unfolding load_if_loadable
  load_segments e_hdr zero i p_hdr = fail tt
  load_segments e_hdr (suc k) i p_hdr = do
    m ← memory efi
    let p = if ltb 0 i then get_next_p_hdr p_hdr (e_phentsize m e_hdr) else p_hdr
    let rest = load_segments e_hdr k (suc i) p
    if ltb i (e_phnum m e_hdr) then load_if_loadable p >> rest else pure tt

  -- `e_phnum` has 16 bits, and so the loop ends within 2 ^ 16 rounds.
  -- What follows the check of the header: the segments are loaded, and the entry point is returned.
  unfoldable pub load_program : (e_hdr : ℕ) → Run S (Unit {0}) ℕ
  unfolding get_elf_p_hdrs
  load_program e_hdr = do
    p_hdrs ← or_null (get_elf_p_hdrs e_hdr)
    load_segments e_hdr (2 ^ 16) 0 p_hdrs
    m ← memory efi
    pure (e_entry m e_hdr)

  -- The entry point. `e_hdr` is the address of the variable on the stack, and `elfmag` of "\x7fELF".
  unfoldable pub load_kernel_into_memory : (elfmag e_hdr : ℕ) → Run S (Unit {0}) ℕ
  unfolding verify_kernel_elf_header get_elf_header
  load_kernel_into_memory elfmag e_hdr = do
    or_null (get_elf_header e_hdr)
    m ← memory efi
    if verify_kernel_elf_header m elfmag e_hdr then fail tt else load_program e_hdr
