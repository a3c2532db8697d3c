-- ===== src/Boot/Starter/Growth.antt =====
-- The two calls of `GetMemoryMap` in bootloader/kernel_starter.c, between which the loader allocates.
use print_os.Base.{ℕ, ◌≤◌, ◌<◌, ◌≡◌, refl}
use print_os.Boot.Firmware.{ok, failed, Efi, efi_success, efi_buffer_too_small}
use print_os.Boot.Starter.{get_memory_map}

-- The memory map of the firmware has a size; a call with a buffer that is too small reports that size
-- and fails, and one with room succeeds.
pub record HasMap {S : Type 0} (efi : Efi S) : Type 0 where
  pub needed : S → ℕ
  pub some_map : (s : S) → 0 < needed s
  pub too_small :
      (size buffer : ℕ) (s : S)
      → size < needed s
      → ((efi.get_memory_map size buffer s).0.0 ≡ efi_buffer_too_small)
        × ((efi.get_memory_map size buffer s).0.1.map_sz ≡ needed s)
  pub enough :
      (size buffer : ℕ) (s : S)
      → needed s ≤ size
      → (efi.get_memory_map size buffer s).0.0 ≡ efi_success

-- The loader gets the map exactly where the allocation of its buffer has not made the map larger
-- than the buffer: there is no room to spare, and the call is not made again. Otherwise it ends with
-- the status of a buffer that is too small, although there is memory.
pub get_memory_map_growth :
    {S : Type 0} (efi : Efi S) (fw : HasMap efi) (s : S)
    → let s1 = (efi.get_memory_map 0 0 s).1 in
      let pool = efi.allocate_pool (fw.needed s) s1 in
      pool.0.0 ≡ efi_success
      → (fw.needed s < fw.needed pool.1 → (get_memory_map efi s).0 ≡ failed efi_buffer_too_small)
        × (fw.needed pool.1 ≤ fw.needed s
            → (get_memory_map efi s).0
              ≡ ok (pool.0.1, (efi.get_memory_map (fw.needed s) pool.0.1 pool.1).0.1))
unfolding get_memory_map
get_memory_map_growth efi fw s allocated =
    let first = fw.too_small 0 0 s (fw.some_map s) in
    let pool = efi.allocate_pool (fw.needed s) (efi.get_memory_map 0 0 s).1 in
    (
      λ grown.
          let second = fw.too_small (fw.needed s) pool.0.1 pool.1 grown in
          rw (first.0, first.1, allocated, second.0) refl,
      λ fits.
          let second = fw.enough (fw.needed s) pool.0.1 pool.1 fits in
          rw (first.0, first.1, allocated, second) refl,
    )
