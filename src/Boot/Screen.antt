-- ===== src/Boot/Screen.antt =====
-- bootloader/gop.c, gop.h and acpi.c: the framebuffer of the firmware, and the root of the ACPI
-- tables.
use print_os.Base.{
  ℕ, zero, suc, ◌+◌, ◌*◌, ◌%◌, ◌^◌, ◌≡◌, inl, inr, arith, ◌==◌, if◌then◌else◌, Bool-cases, subst,
}
use print_os.Mem.{Mem, read_le}
use print_os.Boot.Firmware.{Run, Efi, Mode, call_for, or_null, pure, ◌>>=◌}
use print_os.Acpi.Search.{Found, Found-none, Found-here, Found-next}

-- The structure at `address`, of 16-bit sizes. `double_buffer` is set by the caller.
pub record Framebuffer : Type 0 where
  pub address : ℕ
  pub base_address : ℕ
  pub double_buffer : ℕ
  pub buffer_size : ℕ
  pub width : ℕ
  pub height : ℕ
  pub pixels_per_scanline : ℕ
  pub bytes_per_pixel : ℕ

abbrev pub framebuffer_sz : ℕ
framebuffer_sz = 32

module _ {S : Type 0} (efi : Efi S) where
  unfoldable pub locate_gop : Run S ℕ Mode
  locate_gop = call_for efi.locate_gop

  -- `garbage` is what the pool leaves in the field that is not set.
  unfoldable pub get_framebuffer : (garbage : ℕ) → Run S (Unit {0}) Framebuffer
  unfolding locate_gop
  get_framebuffer garbage = do
    gop ← or_null locate_gop
    framebuffer ← or_null (call_for (efi.allocate_pool framebuffer_sz))
    pure (record {
      address = framebuffer;
      base_address = gop.base;
      double_buffer = garbage;
      buffer_size = gop.size;
      width = gop.horizontal % 2 ^ 16;
      height = gop.vertical % 2 ^ 16;
      pixels_per_scanline = gop.per_scan_line % 2 ^ 16;
      bytes_per_pixel = 4;
    })

  unfoldable pub allocate_double_framebuffer : (size : ℕ) → Run S (Unit {0}) ℕ
  allocate_double_framebuffer size = or_null (call_for (efi.allocate_pool size))

-- An entry of the configuration table: an identifier of 16 bytes, and the address of a table.
abbrev pub configuration_sz : ℕ
configuration_sz = 24

abbrev pub vendor_guid : Mem → (ct_entry : ℕ) → ℕ
vendor_guid m ct_entry = read_le m ct_entry 16

abbrev pub vendor_table : Mem → (ct_entry : ℕ) → ℕ
vendor_table m ct_entry = read_le m (ct_entry + 16) 8

-- The loop over the entries that are left. `CompareGuid` gives 0 for equal identifiers.
unfoldable pub rsdp_loop : (rounds : ℕ) → Mem → (acpi_table_guid ct_entry : ℕ) → ℕ
rsdp_loop zero m guid ct_entry = 0
rsdp_loop (suc k) m guid ct_entry =
    let rest = rsdp_loop k m guid (ct_entry + configuration_sz) in
    if vendor_guid m ct_entry == guid then vendor_table m ct_entry else rest

unfoldable pub get_rsdp : Mem → (acpi_table_guid table number : ℕ) → ℕ
unfolding rsdp_loop
get_rsdp m guid table number = rsdp_loop number m guid table

module _ (m : Mem) (guid table : ℕ) where
  abbrev entry : ℕ → ℕ
  entry i = table + i * configuration_sz

  rsdp_loop-Found :
      (k i hi : ℕ)
      → i + k ≡ hi
      → Found
          (λ j. vendor_guid m (entry j) ≡ guid)
          (λ j. vendor_table m (entry j))
          i
          hi
          (rsdp_loop k m guid (entry i))
  unfolding rsdp_loop
  rsdp_loop-Found zero i hi e = Found-none _ (λ j. vendor_table m (entry j)) i hi (omega arith)
  rsdp_loop-Found (suc k) i hi e =
      let next : entry (i + 1) ≡ entry i + configuration_sz = omega arith in
      elim (Bool-cases (vendor_guid m (entry i) == guid)) [
        | inl here ↦ rw here (
            Found-here (λ j. vendor_guid m (entry j) ≡ guid) (λ j. vendor_table m (entry j)) i hi
              (omega arith) (ground arith))
        | inr on ↦ rw on (
            Found-next (λ j. vendor_guid m (entry j) ≡ guid) (λ j. vendor_table m (entry j)) i hi _
              (λ same. ground arith)
              (subst
                (λ p.
                  Found (λ j. vendor_guid m (entry j) ≡ guid) (λ j. vendor_table m (entry j))
                    (i + 1) hi (rsdp_loop k m guid p))
                next (rsdp_loop-Found k (i + 1) hi (omega arith))))
      ]

-- `get_rsdp` returns the table of the first entry of the configuration table that has the identifier,
-- or null where none of the entries has it.
pub get_rsdp_lem :
    (m : Mem) (guid table number : ℕ)
    → Found
        (λ j. vendor_guid m (table + j * configuration_sz) ≡ guid)
        (λ j. vendor_table m (table + j * configuration_sz))
        0
        number
        (get_rsdp m guid table number)
unfolding get_rsdp
get_rsdp_lem m guid table number =
    let e : table + 0 * configuration_sz ≡ table = omega arith in
    subst
      (λ p.
        Found (λ j. vendor_guid m (table + j * configuration_sz) ≡ guid)
          (λ j. vendor_table m (table + j * configuration_sz)) 0 number (rsdp_loop number m guid p))
      e (rsdp_loop-Found m guid table number 0 number (omega arith))
