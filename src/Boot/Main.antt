-- ===== src/Boot/Main.antt =====
-- `efi_main` of bootloader/main.c.
pub mod Status
use print_os.Base.{ℕ, ◌==◌, if◌then◌else◌}
use print_os.Mem.{Mem}
use print_os.Boot.Firmware.{
  Outcome, ok, failed, Run, Efi, memory, or_status, pure, fail, ◌>>=◌, efi_success, efi_load_error,
}
use print_os.Boot.Files.{load_file}
use print_os.Boot.Loader.{load_kernel_into_memory}
use print_os.Boot.Font.{Psf1Font, load_psf_font}
use print_os.Boot.Screen.{Framebuffer, get_framebuffer, allocate_double_framebuffer, get_rsdp}
use print_os.Boot.Starter.{Started, start_kernel}

-- A pointer that is null ends the loader with an error. `address` is where the result lies.
abbrev pub not_null : {A : Type 0} → (address : A → ℕ) → Outcome (Unit {0}) A → Outcome ℕ A
not_null address (ok a) = if address a == 0 then failed efi_load_error else ok a
not_null address (failed e) = failed efi_load_error

abbrev pub required : {S A : Type 0} → (address : A → ℕ) → Run S (Unit {0}) A → Run S ℕ A
required address m s = (not_null address (m s).0, (m s).1)

-- The result is itself the pointer.
abbrev pub itself : ℕ → ℕ
itself p = p

-- What the loader takes from its image and from the system table: the addresses of the names of the
-- two files and of the magic number, of the variable for the header, the identifier of the ACPI
-- table, and the configuration table.
pub record Image : Type 0 where
  pub handle : ℕ
  pub kernel_name : ℕ
  pub font_name : ℕ
  pub elfmag : ℕ
  pub e_hdr : ℕ
  pub garbage : ℕ
  pub acpi_table_guid : ℕ
  pub configuration_table : ℕ
  pub number_of_entries : ℕ

module _ {S : Type 0} (efi : Efi S) where
  -- The pointer to the root of the ACPI tables.
  abbrev pub find_rsdp : Image → Run S (Unit {0}) ℕ
  find_rsdp image s = (
    ok (
        get_rsdp (efi.mem s) image.acpi_table_guid image.configuration_table
          image.number_of_entries),
    s,
  )

  -- The loader returns a status only where the kernel is not started. When `start_kernel` comes back,
  -- the status is success.
  unfoldable pub efi_main : Image → Run S ℕ Started
  efi_main image = do
    kernel_file ← required itself (load_file efi 0 image.kernel_name image.handle)
    kernel_addr ← required itself (load_kernel_into_memory efi kernel_file image.elfmag image.e_hdr)
    psf_font ← required Psf1Font.address (load_psf_font efi 0 image.font_name image.handle)
    framebuffer ← required Framebuffer.address (get_framebuffer efi image.garbage)
    double_buffer ← required itself (allocate_double_framebuffer efi framebuffer.buffer_size)
    acpi_rsdp ← required itself (find_rsdp image)
    or_status efi_success (
        start_kernel efi image.handle (record framebuffer { double_buffer = double_buffer })
          psf_font kernel_addr acpi_rsdp)
