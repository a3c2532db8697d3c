-- ===== src/Boot/Files.antt =====
-- bootloader/file.c: files by their names, through the protocols of the firmware.
use print_os.Base.{ℕ, ◌+◌, ◌==◌, if◌then◌else◌}
use print_os.Mem.{read_le}
use print_os.Boot.Firmware.{
  Run, Efi, call_for, memory, or_null, pure, ◌>>=◌, ok, failed, efi_aborted, efi_buffer_too_small,
}

-- The identifiers of the two protocols.
abbrev pub loaded_image_guid : ℕ
loaded_image_guid = 0

abbrev pub file_system_guid : ℕ
file_system_guid = 1

module _ {S : Type 0} (efi : Efi S) where
  unfoldable pub get_image : (image_handle : ℕ) → Run S ℕ ℕ
  get_image image_handle = call_for (efi.open_protocol image_handle loaded_image_guid)

  -- The field `DeviceHandle` is at offset 24.
  unfoldable pub get_root_fs : (loaded_image : ℕ) → Run S ℕ ℕ
  get_root_fs loaded_image = do
    m ← memory efi
    call_for (efi.open_protocol (read_le m (loaded_image + 24) 8) file_system_guid)

  unfoldable pub get_root_dir : (root_fs : ℕ) → Run S ℕ ℕ
  get_root_dir root_fs = call_for (efi.open_volume root_fs)

  unfoldable pub get_file : (dir file_name : ℕ) → Run S ℕ ℕ
  get_file dir file_name = call_for (efi.open_file dir file_name)

  -- The first call has to fail with the size that is needed.
  abbrev pub needed_size : (file : ℕ) → Run S ℕ ℕ
  needed_size file s =
      let r = efi.get_info file 0 0 s in
      (if r.0.0 == efi_buffer_too_small then ok r.0.1 else failed efi_aborted, r.1)

  unfoldable pub get_file_info : (file : ℕ) → Run S ℕ ℕ
  get_file_info file = do
    file_size ← needed_size file
    file_info ← call_for (efi.allocate_pool file_size)
    _ ← call_for (efi.get_info file file_size file_info)
    pure file_info

  -- If no directory is given, the root directory of the volume is taken.
  unfoldable pub load_file : (dir file_name image_handle : ℕ) → Run S (Unit {0}) ℕ
  unfolding get_image get_root_fs get_root_dir get_file
  load_file dir file_name image_handle = do
    loaded_image ← or_null (get_image image_handle)
    root_fs ← or_null (get_root_fs loaded_image)
    dir' ← if dir == 0 then or_null (get_root_dir root_fs) else pure dir
    or_null (get_file dir' file_name)
