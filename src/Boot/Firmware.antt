-- ===== src/Boot/Firmware.antt =====
-- The services of the firmware that the loader of bootloader/ calls. Their effect on a state `S` is
-- a parameter, as is the memory in that state. The messages that the loader prints are left out.
pub mod Inversion
use print_os.Base.{ℕ, ◌+◌, ◌^◌, ◌==◌, if◌then◌else◌}
use print_os.Mem.{Mem}

-- What a call comes back with: a result, or the reason why there is none, which is a status, or
-- nothing where the code returns a null pointer.
pub data Outcome (E A : Type 0) : Type 0 where
  ok : A → Outcome E A
  failed : E → Outcome E A

abbrev pub Run : (S E A : Type 0) → Type 0
Run S E A = S → Outcome E A × S

module _ {S E A B : Type 0} where
  abbrev pub after : Outcome E A → S → (A → Run S E B) → Outcome E B × S
  after (ok a) s f = f a s
  after (failed e) s f = (failed e, s)

  infixl 5 ◌>>=◌
  abbrev pub ◌>>=◌ : Run S E A → (A → Run S E B) → Run S E B
  ◌>>=◌ m f s = after (m s).0 (m s).1 f

infixl 5 ◌>>◌
abbrev pub ◌>>◌ : {S E A B : Type 0} → Run S E A → Run S E B → Run S E B
m >> k = m >>= λ _. k

abbrev pub pure : {S E A : Type 0} → A → Run S E A
pure a s = (ok a, s)

abbrev pub fail : {S E A : Type 0} → E → Run S E A
fail e s = (failed e, s)

-- `EFI_STATUS`.
abbrev pub efi_success : ℕ
efi_success = 0

abbrev pub efi_load_error : ℕ
efi_load_error = 2 ^ 63 + 1

abbrev pub efi_buffer_too_small : ℕ
efi_buffer_too_small = 2 ^ 63 + 5

abbrev pub efi_aborted : ℕ
efi_aborted = 2 ^ 63 + 21

-- What `GetMemoryMap` leaves in the variables of its caller.
pub record MapInfo : Type 0 where
  pub map_sz : ℕ
  pub map_key : ℕ
  pub descriptor_sz : ℕ

-- The mode of the graphics output.
pub record Mode : Type 0 where
  pub base : ℕ
  pub size : ℕ
  pub horizontal : ℕ
  pub vertical : ℕ
  pub per_scan_line : ℕ

-- Each service returns a status and what it leaves in the variables that it is given.
pub record Efi (S : Type 0) : Type 0 where
  pub mem : S → Mem
  pub open_protocol : (handle guid : ℕ) → S → (ℕ × ℕ) × S
  pub open_volume : (fs : ℕ) → S → (ℕ × ℕ) × S
  pub open_file : (dir name : ℕ) → S → (ℕ × ℕ) × S
  pub get_info : (file size buffer : ℕ) → S → (ℕ × ℕ) × S
  pub set_position : (file position : ℕ) → S → ℕ × S
  pub read : (file size buffer : ℕ) → S → ℕ × S
  pub allocate_pool : (size : ℕ) → S → (ℕ × ℕ) × S
  pub allocate_pages : (pages address : ℕ) → S → ℕ × S
  pub locate_gop : S → (ℕ × Mode) × S
  pub get_memory_map : (size buffer : ℕ) → S → (ℕ × MapInfo) × S
  pub exit_boot_services : (image key : ℕ) → S → ℕ × S

module _ {S : Type 0} where
  -- A call whose status is tested, and returned if it is not success.
  abbrev pub call : (S → ℕ × S) → Run S ℕ (Unit {0})
  call m s = (if (m s).0 == efi_success then ok tt else failed (m s).0, (m s).1)

  abbrev pub call_for : {A : Type 0} → (S → (ℕ × A) × S) → Run S ℕ A
  call_for m s = (if (m s).0.0 == efi_success then ok (m s).0.1 else failed (m s).0.0, (m s).1)

  -- Memory as it is now.
  abbrev pub memory : {E : Type 0} → Efi S → Run S E Mem
  memory efi s = (ok (efi.mem s), s)

module _ {A : Type 0} where
  -- A failure becomes a null pointer, and a null pointer a status.
  abbrev pub nulled : Outcome ℕ A → Outcome (Unit {0}) A
  nulled (ok a) = ok a
  nulled (failed e) = failed tt

  abbrev pub reported : (status : ℕ) → Outcome (Unit {0}) A → Outcome ℕ A
  reported status (ok a) = ok a
  reported status (failed e) = failed status

module _ {S A : Type 0} where
  abbrev pub or_null : Run S ℕ A → Run S (Unit {0}) A
  or_null m s = (nulled (m s).0, (m s).1)

  abbrev pub or_status : (status : ℕ) → Run S (Unit {0}) A → Run S ℕ A
  or_status status m s = (reported status (m s).0, (m s).1)
