-- ===== src/Boot/Main/Status.antt =====
-- How `efi_main` of bootloader/main.c ends.
use print_os.Base.{ℕ, ap, ◌≡◌, ◌≢◌, ◌⊎◌, inl, inr, arith, ◌==◌, Bool-cases}
use print_os.Boot.Firmware.{
  Outcome, ok, failed, Run, Efi, ◌>>=◌, efi_success, efi_load_error, or_status,
}
use print_os.Boot.Firmware.Inversion.{>>=-eq-failed, or_status-eq-failed}
use print_os.Boot.Files.{load_file}
use print_os.Boot.Loader.{load_kernel_into_memory}
use print_os.Boot.Font.{Psf1Font, load_psf_font}
use print_os.Boot.Screen.{Framebuffer, get_framebuffer, allocate_double_framebuffer}
use print_os.Boot.Starter.{Started, start_kernel}
use print_os.Boot.Main.{Image, not_null, required, itself, find_rsdp, efi_main}

module _ {A : Type 0} (address : A → ℕ) where
  not_null-failed :
      (o : Outcome (Unit {0}) A) {e : ℕ} → not_null address o ≡ failed e → e ≡ efi_load_error
  not_null-failed (ok a) {e} h = elim (Bool-cases (address a == 0)) [
    | inl z ↦
        let bad : ◌≡◌ {A = Outcome ℕ A} (failed efi_load_error) (failed e) = rw z at h in cc bad
    | inr nz ↦ let bad : ◌≡◌ {A = Outcome ℕ A} (ok a) (failed e) = rw nz at h in cc bad
  ]
  not_null-failed (failed x) h = cc h

  not_null-ok :
      (o : Outcome (Unit {0}) A) {a : A} → not_null address o ≡ ok a → (o ≡ ok a) × (address a ≢ 0)
  not_null-ok (ok b) {a} h = elim (Bool-cases (address b == 0)) [
    | inl z ↦ let bad : ◌≡◌ {A = Outcome ℕ A} (failed efi_load_error) (ok a) = rw z at h in cc bad
    | inr nz ↦
        let good : ◌≡◌ {A = Outcome ℕ A} (ok b) (ok a) = rw nz at h in
        let e : b ≡ a = cc good in
        let same : address b ≡ address a = ap address e in (ap ok e, ground arith)
  ]
  not_null-ok (failed x) h = cc h

  module _ {S : Type 0} (m : Run S (Unit {0}) A) (s : S) where
    required-eq-failed : {e : ℕ} → (required address m s).0 ≡ failed e → e ≡ efi_load_error
    required-eq-failed h = not_null-failed (m s).0 h

    required-eq-ok :
        {a : A} → (required address m s).0 ≡ ok a → (m s ≡ (ok a, (m s).1)) × (address a ≢ 0)
    required-eq-ok h = let r = not_null-ok (m s).0 h in (λ i. (r.0 i, (m s).1), r.1)

-- The end of a run in which the kernel was to be entered and `start_kernel` came back, from the
-- state in which the screen is found: the second buffer and the ACPI pointer are there.
pub record ScreenBack {S : Type 0} (efi : Efi S) (image : Image) (kernel_addr : ℕ) (font : Psf1Font)
    (framebuffer : Framebuffer) (s : S) : Type 0 where
  pub double_buffer : ℕ
  pub acpi_rsdp : ℕ
  pub after_buffer : S
  pub buffer_allocated :
      allocate_double_framebuffer efi framebuffer.buffer_size s ≡ (ok double_buffer, after_buffer)
  pub rsdp_found : (find_rsdp efi image after_buffer).0 ≡ ok acpi_rsdp
  pub buffer_ne_null : double_buffer ≢ 0
  pub rsdp_ne_null : acpi_rsdp ≢ 0
  pub came_back :
      (start_kernel efi image.handle
        (record framebuffer { double_buffer = double_buffer })
        font
        kernel_addr
        acpi_rsdp
        after_buffer).0
      ≡ failed tt

-- The same from the state in which the kernel is loaded: the font and the screen are there.
pub record KernelBack {S : Type 0} (efi : Efi S) (image : Image) (kernel_addr : ℕ) (s : S)
    : Type 0 where
  pub font : Psf1Font
  pub framebuffer : Framebuffer
  pub after_font : S
  pub after_screen : S
  pub font_loaded : load_psf_font efi 0 image.font_name image.handle s ≡ (ok font, after_font)
  pub screen_found : get_framebuffer efi image.garbage after_font ≡ (ok framebuffer, after_screen)
  pub font_ne_null : font.address ≢ 0
  pub screen_ne_null : framebuffer.address ≢ 0
  pub rest : ScreenBack efi image kernel_addr font framebuffer after_screen

-- The same from the start: the file of the kernel was opened and loaded.
pub record CameBack {S : Type 0} (efi : Efi S) (image : Image) (s : S) : Type 0 where
  pub kernel_file : ℕ
  pub kernel_addr : ℕ
  pub after_file : S
  pub after_load : S
  pub file_opened : load_file efi 0 image.kernel_name image.handle s ≡ (ok kernel_file, after_file)
  pub kernel_loaded :
      load_kernel_into_memory efi kernel_file image.elfmag image.e_hdr after_file
      ≡ (ok kernel_addr, after_load)
  pub file_ne_null : kernel_file ≢ 0
  pub kernel_ne_null : kernel_addr ≢ 0
  pub rest : KernelBack efi image kernel_addr after_load

-- A load error, or success for a run that came back.
abbrev pub Ends : (status : ℕ) → (Back : Type 0) → Type 0
Ends status Back = (status ≡ efi_load_error) ⊎ ((status ≡ efi_success) × Back)

module _ {S : Type 0} (efi : Efi S) (image : Image) where
  -- The body of `efi_main` once the screen is set up.
  abbrev screen_ready : (kernel_addr : ℕ) → Psf1Font → Framebuffer → Run S ℕ Started
  screen_ready kernel_addr font framebuffer = do
    double_buffer ← required itself (allocate_double_framebuffer efi framebuffer.buffer_size)
    acpi_rsdp ← required itself (find_rsdp efi image)
    or_status efi_success (
        start_kernel efi image.handle (record framebuffer { double_buffer = double_buffer }) font
          kernel_addr acpi_rsdp)

  -- The body of `efi_main` once the kernel is loaded.
  abbrev kernel_ready : (kernel_addr : ℕ) → Run S ℕ Started
  kernel_ready kernel_addr = do
    font ← required Psf1Font.address (load_psf_font efi 0 image.font_name image.handle)
    framebuffer ← required Framebuffer.address (get_framebuffer efi image.garbage)
    screen_ready kernel_addr font framebuffer

  screen_ready-Ends :
      (status kernel_addr : ℕ) (font : Psf1Font) (fb : Framebuffer) (s : S)
      → (screen_ready kernel_addr font fb s).0 ≡ failed status
      → Ends status (ScreenBack efi image kernel_addr font fb s)
  screen_ready-Ends status kernel_addr font fb s h =
      let double = allocate_double_framebuffer efi fb.buffer_size in
      let s1 = (double s).1 in
      elim (>>=-eq-failed (required itself double) _ s h) [
        | inl e ↦ inl (required-eq-failed itself double s e)
        | inr (buffer, allocated, h1) ↦
            elim (>>=-eq-failed (required itself (find_rsdp efi image)) _ s1 h1) [
              | inl e ↦ inl (required-eq-failed itself (find_rsdp efi image) s1 e)
              | inr (rsdp, found, h2) ↦
                  let fb' = record fb { double_buffer = buffer } in
                  let start = start_kernel efi image.handle fb' font kernel_addr rsdp in
                  let back = or_status-eq-failed efi_success start s1 h2 in
                  let had_buffer = required-eq-ok itself double s allocated in
                  let had_rsdp = required-eq-ok itself (find_rsdp efi image) s1 found in
                  inr (
                    back.1,
                    record {
                      double_buffer = buffer;
                      acpi_rsdp = rsdp;
                      after_buffer = s1;
                      buffer_allocated = had_buffer.0;
                      rsdp_found = ap (λ r. r.0) had_rsdp.0;
                      buffer_ne_null = had_buffer.1;
                      rsdp_ne_null = had_rsdp.1;
                      came_back = back.0;
                    },
                  )
            ]
      ]

  kernel_ready-Ends :
      (status kernel_addr : ℕ) (s : S)
      → (kernel_ready kernel_addr s).0 ≡ failed status
      → Ends status (KernelBack efi image kernel_addr s)
  kernel_ready-Ends status kernel_addr s h =
      let font_of = load_psf_font efi 0 image.font_name image.handle in
      let screen_of = get_framebuffer efi image.garbage in
      let s1 = (font_of s).1 in
      elim (>>=-eq-failed (required Psf1Font.address font_of) _ s h) [
        | inl e ↦ inl (required-eq-failed Psf1Font.address font_of s e)
        | inr (font, loaded, h1) ↦
            elim (>>=-eq-failed (required Framebuffer.address screen_of) _ s1 h1) [
              | inl e ↦ inl (required-eq-failed Framebuffer.address screen_of s1 e)
              | inr (fb, found, h2) ↦
                  elim (screen_ready-Ends status kernel_addr font fb (screen_of s1).1 h2) [
                    | inl e ↦ inl e
                    | inr (e, rest) ↦
                        let had_font = required-eq-ok Psf1Font.address font_of s loaded in
                        let had_screen = required-eq-ok Framebuffer.address screen_of s1 found in
                        inr (
                          e,
                          record {
                            font = font;
                            framebuffer = fb;
                            after_font = s1;
                            after_screen = (screen_of s1).1;
                            font_loaded = had_font.0;
                            screen_found = had_screen.0;
                            font_ne_null = had_font.1;
                            screen_ne_null = had_screen.1;
                            rest = rest;
                          },
                        )
                  ]
            ]
      ]

-- Whenever the loader returns, its status is the load error, unless `start_kernel` came back: then,
-- although the kernel does not run, the status is success. It has then been called with the entry
-- point of the kernel file, the font and the screen with its second buffer that the services gave in
-- this order, and the ACPI pointer, and none of these pointers was null.
pub efi_main_status :
    {S : Type 0} (efi : Efi S) (image : Image) (s : S) (status : ℕ)
    → (efi_main efi image s).0 ≡ failed status
    → (status ≡ efi_load_error) ⊎ ((status ≡ efi_success) × CameBack efi image s)
unfolding efi_main
efi_main_status {S} efi image s status h =
    let file = load_file efi 0 image.kernel_name image.handle in
    let s1 = (file s).1 in
    elim (>>=-eq-failed (required itself file) _ s h) [
      | inl e ↦ inl (required-eq-failed itself file s e)
      | inr (kernel_file, opened, h1) ↦
          let load = load_kernel_into_memory efi kernel_file image.elfmag image.e_hdr in
          elim (>>=-eq-failed (required itself load) _ s1 h1) [
            | inl e ↦ inl (required-eq-failed itself load s1 e)
            | inr (kernel_addr, loaded, h2) ↦
                elim (kernel_ready-Ends efi image status kernel_addr (load s1).1 h2) [
                  | inl e ↦ inl e
                  | inr (e, rest) ↦
                      let had_file = required-eq-ok itself file s opened in
                      let had_kernel = required-eq-ok itself load s1 loaded in
                      inr (
                        e,
                        record {
                          kernel_file = kernel_file;
                          kernel_addr = kernel_addr;
                          after_file = s1;
                          after_load = (load s1).1;
                          file_opened = had_file.0;
                          kernel_loaded = had_kernel.0;
                          file_ne_null = had_file.1;
                          kernel_ne_null = had_kernel.1;
                          rest = rest;
                        },
                      )
                ]
          ]
    ]
