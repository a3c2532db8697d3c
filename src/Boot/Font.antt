-- ===== src/Boot/Font.antt =====
-- bootloader/font.c and font.h: the font of the console, from a PSF file.
pub mod Glyphs
use print_os.Base.{ℕ, ◌+◌, ◌*◌, Bool, ◌==◌, if◌then◌else◌}
use print_os.Mem.{Mem, read8, read_le}
use print_os.Boot.Firmware.{Run, Efi, call, call_for, memory, or_null, pure, fail, ◌>>=◌, ◌>>◌}
use print_os.Boot.Files.{load_file}

-- `Psf1_header`: a magic number of 16 bits, a mode and the size of a glyph.
abbrev pub psf_header_sz : ℕ
psf_header_sz = 4

abbrev pub magic : Mem → (psf_header : ℕ) → ℕ
magic m psf_header = read_le m psf_header 2

abbrev pub mode : Mem → (psf_header : ℕ) → ℕ
mode m psf_header = read8 m (psf_header + 2)

abbrev pub charsize : Mem → (psf_header : ℕ) → ℕ
charsize m psf_header = read8 m (psf_header + 3)

abbrev pub psf1_magic : ℕ
psf1_magic = 0x3604

abbrev pub psf1_mode512 : ℕ
psf1_mode512 = 1

-- The structure at `address`.
pub record Psf1Font : Type 0 where
  pub address : ℕ
  pub psf_header : ℕ
  pub glyph_height : ℕ
  pub glyph_width : ℕ
  pub glyph_buffer : ℕ

abbrev pub psf_font_sz : ℕ
psf_font_sz = 24

unfoldable pub verify_psf_header : Mem → (psf_header : ℕ) → Bool
verify_psf_header m psf_header = magic m psf_header == psf1_magic

-- The number of bytes of all glyphs.
unfoldable pub glyphs_buf_sz : Mem → (psf_header : ℕ) → ℕ
glyphs_buf_sz m psf_header =
    if mode m psf_header == psf1_mode512
    then charsize m psf_header * 512
    else charsize m psf_header * 256

module _ {S : Type 0} (efi : Efi S) where
  unfoldable pub get_psf_header : (psf_file : ℕ) → Run S ℕ ℕ
  get_psf_header psf_file = do
    psf_header ← call_for (efi.allocate_pool psf_header_sz)
    call (efi.read psf_file psf_header_sz psf_header)
    pure psf_header

  unfoldable pub get_psf_glyphs : (psf_file size : ℕ) → Run S ℕ ℕ
  get_psf_glyphs psf_file size = do
    call (efi.set_position psf_file psf_header_sz)
    glyphs_buf ← call_for (efi.allocate_pool size)
    call (efi.read psf_file size glyphs_buf)
    pure glyphs_buf

  unfoldable pub load_psf_font : (dir path image_handle : ℕ) → Run S (Unit {0}) Psf1Font
  unfolding load_file get_psf_header get_psf_glyphs verify_psf_header glyphs_buf_sz
  load_psf_font dir path image_handle = do
    psf_file ← load_file efi dir path image_handle
    psf_header ← or_null (get_psf_header psf_file)
    m ← memory efi
    if verify_psf_header m psf_header then fail tt else do
      glyphs_buf ← or_null (get_psf_glyphs psf_file (glyphs_buf_sz m psf_header))
      psf_font ← or_null (call_for (efi.allocate_pool psf_font_sz))
      pure (record {
        address = psf_font;
        psf_header = psf_header;
        glyph_height = 16;
        glyph_width = 8;
        glyph_buffer = glyphs_buf;
      })
