-- ===== src/Console/Framebuffer.antt =====
-- kernel/src/framebuffer: pixels and glyphs, drawn in memory. The methods return the new memory.
pub mod Pixels
use print_os.Base.{
  ℕ, zero, suc, ◌+◌, ◌*◌, ◌/◌, ◌%◌, ◌^◌, Option, none, some, ◌==◌, ltb, if◌then◌else◌, bit_and,
  u64_mod,
}
use print_os.Mem.{Mem, read8, write8}
use print_os.Libc.MemOps.{memcpy}

unfoldable pub rgb_to_int : (red green blue : ℕ) → ℕ
rgb_to_int red green blue = blue + green * 2 ^ 8 + red * 2 ^ 16

abbrev pub black : ℕ
black = 0

abbrev pub white : ℕ
white = 0xffffff

pub record Glyph : Type 0 where
  pub bitmap : ℕ
  pub x_off : ℕ
  pub y_off : ℕ
  pub height : ℕ
  pub width : ℕ
  pub fg_color : ℕ
  pub bg_color : ℕ

pub record Framebuffer : Type 0 where
  pub fb_addr : ℕ
  pub double_fb_addr : ℕ
  pub b_size : ℕ
  pub width : ℕ
  pub height : ℕ
  pub px_per_scan : ℕ
  pub b_per_px : ℕ

-- The constructor; the argument is what `FramebufferData` holds, in the fields of the object.
unfoldable pub create : Framebuffer → Option Framebuffer
create fb = if fb.fb_addr == 0 then none else some fb

-- The offsets are products of `u32`, which wrap.
unfoldable pub get_pixel_addr : Framebuffer → (x y : ℕ) → ℕ
get_pixel_addr fb x y =
    (fb.double_fb_addr + y * fb.px_per_scan * fb.b_per_px % 2 ^ 32 + x * fb.b_per_px % 2 ^ 32)
    % u64_mod

-- `*pixel = v` for a `u64 *pixel`: `k` bytes, the lowest first.
unfoldable pub write_le : Mem → (p v k : ℕ) → Mem
write_le m p v zero = m
write_le m p v (suc k) = write_le (write8 m p v) (p + 1) (v / 256) k

unfoldable pub set_pixel : Framebuffer → (x y color : ℕ) → Mem → Mem
set_pixel fb x y color m = write_le m (get_pixel_addr fb x y) color 8

-- The inner loop of `set_all_pixels`.
unfoldable pub set_column : Framebuffer → (x color rounds y : ℕ) → Mem → Mem
set_column fb x color zero y m = m
set_column fb x color (suc k) y m = set_column fb x color k (y + 1) (set_pixel fb x y color m)

unfoldable pub set_columns : Framebuffer → (color rounds x : ℕ) → Mem → Mem
set_columns fb color zero x m = m
set_columns fb color (suc k) x m =
    set_columns fb color k (x + 1) (set_column fb x color fb.height 0 m)

unfoldable pub set_all_pixels : Framebuffer → (color : ℕ) → Mem → Mem
set_all_pixels fb color m = set_columns fb color fb.width 0 m

-- The color of pixel `x` in the row of the glyph at `bitmap`.
unfoldable pub glyph_color : Glyph → Mem → (bitmap x : ℕ) → ℕ
glyph_color g m bitmap x =
    if ltb 0 (bit_and (read8 m bitmap) (2 ^ 7 / 2 ^ x)) then g.fg_color else g.bg_color

-- The inner loop of `print_glyph`.
unfoldable pub glyph_row : Framebuffer → Glyph → (bitmap y rounds x : ℕ) → Mem → Mem
glyph_row fb g bitmap y zero x m = m
glyph_row fb g bitmap y (suc k) x m =
    glyph_row fb g bitmap y k (x + 1)
      (set_pixel fb (g.x_off + x) (g.y_off + y) (glyph_color g m bitmap x) m)

unfoldable pub glyph_rows : Framebuffer → Glyph → (bitmap rounds y : ℕ) → Mem → Mem
glyph_rows fb g bitmap zero y m = m
glyph_rows fb g bitmap (suc k) y m =
    glyph_rows fb g (bitmap + 1) k (y + 1) (glyph_row fb g bitmap y g.width 0 m)

unfoldable pub print_glyph : Framebuffer → Glyph → Mem → Mem
print_glyph fb g m = glyph_rows fb g g.bitmap g.height 0 m

unfoldable pub draw : Framebuffer → Mem → Mem
draw fb m = memcpy m fb.fb_addr fb.double_fb_addr fb.b_size
