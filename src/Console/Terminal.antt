-- ===== src/Console/Terminal.antt =====
-- `Console` of kernel/src/console/console.{hpp,cpp}: text on the framebuffer. The record holds the
-- object, what its references lead to, and memory. A `char` is its byte: those from 128 on are
-- negative there, and neither printable nor a case of the switch.
pub mod Motion
pub mod Bounds
pub mod Scroll
use print_os.Base.{
  ℕ, zero, suc, ◌+◌, ◌-◌, ◌*◌, ◌%◌, ◌^◌, ◌&&◌, Option, none, some, ◌==◌, leb, if◌then◌else◌,
  u64_mod,
}
use print_os.Mem.{Mem, read8}
use print_os.Libc.MemOps.{memcpy}
use print_os.Console.Framebuffer.{
  Framebuffer, Glyph, black, get_pixel_addr, set_pixel, set_all_pixels, print_glyph, draw,
}
use print_os.Console.Cursor.{ConsoleCursor, u16_mod, reset, next, back, cr, lf, gotoxy}

-- The font; `charsize` is a field of the header that the source points to.
pub record ConsoleFont : Type 0 where
  pub charsize : ℕ
  pub glyph_height : ℕ
  pub glyph_width : ℕ
  pub glyph_buffer : ℕ

pub record Console : Type 0 where
  pub font : ConsoleFont
  pub framebuffer : Framebuffer
  pub cursor : ConsoleCursor
  pub mem : Mem

-- The constructor.
unfoldable pub create : ConsoleFont → Framebuffer → Mem → Console
create font fb m = record { font = font; framebuffer = fb; cursor = reset; mem = m }

unfoldable pub clear : Console → Console
clear c = record c {
  mem = draw c.framebuffer (set_all_pixels c.framebuffer black c.mem);
  cursor = reset;
}

-- The inner loop of `clear_line`.
unfoldable pub clear_column : Framebuffer → (x top rounds y : ℕ) → Mem → Mem
clear_column fb x top zero y m = m
clear_column fb x top (suc k) y m =
    clear_column fb x top k (y + 1) (set_pixel fb x (top + y) black m)

unfoldable pub clear_columns : Framebuffer → (top height rounds x : ℕ) → Mem → Mem
clear_columns fb top height zero x m = m
clear_columns fb top height (suc k) x m =
    clear_columns fb top height k (x + 1) (clear_column fb x top height 0 m)

unfoldable pub clear_line : (line : ℕ) → Console → Console
clear_line line c =
    let fb = c.framebuffer in
    let height = c.font.glyph_height in
    record c { mem = draw fb (clear_columns fb (line * height) height fb.width 0 c.mem) }

-- The `memcpy` of `_scroll_down`.
unfoldable pub move_up : Console → Mem
move_up c =
    let fb = c.framebuffer in
    let start = get_pixel_addr fb 0 c.font.glyph_height in
    let size = (start + u64_mod - fb.double_fb_addr) % u64_mod in
    memcpy c.mem fb.double_fb_addr start ((fb.b_size + u64_mod - size) % u64_mod)

unfoldable pub scroll_down : Console → Console
scroll_down c = clear_line ((c.cursor.max_row + u16_mod - 1) % u16_mod) (record c {
  mem = move_up c;
  cursor = gotoxy c.cursor.col ((c.cursor.row + u16_mod - 1) % u16_mod) c.cursor;
})

-- The test at the start of `_print_char`.
unfoldable pub make_room : Console → Console
make_room c = if c.cursor.max_row == c.cursor.row then scroll_down c else c

-- The glyph of a character at the cursor.
unfoldable pub glyph : (chr : ℕ) → Console → Glyph
glyph chr c = record {
  bitmap = c.font.glyph_buffer + chr * c.font.charsize;
  x_off = c.cursor.col * c.font.glyph_width % u16_mod;
  y_off = c.cursor.row * c.font.glyph_height % u16_mod;
  height = c.font.glyph_height;
  width = c.font.glyph_width;
  fg_color = c.cursor.fg % 2 ^ 32;
  bg_color = c.cursor.bg % 2 ^ 32;
}

-- The branch of a printable character.
unfoldable pub put_char : (chr : ℕ) → Console → Console
put_char chr c = record c {
  mem = print_glyph c.framebuffer (glyph chr c) c.mem;
  cursor = next c.cursor;
}

abbrev pub on_cursor : (ConsoleCursor → ConsoleCursor) → Console → Console
on_cursor f c = record c { cursor = f c.cursor }

-- The branch of a backspace, in which `_print_char` calls itself with a space.
unfoldable pub backspace : Console → Console
backspace c = on_cursor back (put_char 32 (make_room (on_cursor back c)))

-- The switch over the other characters.
unfoldable pub control_char : (chr : ℕ) → Console → Console
control_char chr c =
    if chr == 10
    then on_cursor (λ k. cr (lf k)) c
    else if chr == 9
    then on_cursor (λ k. next (next (next k))) c
    else if chr == 13
    then on_cursor cr c
    else if chr == 8
    then backspace c
    else c

unfoldable pub print_char : (chr : ℕ) → Console → Console
print_char chr c =
    let c' = make_room c in
    if leb 32 chr && leb chr 127 then put_char chr c' else control_char chr c'

-- `print(char)`.
unfoldable pub print : (chr : ℕ) → Console → Console
print chr c = let c' = print_char chr c in record c' { mem = draw c'.framebuffer c'.mem }

-- The loop of `print(char *)`, at most `fuel` characters.
unfoldable pub print_loop : (fuel str : ℕ) → Console → Option Console
print_loop zero str c = none
print_loop (suc k) str c =
    let rest = print_loop k (str + 1) (print_char (read8 c.mem str) c) in
    if read8 c.mem str == 0 then some c else rest

abbrev pub drawn : Option Console → Option Console
drawn none = none
drawn (some c) = some (record c { mem = draw c.framebuffer c.mem })

-- `print(char *)`.
unfoldable pub print_string : (fuel str : ℕ) → Console → Option Console
print_string fuel str c = drawn (print_loop fuel str c)
