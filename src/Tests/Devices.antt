-- ===== src/Tests/Devices.antt =====
-- The theorems on kernel/src/drivers, kernel/src/framebuffer and kernel/src/console at concrete
-- inputs.
use print_os.Base.{
  ℕ, ◌+◌, ◌-◌, ◌≡◌, refl, Bool, true, false, ◌&&◌, [], ◌∷◌, arith, ltb, leb, if◌then◌else◌,
}
use print_os.Drivers.Keyboard.{Keyboard, Key, lookup, key, read_key}
use print_os.Drivers.Keyboard.Modifiers.{run, held, turned, run_lem}
use print_os.Drivers.Keyboard.Layout.{read_key_printable}
use print_os.Console.Framebuffer.{Framebuffer}
use print_os.Console.Cursor.{reset, gotoxy}
use print_os.Console.Terminal.{Console, move_up, print_char}
use print_os.Console.Terminal.Bounds.{InRange, print_char-InRange}
use print_os.Console.Terminal.Motion.{roomy}
use print_os.Console.Terminal.Scroll.{line_sz, move_up_lem}

abbrev keyboard : Keyboard
keyboard = record { shift = false; capslock = true }

run_lem_example : run (0x2a ∷ 0x1e ∷ 0x3a ∷ []) keyboard ≡ record {
  shift = held (0x2a ∷ 0x1e ∷ 0x3a ∷ []) false;
  capslock = turned (0x2a ∷ 0x1e ∷ 0x3a ∷ []) true;
}
run_lem_example = run_lem (0x2a ∷ 0x1e ∷ 0x3a ∷ []) keyboard

key_a : key 0x1e ≡ Key.letter 97 65
unfolding key lookup
key_a = refl

read_key_printable_example :
    (code : ℕ) × (shift : Bool) × ((read_key code (record { shift = shift; capslock = false })).0
      ≡ 63)
read_key_printable_example = read_key_printable 63 (omega arith) (omega arith)

-- A screen of 800 by 592 pixels of four bytes, with glyphs of 8 by 16.
abbrev screen : Framebuffer
screen = record {
  fb_addr = 0x8000000;
  double_fb_addr = 0x4000000;
  b_size = 1894400;
  width = 800;
  height = 592;
  px_per_scan = 800;
  b_per_px = 4;
}

abbrev console : Console
console = record {
  font = record { charsize = 16; glyph_height = 16; glyph_width = 8; glyph_buffer = 0x100000 };
  framebuffer = screen;
  cursor = reset;
  mem = λ q. 7;
}

-- The cursor at the end of the row below the screen.
abbrev low : Console
low = record console { cursor = record reset { row = 37; col = 99 } }

low-InRange : InRange low.cursor
low-InRange = record {
  col = omega arith;
  row = omega arith;
  cols = omega arith;
  col_word = omega arith;
  rows = omega arith;
  row_word = omega arith;
}

print_char-InRange_example : InRange (print_char 8 low).cursor
unfolding roomy gotoxy
print_char-InRange_example = print_char-InRange 8 low low-InRange refl

move_up_lem_example : move_up console 0x4000000 ≡ (
    if leb 0x4000000 0x4000000 && ltb 0x4000000 (0x4000000 + (1894400 - line_sz console))
    then console.mem (0x4000000 + line_sz console)
    else console.mem 0x4000000)
move_up_lem_example =
    move_up_lem console 0x4000000 (λ q. omega arith) (omega arith) (omega arith) (omega arith)
