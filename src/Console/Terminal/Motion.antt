-- ===== src/Console/Terminal/Motion.antt =====
-- How a character moves the cursor of `Console` (kernel/src/console/console.cpp).
use print_os.Base.{
  ℕ, ◌+◌, ◌-◌, ◌%◌, ◌^◌, ◌≡◌, refl, ap, ◌∙◌, ◌&&◌, leb, if◌then◌else◌, ◌==◌, Bool, true, false,
}
use print_os.Console.Cursor.{ConsoleCursor, next, back, cr, lf, gotoxy}
use print_os.Console.Terminal.{
  Console, clear_line, scroll_down, make_room, put_char, control_char, backspace, print_char,
  on_cursor,
}

-- The cursor after the test at the start of `_print_char`, and after the whole of it.
unfoldable pub roomy : ConsoleCursor → ConsoleCursor
unfolding gotoxy
roomy c = if c.max_row == c.row then gotoxy c.col ((c.row + 2 ^ 16 - 1) % 2 ^ 16) c else c

unfoldable pub moved_control : (chr : ℕ) → ConsoleCursor → ConsoleCursor
unfolding roomy next back cr lf
moved_control chr k =
    if chr == 10
    then cr (lf k)
    else if chr == 9
    then next (next (next k))
    else if chr == 13
    then cr k
    else if chr == 8
    then back (next (roomy (back k)))
    else k

unfoldable pub moved : (chr : ℕ) → ConsoleCursor → ConsoleCursor
unfolding roomy next moved_control
moved chr c = if leb 32 chr && leb chr 127 then next (roomy c) else moved_control chr (roomy c)

if-cursor :
    (b : Bool) (x y : Console) → (if b then x else y).cursor ≡ (if b then x.cursor else y.cursor)
if-cursor true x y = refl
if-cursor false x y = refl

make_room-cursor : (c : Console) → (make_room c).cursor ≡ roomy c.cursor
unfolding make_room scroll_down clear_line roomy gotoxy
make_room-cursor c = if-cursor (c.cursor.max_row == c.cursor.row) (scroll_down c) c

control_char-cursor :
    (chr : ℕ) (c : Console) → (control_char chr c).cursor ≡ moved_control chr c.cursor
unfolding control_char backspace put_char moved_control
control_char-cursor chr c =
    let k = c.cursor in
    let b4 : (if chr == 8 then backspace c else c).cursor
        ≡ (if chr == 8 then back (next (roomy (back k))) else k) =
      if-cursor (chr == 8) (backspace c) c
      ∙ ap (λ z. if chr == 8 then back (next z) else k) (make_room-cursor (on_cursor back c)) in
    if-cursor (chr == 10) _ _
    ∙ ap (λ z. if chr == 10 then cr (lf k) else z)
        (if-cursor (chr == 9) _ _
          ∙ ap (λ z. if chr == 9 then next (next (next k)) else z)
              (if-cursor (chr == 13) _ _ ∙ ap (λ z. if chr == 13 then cr k else z) b4))

-- The cursor moves the same way whatever the framebuffer and the font are.
pub print_char-cursor : (chr : ℕ) (c : Console) → (print_char chr c).cursor ≡ moved chr c.cursor
unfolding print_char put_char moved
print_char-cursor chr c =
    if-cursor (leb 32 chr && leb chr 127) _ _
    ∙ ap (λ z. if leb 32 chr && leb chr 127 then next (make_room c).cursor else z)
        (control_char-cursor chr (make_room c))
    ∙ ap (λ z. if leb 32 chr && leb chr 127 then next z else moved_control chr z)
        (make_room-cursor c)
