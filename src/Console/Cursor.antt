-- ===== src/Console/Cursor.antt =====
-- `ConsoleCursor` of kernel/src/console/console.{hpp,cpp}. Rows and columns are `u16`.
use print_os.Base.{ℕ, ◌+◌, ◌-◌, ◌%◌, ◌^◌, ltb, if◌then◌else◌}
use print_os.Console.Framebuffer.{black, white}

pub record ConsoleCursor : Type 0 where
  pub row : ℕ
  pub col : ℕ
  pub fg : ℕ
  pub bg : ℕ
  pub max_col : ℕ
  pub max_row : ℕ

abbrev pub u16_mod : ℕ
u16_mod = 2 ^ 16

-- The constructor and `reset`, which it calls: every field is set.
abbrev pub reset : ConsoleCursor
reset = record { row = 0; col = 0; fg = white; bg = black; max_col = 100; max_row = 37 }

abbrev pub row_down : ConsoleCursor → ConsoleCursor
row_down c = record c { row = (c.row + 1) % u16_mod }

unfoldable pub next : ConsoleCursor → ConsoleCursor
next c =
    if ltb (c.col + 1) c.max_col
    then record c { col = (c.col + 1) % u16_mod }
    else record (row_down c) { col = 0 }

unfoldable pub back : ConsoleCursor → ConsoleCursor
back c = if ltb 0 c.col then record c { col = c.col - 1 } else record c {
  col = (c.max_col + u16_mod - 1) % u16_mod;
  row = (c.row + u16_mod - 1) % u16_mod;
}

unfoldable pub cr : ConsoleCursor → ConsoleCursor
cr c = record c { col = 0 }

unfoldable pub lf : ConsoleCursor → ConsoleCursor
lf c = row_down c

unfoldable pub gotoxy : (x y : ℕ) → ConsoleCursor → ConsoleCursor
gotoxy x y c = record c { col = x; row = y }

unfoldable pub set_bg : ℕ → ConsoleCursor → ConsoleCursor
set_bg color c = record c { bg = color }

unfoldable pub set_fg : ℕ → ConsoleCursor → ConsoleCursor
set_fg color c = record c { fg = color }
