-- ===== src/Console/Terminal/Bounds.antt =====
-- Where the cursor of `Console` (kernel/src/console/console.cpp) can be.
use print_os.Base.{
  ℕ, ◌+◌, ◌-◌, ◌%◌, ◌^◌, ◌≤◌, ◌<◌, ◌≡◌, refl, sym, ap, subst, ◌∙◌, ◌⊎◌, inl, inr, ◌&&◌, ltb, leb,
  if◌then◌else◌, arith, ◌==◌, Bool, true, false, Bool-cases,
}
use print_os.Console.Cursor.{ConsoleCursor, next, back, cr, lf, gotoxy}
use print_os.Console.Terminal.{Console, print_char}
use print_os.Console.Terminal.Motion.{roomy, moved_control, moved, print_char-cursor}

-- The column is on the screen; the row is, or is the one below it, which the next character
-- scrolls into view. A tab has room in a row.
pub record InRange (c : ConsoleCursor) : Type 0 where
  pub col : c.col < c.max_col
  pub row : c.row ≤ c.max_row
  pub cols : 3 ≤ c.max_col
  pub col_word : c.max_col < 2 ^ 16
  pub rows : 1 ≤ c.max_row
  pub row_word : c.max_row < 2 ^ 16

abbrev pub at_origin : ConsoleCursor → Bool
at_origin c = (c.row == 0) && (c.col == 0)

record Room (c : ConsoleCursor) : Type 0 where
  in_range : InRange c
  room : c.row < c.max_row

-- A cursor with the sizes of one that is in range.
module _ (c : ConsoleCursor) (r : InRange c) where
  sized :
      (row col : ℕ)
      → col < c.max_col
      → row ≤ c.max_row
      → InRange (record c { row = row; col = col })
  sized row col l m = record {
    col = l;
    row = m;
    cols = r.cols;
    col_word = r.col_word;
    rows = r.rows;
    row_word = r.row_word;
  }

roomy-Room : (c : ConsoleCursor) → InRange c → Room (roomy c)
unfolding roomy gotoxy
roomy-Room c r = elim (Bool-cases (c.max_row == c.row)) [
  | inl e ↦
      let low : (c.row + 2 ^ 16 - 1) % 2 ^ 16 < c.max_row = ground (arith, r.rows, r.row_word) in
      let row = (c.row + 2 ^ 16 - 1) % 2 ^ 16 in
      let t : Room (record c { row = row }) = record {
        in_range = sized c r row c.col r.col (omega arith);
        room = low;
      } in
      subst (λ b. Room (if b then gotoxy c.col row c else c)) (sym e) t
  | inr e ↦
      let t : Room c = record { in_range = r; room = ground (arith, r.row) } in
      subst (λ b. Room (if b then gotoxy c.col ((c.row + 2 ^ 16 - 1) % 2 ^ 16) c else c)) (sym e) t
]

next-cases :
    (c : ConsoleCursor)
    → Room c
    → (Room (next c) × (next c ≡ record c { col = c.col + 1 }))
      ⊎ (InRange (next c) × (next c ≡ record c { col = 0; row = c.row + 1 }))
unfolding next
next-cases c r =
    let g = r.in_range in
    elim (Bool-cases (ltb (c.col + 1) c.max_col)) [
      | inl e ↦
          let eq : next c ≡ record c { col = c.col + 1 } = ground (arith, g.col, g.col_word) in
          let t : Room (record c { col = c.col + 1 }) = record {
            in_range = sized c g c.row (c.col + 1) (ground arith) g.row;
            room = r.room;
          } in
          inl (subst Room (sym eq) t, eq)
      | inr e ↦
          let eq : next c ≡ record c { col = 0; row = c.row + 1 } =
            ground (arith, r.room, g.row_word) in
          inr (
            subst InRange (sym eq)
                (sized c g (c.row + 1) 0 (omega (arith, g.cols)) (omega (arith, r.room))),
            eq,
          )
    ]

-- A step within the row.
next-within :
    (c : ConsoleCursor)
    → InRange c
    → c.col + 1 < c.max_col
    → InRange (next c) × (next c ≡ record c { col = c.col + 1 })
unfolding next
next-within c g l =
    let eq : next c ≡ record c { col = c.col + 1 } = ground (arith, g.col, g.col_word) in
    (subst InRange (sym eq) (sized c g c.row (c.col + 1) l g.row), eq)

next-InRange : (c : ConsoleCursor) → Room c → InRange (next c)
next-InRange c r = elim (next-cases c r) [ inl h ↦ h.0.in_range | inr h ↦ h.0 ]

two-InRange :
    (c : ConsoleCursor) (row : ℕ)
    → InRange (record c { col = 0; row = row })
    → InRange (next (next (record c { col = 0; row = row })))
two-InRange c row g =
    let (g1, e1) = next-within (record c { col = 0; row = row }) g (omega (arith, g.cols)) in
    subst (λ k. InRange (next k)) (sym e1)
      (next-within (record c { col = 0 + 1; row = row }) (subst InRange e1 g1)
        (omega (arith, g.cols))).0

tab-InRange : (c : ConsoleCursor) → Room c → InRange (next (next (next c)))
tab-InRange c r = elim (next-cases c r) [
  | inl h ↦ elim (next-cases (next c) h.0) [
    | inl h2 ↦ next-InRange (next (next c)) h2.0
    | inr h2 ↦
        let g = subst InRange h2.1 h2.0 in
        subst (λ k. InRange (next k)) (sym h2.1) (next-within _ g (omega (arith, g.cols))).0
  ]
  | inr h ↦
      subst (λ k. InRange (next (next k))) (sym h.1)
        (two-InRange c (c.row + 1) (subst InRange h.1 h.0))
]

-- From a cursor in range that is not in the top left corner, `back` and then `next` lead to the
-- same cursor.
pub next-back : (c : ConsoleCursor) → InRange c → at_origin c ≡ false → next (back c) ≡ c
unfolding next back
next-back c g o = elim (Bool-cases (ltb 0 c.col)) [
  | inl e ↦
      let eq : back c ≡ record c { col = c.col - 1 } = ground arith in
      let t : next (record c { col = c.col - 1 }) ≡ c = ground (arith, g.col, g.col_word) in
      ap next eq ∙ t
  | inr e ↦
      let eq : back c ≡ record c { col = c.max_col - 1; row = c.row - 1 } =
        ground (arith, g.cols, g.col_word, g.row, g.row_word) in
      let t : next (record c { col = c.max_col - 1; row = c.row - 1 }) ≡ c =
        ground (arith, g.cols, g.col_word, g.row, g.row_word) in
      ap next eq ∙ t
]

back-Room : (c : ConsoleCursor) → Room c → at_origin c ≡ false → Room (back c)
unfolding back
back-Room c r o =
    let g = r.in_range in
    elim (Bool-cases (ltb 0 c.col)) [
      | inl e ↦
          let eq : back c ≡ record c { col = c.col - 1 } = ground arith in
          subst Room (sym eq) (record {
            in_range = sized c g c.row (c.col - 1) (omega (arith, g.col)) g.row;
            room = r.room;
          })
      | inr e ↦
          let eq : back c ≡ record c { col = c.max_col - 1; row = c.row - 1 } =
            ground (arith, g.cols, g.col_word, r.room, g.row_word) in
          subst Room (sym eq) (record {
            in_range =
                sized c g (c.row - 1) (c.max_col - 1) (omega (arith, g.cols))
                  (omega (arith, g.row));
            room = omega (arith, r.room);
          })
    ]

roomy-same : (c : ConsoleCursor) → Room c → roomy c ≡ c
unfolding roomy
roomy-same c r = ground (arith, r.room)

-- A backspace prints a space where it stepped to, and steps back again.
erase-InRange :
    (c : ConsoleCursor) → Room c → at_origin c ≡ false → InRange (back (next (roomy (back c))))
erase-InRange c r o =
    let b = back-Room c r o in
    subst (λ k. InRange (back (next k))) (sym (roomy-same (back c) b))
      (subst (λ k. InRange (back k)) (sym (next-back c r.in_range o)) b.in_range)

if-InRange :
    (b : Bool) (x y : ConsoleCursor)
    → (b ≡ true → InRange x)
    → (b ≡ false → InRange y)
    → InRange (if b then x else y)
if-InRange true x y f g = f refl
if-InRange false x y f g = g refl

lf-InRange : (c : ConsoleCursor) → Room c → InRange (cr (lf c))
unfolding cr lf
lf-InRange c r =
    let g = r.in_range in
    sized c g ((c.row + 1) % 2 ^ 16) 0 (omega (arith, g.cols)) (ground (arith, r.room, g.row_word))

cr-InRange : (c : ConsoleCursor) → InRange c → InRange (cr c)
unfolding cr
cr-InRange c g = sized c g c.row 0 (omega (arith, g.cols)) g.row

moved_control-InRange :
    (chr : ℕ) (c : ConsoleCursor)
    → Room c
    → ((chr == 8) && at_origin c) ≡ false
    → InRange (moved_control chr c)
unfolding moved_control
moved_control-InRange chr c r o =
    if-InRange (chr == 10) _ _ (λ _. lf-InRange c r)
      (λ _.
        if-InRange (chr == 9) _ _ (λ _. tab-InRange c r)
          (λ _.
            if-InRange (chr == 13) _ _ (λ _. cr-InRange c r.in_range)
              (λ _.
                if-InRange (chr == 8) _ _
                  (λ e. erase-InRange c r (ap (λ b. b && at_origin c) (sym e) ∙ o))
                  (λ _. r.in_range))))

-- `_print_char` keeps the cursor in range: the column on the screen, the row on it or just below.
-- The one exception is a backspace at the top left corner, where the cursor is taken after the
-- scroll, if there is one.
pub print_char-InRange :
    (chr : ℕ) (c : Console)
    → InRange c.cursor
    → ((chr == 8) && at_origin (roomy c.cursor)) ≡ false
    → InRange (print_char chr c).cursor
unfolding moved
print_char-InRange chr c g o =
    let r = roomy-Room c.cursor g in
    let printed = next-InRange (roomy c.cursor) r in
    let other = moved_control-InRange chr (roomy c.cursor) r o in
    subst InRange (sym (print_char-cursor chr c))
      (if-InRange (leb 32 chr && leb chr 127) _ _ (λ _. printed) (λ _. other))
