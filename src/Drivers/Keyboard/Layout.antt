-- ===== src/Drivers/Keyboard/Layout.antt =====
-- The layout in the switch of `read_key` of kernel/src/drivers/keyboard.cpp.
use print_os.Base.{
  ℕ, zero, suc, ◌+◌, ◌-◌, ◌≤◌, ◌<◌, ◌≡◌, refl, sym, ap, subst, ◌∙◌, Bool, true, false, not, ◌&&◌,
  ◌||◌, List, [], ◌∷◌, arith, ◌==◌, leb, if◌then◌else◌, Bool-cases, inl, inr,
}
use native.Mathlib.Decide.{ℕ_discrete}
use mathlib.Core.Option.{Option, none, some}
use print_os.Drivers.Keyboard.{
  Keyboard, Key, cases, lookup, key, press, read_key, mod_letter, mod_special,
}

-- A letter is given in both cases; the other keys give printable characters, or control codes.
unfoldable pub is_sound : Key → Bool
is_sound (Key.special c m) = leb 33 c && leb c 126 && leb 33 m && leb m 126 && not (c == m)
is_sound (Key.letter c m) = leb 65 m && leb m 90 && (c == m + 32)
is_sound (Key.control c) = leb c 32
is_sound Key.shift_in = true
is_sound Key.shift_out = true
is_sound Key.capslock_in = true
is_sound Key.other = true

unfoldable pub all_sound : List (ℕ × Key) → Bool
unfolding is_sound
all_sound [] = true
all_sound (c ∷ cs) = is_sound c.1 && all_sound cs

lookup-is_sound :
    (cs : List (ℕ × Key)) (code : ℕ) → all_sound cs ≡ true → is_sound (lookup cs code) ≡ true
unfolding all_sound lookup is_sound
lookup-is_sound [] code h = refl
lookup-is_sound (c ∷ cs) code h =
    let t : all_sound cs ≡ true = ground arith in
    let v : is_sound c.1 ≡ true = ground arith in
    let u = lookup-is_sound cs code t in
    elim (Bool-cases (code == c.0)) [
      | inl e ↦ ap (λ b. is_sound (if b then c.1 else lookup cs code)) e ∙ v
      | inr e ↦ ap (λ b. is_sound (if b then c.1 else lookup cs code)) e ∙ u
    ]

cases_sound : all_sound cases ≡ true
unfolding all_sound is_sound
cases_sound = refl

abbrev pub capital : Keyboard → Bool
capital kb = (kb.shift || kb.capslock) && not (kb.shift && kb.capslock)

-- A key that is a letter in the switch gives the capital, of code 65 to 90, if one of shift and
-- caps lock is on, but not both, and otherwise the small letter, whose code is 32 above; the
-- modifiers stay.
pub read_key_letter :
    (code chr mod_chr : ℕ) (kb : Keyboard)
    → key code ≡ Key.letter chr mod_chr
    → (read_key code kb ≡ (if capital kb then mod_chr else chr, kb))
      × (chr ≡ mod_chr + 32)
      × (65 ≤ mod_chr)
      × (mod_chr ≤ 90)
unfolding read_key press mod_letter is_sound key
read_key_letter code chr mod_chr kb e =
    let sound : is_sound (Key.letter chr mod_chr) ≡ true =
      subst (λ k. is_sound k ≡ true) e (lookup-is_sound cases code cases_sound) in
    let run : read_key code kb ≡ press (Key.letter chr mod_chr) kb = ap (λ k. press k kb) e in
    (run ∙ ground arith, ground arith, ground arith, ground arith)

-- Whether some code gives the character, alone or with shift.
unfoldable find_code : List (ℕ × Key) → (chr : ℕ) → Option ℕ
find_code [] chr = none
find_code (c ∷ cs) chr =
    let up = press c.1 (record { shift = true; capslock = false }) in
    let down = press c.1 (record { shift = false; capslock = false }) in
    let rest = find_code cs chr in if up.0 == chr || down.0 == chr then some c.0 else rest

typed : (chr code : ℕ) → Bool
typed chr code =
    (read_key code (record { shift = true; capslock = false })).0 == chr
    || (read_key code (record { shift = false; capslock = false })).0 == chr

typed_some : (chr : ℕ) → Option ℕ → Bool
unfolding typed
typed_some chr none = false
typed_some chr (some code) = typed chr code

all_typed : ℕ → Bool
unfolding typed_some find_code
all_typed zero = true
all_typed (suc k) = typed_some (32 + k) (find_code cases (32 + k)) && all_typed k

printable_typed : all_typed 95 ≡ true
unfolding all_typed typed_some find_code typed read_key press lookup key mod_letter mod_special
printable_typed = refl

typed_some-typed :
    (chr : ℕ) (o : Option ℕ) → typed_some chr o ≡ true → (code : ℕ) × (typed chr code ≡ true)
unfolding typed_some
typed_some-typed chr none h = ground arith
typed_some-typed chr (some code) h = (code, h)

all_typed-typed : (n i : ℕ) → i < n → all_typed n ≡ true → (code : ℕ) × (typed (32 + i) code ≡ true)
unfolding all_typed typed_some
all_typed-typed zero i l h = ground arith
all_typed-typed (suc n) i l h = elim (ℕ_discrete i n) [
  | yes e ↦
      subst (λ j. (code : ℕ) × (typed (32 + j) code ≡ true)) (sym e)
        (typed_some-typed (32 + n) (find_code cases (32 + n)) (ground arith))
  | no ne ↦ all_typed-typed n i (ground arith) (ground arith)
]

-- Every character from 32 to 126 can be typed: with caps lock off, some scan code gives it, with
-- shift up or down.
pub read_key_printable :
    (chr : ℕ)
    → 32 ≤ chr
    → chr < 127
    → (code : ℕ) × (shift : Bool) × ((read_key code (record { shift = shift; capslock = false })).0
        ≡ chr)
unfolding typed
read_key_printable chr lo hi =
    let (code, t) = all_typed-typed 95 (chr - 32) (omega arith) printable_typed in
    let same : 32 + (chr - 32) ≡ chr = omega arith in
    elim (Bool-cases
      ((read_key code (record { shift = true; capslock = false })).0 == 32 + (chr - 32))) [
        | inl e ↦ (code, true, ground arith)
        | inr e ↦ (code, false, ground arith)
      ]
