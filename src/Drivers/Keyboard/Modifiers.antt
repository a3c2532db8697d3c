-- ===== src/Drivers/Keyboard/Modifiers.antt =====
-- The modifier keys of kernel/src/drivers/keyboard.cpp over a sequence of scan codes.
use print_os.Base.{
  ℕ, ◌≡◌, refl, ap, ◌∙◌, Bool, true, false, not, ◌||◌, List, [], ◌∷◌, arith, ◌==◌, if◌then◌else◌,
  Bool-cases, ◌&&◌, sym, subst, inl, inr,
}
use native.Mathlib.Decide.{ℕ_discrete}
use print_os.Drivers.Keyboard.{Keyboard, Key, cases, lookup, key, press, read_key}

-- The keyboard after a sequence of scan codes.
unfoldable pub run : List ℕ → Keyboard → Keyboard
run [] kb = kb
run (code ∷ codes) kb = run codes (read_key code kb).1

-- Whether a shift key is down: the last shift code decides.
unfoldable pub held : List ℕ → Bool → Bool
held [] down = down
held (code ∷ codes) down = held codes (
    if code == 0x2a || code == 0x36
    then true
    else if code == 0xaa || code == 0xb6
    then false
    else down)

-- Every caps lock code turns the lock over.
unfoldable pub turned : List ℕ → Bool → Bool
turned [] lock = lock
turned (code ∷ codes) lock = turned codes (if code == 0x3a then not lock else lock)

-- Which modifier a branch of the switch is for, and which one a code is of.
tag : Key → ℕ
tag Key.shift_in = 1
tag Key.shift_out = 2
tag Key.capslock_in = 3
tag (Key.special c m) = 0
tag (Key.letter c m) = 0
tag (Key.control c) = 0
tag Key.other = 0

code_tag : ℕ → ℕ
code_tag code =
    if code == 0x2a || code == 0x36
    then 1
    else if code == 0xaa || code == 0xb6
    then 2
    else if code == 0x3a
    then 3
    else 0

all_tagged : List (ℕ × Key) → Bool
unfolding tag code_tag
all_tagged [] = true
all_tagged (c ∷ cs) = (tag c.1 == code_tag c.0) && all_tagged cs

cases_tagged : all_tagged cases ≡ true
unfolding all_tagged tag code_tag
cases_tagged = refl

-- A code that is of no modifier is not given one.
lookup_plain :
    (cs : List (ℕ × Key)) (code : ℕ)
    → all_tagged cs ≡ true
    → code_tag code ≡ 0
    → tag (lookup cs code) ≡ 0
unfolding all_tagged lookup tag
lookup_plain [] code a z = refl
lookup_plain (c ∷ cs) code a z =
    let t : all_tagged cs ≡ true = ground arith in
    let same : tag c.1 ≡ code_tag c.0 = ground arith in
    elim (Bool-cases (code == c.0)) [
      | inl e ↦
          let at : code ≡ c.0 = ground arith in
          ap (λ b. tag (if b then c.1 else lookup cs code)) e ∙ same ∙ ap code_tag (sym at) ∙ z
      | inr e ↦ ap (λ b. tag (if b then c.1 else lookup cs code)) e ∙ lookup_plain cs code t z
    ]

tag-key : (code : ℕ) → tag (key code) ≡ code_tag code
unfolding key code_tag tag lookup
tag-key code = elim (ℕ_discrete code 0x2a) [
  | yes e ↦ subst (λ c. tag (key c) ≡ code_tag c) (sym e) refl
  | no n1 ↦ elim (ℕ_discrete code 0x36) [
    | yes e ↦ subst (λ c. tag (key c) ≡ code_tag c) (sym e) refl
    | no n2 ↦ elim (ℕ_discrete code 0xaa) [
      | yes e ↦ subst (λ c. tag (key c) ≡ code_tag c) (sym e) refl
      | no n3 ↦ elim (ℕ_discrete code 0xb6) [
        | yes e ↦ subst (λ c. tag (key c) ≡ code_tag c) (sym e) refl
        | no n4 ↦ elim (ℕ_discrete code 0x3a) [
          | yes e ↦ subst (λ c. tag (key c) ≡ code_tag c) (sym e) refl
          | no n5 ↦
              let z : code_tag code ≡ 0 = ground arith in
              lookup_plain cases code cases_tagged z ∙ sym z
        ]
      ]
    ]
  ]
]

abbrev pressed : ℕ → Keyboard → Keyboard
pressed t kb = record {
  shift = if t == 1 then true else if t == 2 then false else kb.shift;
  capslock = if t == 3 then not kb.capslock else kb.capslock;
}

press-tag : (k : Key) (kb : Keyboard) → (press k kb).1 ≡ pressed (tag k) kb
unfolding press tag
press-tag (Key.special c m) kb = refl
press-tag (Key.letter c m) kb = refl
press-tag (Key.control c) kb = refl
press-tag Key.shift_in kb = refl
press-tag Key.shift_out kb = refl
press-tag Key.capslock_in kb = refl
press-tag Key.other kb = refl

one_key : (code : ℕ) (kb : Keyboard) → (read_key code kb).1 ≡ pressed (code_tag code) kb
unfolding read_key
one_key code kb = press-tag (key code) kb ∙ ap (λ t. pressed t kb) (tag-key code)

same_step :
    (code : ℕ) (kb : Keyboard)
    → ◌≡◌ {A = Keyboard} (pressed (code_tag code) kb) (record {
      shift =
          if code == 0x2a || code == 0x36
          then true
          else if code == 0xaa || code == 0xb6
          then false
          else kb.shift;
      capslock = if code == 0x3a then not kb.capslock else kb.capslock;
    })
unfolding code_tag
same_step code kb = ground arith

-- After any sequence of scan codes, shift is as the last shift code says, whatever else was
-- pressed, and caps lock has been turned over once for each of its codes.
pub run_lem :
    (codes : List ℕ) (kb : Keyboard)
    → run codes kb ≡ record { shift = held codes kb.shift; capslock = turned codes kb.capslock }
unfolding run held turned code_tag
run_lem [] kb = refl
run_lem (code ∷ codes) kb =
    ap (run codes) (one_key code kb)
    ∙ run_lem codes (pressed (code_tag code) kb)
    ∙ ap
        (λ (p : Keyboard). record {
          shift = held codes p.shift;
          capslock = turned codes p.capslock;
        })
        (same_step code kb)
