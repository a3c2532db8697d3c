-- ===== src/Libc/Itoa/Digits.antt =====
-- The digits that the loop of `itoa` leaves in memory, least significant first.
use native.Mathlib.Nat.{div-add-mod, div-lt_iff_lt-mul, pow-suc, pow-zero, mod-lt}
use native.Mathlib.Decide.{ℕ_discrete}
use print_os.Base.{
  ℕ, zero, suc, ◌+◌, ◌-◌, ◌*◌, ◌/◌, ◌%◌, ◌^◌, ◌≤◌, ◌<◌, ◌≡◌, refl, sym, ap, subst, ◌∙◌, ◌≢◌, ◌⊎◌,
  inl, inr, some, arith, ltb, Bool-cases, leb, if◌then◌else◌,
}
use print_os.Mem.{Mem, write8}
use print_os.Libc.MemOps.Laws.{IsBytes, write8-IsBytes}
use print_os.Libc.Itoa.{digit_char, digit_loop}

-- The digit that a character stands for.
abbrev pub digit_of : ℕ → ℕ
digit_of c = if leb 97 c then c - 87 else c - 48

-- The characters that are digits of the base: '0' to '9', and 'a' and so on.
abbrev pub IsDigit : (base c : ℕ) → Type 0
IsDigit base c = ((48 ≤ c) × (c < 58) × (c < 48 + base)) ⊎ ((97 ≤ c) × (c < 87 + base))

-- The number that the `k` characters from `p` on stand for, the first the least significant.
abbrev pub little : Mem → (p base k : ℕ) → ℕ
little m p base zero = 0
little m p base (suc k) = digit_of (m p) + base * little m (p + 1) base k

-- What the loop has done from index `i` on: `k` digits of `num`, and nothing elsewhere.
pub record Digits (m : Mem) (num p base k : ℕ) (m' : Mem) : Type 0 where
  pub spells : little m' p base k ≡ num
  pub some_digit : num ≢ 0 → 0 < k
  pub digits : (j : ℕ) → j < k → IsDigit base (m' (p + j))
  pub elsewhere : (q : ℕ) → (q < p) ⊎ (p + k ≤ q) → m' q ≡ m q
  pub bytes : IsBytes m'

div_small : (num base : ℕ) (k : ℕ) → 2 ≤ base → num < 2 ^ suc k → num / base < 2 ^ k
div_small num base k h lt =
    let wide : 2 ^ k * 2 ≤ 2 ^ k * base = grind arith in
    (div-lt_iff_lt-mul {k = base} {x = num} {y = 2 ^ k} (omega arith)).1
      (omega (arith, pow-suc 2 k))

char_digit :
    (rem : ℕ)
    → rem < 36
    → (digit_of (digit_char rem) ≡ rem) × (digit_char rem < 256) × (digit_char rem ≢ 0)
char_digit rem h = ground arith

digit_char-IsDigit : (rem base : ℕ) → rem < base → IsDigit base (digit_char rem)
digit_char-IsDigit rem base h = elim (Bool-cases (ltb 9 rem)) [
  | inl big ↦ inr (ground arith)
  | inr low ↦ inl (ground arith)
]

pub IsDigit-ne-zero : (base c : ℕ) → IsDigit base c → c ≢ 0
IsDigit-ne-zero base c (inl h) = omega arith
IsDigit-ne-zero base c (inr h) = omega arith

abbrev step_mem : Mem → (num buf base i : ℕ) → Mem
step_mem m num buf base i = write8 m (buf + i) (digit_char (num % base))

-- The loop's result with one digit more in front.
Digits-step :
    (m : Mem) (num buf base i k : ℕ) (m' : Mem)
    → IsBytes m
    → 2 ≤ base
    → base ≤ 36
    → Digits (step_mem m num buf base i) (num / base) (buf + (i + 1)) base k m'
    → Digits m num (buf + i) base (suc k) m'
Digits-step m num buf base i k m' b lo hi d = record {
  spells =
      let next : buf + i + 1 ≡ buf + (i + 1) = omega arith in
      rw (here, next, d.spells)
        (omega (arith, char_digit (num % base) digit, div-add-mod num base));
  some_digit = λ h. omega arith;
  digits = all_digits;
  elsewhere = λ q h. ground (arith, d.elsewhere q);
  bytes = d.bytes;
}
  where
    digit : num % base < 36
    digit = omega (arith, mod-lt num {m = base} (omega arith))

    here : m' (buf + i) ≡ digit_char (num % base)
    here = ground (arith, d.elsewhere (buf + i), char_digit (num % base) digit)

    all_digits : (j : ℕ) → j < suc k → IsDigit base (m' (buf + i + j))
    all_digits zero h =
        let first : buf + i + 0 ≡ buf + i = omega arith in
        subst (IsDigit base) (sym (ap m' first ∙ here))
          (digit_char-IsDigit (num % base) base (mod-lt num {m = base} (omega arith)))
    all_digits (suc j) h =
        let next : buf + i + suc j ≡ buf + (i + 1) + j = omega arith in
        subst (λ t. IsDigit base (m' t)) (sym next) (d.digits j (omega arith))

module _ (k : ℕ) (m : Mem) (num buf base i : ℕ) where
  digit_loop_done : num ≡ 0 → digit_loop (suc k) m num buf base i ≡ some (m, i)
  unfolding digit_loop
  digit_loop_done h = rw h

  digit_loop_more :
      num ≢ 0
      → digit_loop (suc k) m num buf base i
        ≡ digit_loop k (step_mem m num buf base i) (num / base) buf base (i + 1)
  unfolding digit_loop
  digit_loop_more h = ground arith

Digits-zero : (m : Mem) (num p base : ℕ) → IsBytes m → num ≡ 0 → Digits m num p base 0 m
Digits-zero m num p base b e = record {
  spells = omega arith;
  some_digit = λ h. absurd (h e);
  digits = λ j h. absurd (omega arith);
  elsewhere = λ q h. refl;
  bytes = b;
}

-- With fuel for one more round than the bits of the number, the loop ends with its digits.
pub digit_loop-Digits :
    (fuel : ℕ) (m : Mem) (num buf base i : ℕ)
    → IsBytes m
    → 2 ≤ base
    → base ≤ 36
    → num < 2 ^ fuel
    → (k : ℕ) × (m' : Mem) × (digit_loop (suc fuel) m num buf base i ≡ some (m', i + k))
      × Digits m num (buf + i) base k m'
digit_loop-Digits zero m num buf base i b lo hi small =
    let e : num ≡ 0 = omega arith in
    (0, m, digit_loop_done 0 m num buf base i e ∙ ground arith, Digits-zero m num _ base b e)
digit_loop-Digits (suc f) m num buf base i b lo hi small = elim (ℕ_discrete num 0) [
  | yes e ↦ (
    0,
    m,
    digit_loop_done (suc f) m num buf base i e ∙ ground arith,
    Digits-zero m num _ base b e,
  )
  | no more ↦
      let (k, m', run, d) =
        digit_loop-Digits f (step_mem m num buf base i) (num / base) buf base (i + 1)
          (write8-IsBytes m (buf + i) (digit_char (num % base)) b) lo hi
          (div_small num base f lo small) in
      (
        suc k,
        m',
        digit_loop_more (suc f) m num buf base i more ∙ run ∙ ground arith,
        Digits-step m num buf base i k m' b lo hi d,
      )
]

-- A number below `base ^ d` has at most `d` digits.
pub digit_loop_index :
    (fuel d : ℕ) (m : Mem) (num buf base i : ℕ) {m' : Mem} {r : ℕ}
    → 2 ≤ base
    → num < base ^ d
    → digit_loop fuel m num buf base i ≡ some (m', r)
    → r ≤ i + d
unfolding digit_loop
digit_loop_index zero d m num buf base i lo small run = cc run
digit_loop_index (suc f) zero m num buf base i lo small run =
    let e : num ≡ 0 = omega (arith, pow-zero base) in
    ground (arith, digit_loop_done f m num buf base i e)
digit_loop_index (suc f) (suc d) m num buf base i {m'} {r} lo small run = elim (ℕ_discrete num 0) [
  | yes e ↦ ground (arith, digit_loop_done f m num buf base i e)
  | no more ↦
      let fewer : num / base < base ^ d =
        (div-lt_iff_lt-mul {k = base} {x = num} {y = base ^ d} (omega arith)).1
          (omega (arith, pow-suc base d)) in
      omega (
        arith,
        digit_loop_index f d (step_mem m num buf base i) (num / base) buf base (i + 1) lo fewer
            (sym (digit_loop_more f m num buf base i more) ∙ run),
      )
]
