-- ===== src/Kutils/Printf/Spec.antt =====
-- What the formatter of kernel/src/kutils/console.cpp should write: the text that a format and its
-- arguments stand for, as lists of characters.
use print_os.Base.{
  ℕ, zero, suc, ◌+◌, ◌*◌, ◌%◌, ◌^◌, ◌≤◌, ◌<◌, ◌≡◌, ◌≢◌, refl, ap, subst, ◌∙◌, ◌⊎◌, Bool, true,
  false, List, [], ◌∷◌, ◌++◌, length, arith,
}
use print_os.Mem.{Mem}
use print_os.Libc.Strings.Compare.{IsString}
use print_os.Libc.Itoa.Digits.{digit_of, IsDigit}
use print_os.Libc.Itoa.RoundTrip.{value}

-- The `n` bytes from `p` on.
abbrev pub text : Mem → (p n : ℕ) → List ℕ
text m p zero = []
text m p (suc n) = m p ∷ text m (p + 1) n

-- The number that a list of digits is read as, behind what has been read.
abbrev pub number : (base read : ℕ) → List ℕ → ℕ
number base read [] = read
number base read (c ∷ cs) = number base (read * base + digit_of c) cs

-- Every character is a digit of the base.
abbrev pub AllDigits : (base : ℕ) → List ℕ → Type 0
AllDigits base [] = Unit {0}
AllDigits base (c ∷ cs) = IsDigit base c × AllDigits base cs

-- The digits of a number in a base, without leading zeros: it reads back as the number, and is no
-- longer than it has to be.
pub record IsNumeral (base n : ℕ) (digits : List ℕ) : Type 0 where
  pub reads : number base 0 digits ≡ n
  pub all_digits : AllDigits base digits
  pub some_digit : 0 < length digits
  pub shortest : (d : ℕ) → 0 < d → n < base ^ d → length digits ≤ d

-- The ranges of `n` bytes from `p` and `k` bytes from `q` have none in common.
abbrev pub Apart : (p n q k : ℕ) → Type 0
Apart p n q k = (p + n ≤ q) ⊎ (q + k ≤ p)

-- The text `out` that the rest of a format stands for, behind a percent sign or not. The strings are
-- those in memory; a number is its digits, in base 10 or 16.
pub data Spells (m : Mem) : (percent : Bool) (fmt args out : List ℕ) → Type 0 where
  ends : (percent : Bool) (args : List ℕ) → Spells m percent [] args []
  plain :
      (c : ℕ) (cs args out : List ℕ)
      → c ≢ b'%'
      → Spells m false cs args out
      → Spells m false (c ∷ cs) args (c ∷ out)
  percent_sign :
      (c : ℕ) (cs args out : List ℕ)
      → c ≡ b'%'
      → Spells m true cs args out
      → Spells m false (c ∷ cs) args out
  string :
      (c : ℕ) (cs : List ℕ) (arg k : ℕ) (args out : List ℕ)
      → c ≡ b's'
      → IsString m arg k
      → Spells m false cs args out
      → Spells m true (c ∷ cs) (arg ∷ args) (text m arg k ++ out)
  decimal :
      (c : ℕ) (cs : List ℕ) (arg : ℕ) (digits args out : List ℕ)
      → c ≡ b'd'
      → IsNumeral 10 (arg % 2 ^ 64) digits
      → Spells m false cs args out
      → Spells m true (c ∷ cs) (arg ∷ args) (digits ++ out)
  pointer :
      (c : ℕ) (cs : List ℕ) (arg : ℕ) (digits args out : List ℕ)
      → c ≡ b'p'
      → IsNumeral 16 (arg % 2 ^ 64) digits
      → Spells m false cs args out
      → Spells m true (c ∷ cs) (arg ∷ args) (digits ++ out)
  dropped :
      (c : ℕ) (cs args out : List ℕ)
      → c ≢ b's'
      → c ≢ b'd'
      → c ≢ b'p'
      → Spells m false cs args out
      → Spells m true (c ∷ cs) args out

-- There is an argument for each conversion, a string for each `%s`, of fewer than `fuel` characters
-- and not in the two buffers; and at most `room` characters come out, a number being counted as 20.
pub data Ready (m : Mem) (fuel buf temp_buf : ℕ)
    : (percent : Bool) (fmt args : List ℕ) (room : ℕ) → Type 0 where
  ends :
      (percent : Bool) (args : List ℕ) (room : ℕ) → Ready m fuel buf temp_buf percent [] args room
  plain :
      (c : ℕ) (cs args : List ℕ) (rest room : ℕ)
      → c ≢ b'%'
      → rest + 1 ≤ room
      → Ready m fuel buf temp_buf false cs args rest
      → Ready m fuel buf temp_buf false (c ∷ cs) args room
  percent_sign :
      (c : ℕ) (cs args : List ℕ) (room : ℕ)
      → c ≡ b'%'
      → Ready m fuel buf temp_buf true cs args room
      → Ready m fuel buf temp_buf false (c ∷ cs) args room
  string :
      (c : ℕ) (cs : List ℕ) (arg k : ℕ) (args : List ℕ) (rest room : ℕ)
      → c ≡ b's'
      → IsString m arg k
      → k < fuel
      → Apart arg (k + 1) buf 4096
      → Apart arg (k + 1) temp_buf 64
      → rest + k ≤ room
      → Ready m fuel buf temp_buf false cs args rest
      → Ready m fuel buf temp_buf true (c ∷ cs) (arg ∷ args) room
  decimal :
      (c : ℕ) (cs : List ℕ) (arg : ℕ) (args : List ℕ) (rest room : ℕ)
      → c ≡ b'd'
      → rest + 20 ≤ room
      → Ready m fuel buf temp_buf false cs args rest
      → Ready m fuel buf temp_buf true (c ∷ cs) (arg ∷ args) room
  pointer :
      (c : ℕ) (cs : List ℕ) (arg : ℕ) (args : List ℕ) (rest room : ℕ)
      → c ≡ b'p'
      → rest + 20 ≤ room
      → Ready m fuel buf temp_buf false cs args rest
      → Ready m fuel buf temp_buf true (c ∷ cs) (arg ∷ args) room
  dropped :
      (c : ℕ) (cs args : List ℕ) (room : ℕ)
      → c ≢ b's'
      → c ≢ b'd'
      → c ≢ b'p'
      → Ready m fuel buf temp_buf false cs args room
      → Ready m fuel buf temp_buf true (c ∷ cs) args room

-- The list is in memory from `p` on.
abbrev pub Holds : Mem → (p : ℕ) → List ℕ → Type 0
Holds m p [] = Unit {0}
Holds m p (c ∷ cs) = (m p ≡ c) × Holds m (p + 1) cs

pub length-text : (m : Mem) (p n : ℕ) → length (text m p n) ≡ n
length-text m p zero = refl
length-text m p (suc n) = ap suc (length-text m (p + 1) n)

pub text-cong :
    (m m' : Mem) (p n : ℕ) → ((q : ℕ) → p ≤ q → q < p + n → m' q ≡ m q) → text m' p n ≡ text m p n
text-cong m m' p zero h = refl
text-cong m m' p (suc n) h =
    rw
      (
        h p (omega arith) (omega arith),
        text-cong m m' (p + 1) n λ q a b. h q (omega arith) (omega arith),
      )
      refl

pub Holds-cong :
    (m m' : Mem) (p : ℕ) (xs : List ℕ)
    → ((q : ℕ) → p ≤ q → q < p + length xs → m' q ≡ m q)
    → Holds m p xs
    → Holds m' p xs
Holds-cong m m' p [] h held = tt
Holds-cong m m' p (x ∷ xs) h held = (
  h p (omega arith) (omega arith) ∙ held.0,
  Holds-cong m m' (p + 1) xs (λ q a b. h q (omega arith) (omega arith)) held.1,
)

pub Holds-append :
    (m : Mem) (p : ℕ) (xs ys : List ℕ)
    → Holds m p xs
    → Holds m (p + length xs) ys
    → Holds m p (xs ++ ys)
Holds-append m p [] ys hx hy = let e : p + 0 ≡ p = omega arith in rw e at hy
Holds-append m p (x ∷ xs) ys hx hy =
    let e : p + suc (length xs) ≡ p + 1 + length xs = omega arith in
    (hx.0, Holds-append m (p + 1) xs ys hx.1 (rw e at hy))

-- A copy holds the text of what was copied.
pub Holds-text :
    (m m' : Mem) (p q n : ℕ) → ((i : ℕ) → i < n → m' (p + i) ≡ m (q + i)) → Holds m' p (text m q n)
Holds-text m m' p q zero h = tt
Holds-text m m' p q (suc n) h = (
  ap m' (omega arith) ∙ h 0 (omega arith) ∙ ap m (omega arith),
  Holds-text m m' (p + 1) (q + 1) n
      λ i l. ap m' (omega arith) ∙ h (suc i) (omega arith) ∙ ap m (omega arith),
)

pub text-Holds : (m : Mem) (p n : ℕ) → Holds m p (text m p n)
text-Holds m p n = Holds-text m m p p n (λ i l. refl)

text-suc : (m : Mem) (p n : ℕ) → text m p (suc n) ≡ text m p n ++ (m (p + n) ∷ [])
text-suc m p zero = let e : p + 0 ≡ p = omega arith in rw e refl
text-suc m p (suc n) =
    let e : p + suc n ≡ p + 1 + n = omega arith in rw e (ap (λ t. m p ∷ t) (text-suc m (p + 1) n))

number-append :
    (base read : ℕ) (cs : List ℕ) (c : ℕ)
    → number base read (cs ++ (c ∷ [])) ≡ number base read cs * base + digit_of c
number-append base read [] c = refl
number-append base read (x ∷ cs) c = number-append base (read * base + digit_of x) cs c

-- The number that the characters in memory spell is that of their list.
pub number-text : (m : Mem) (p base k : ℕ) → number base 0 (text m p k) ≡ value m p base k
number-text m p base zero = refl
number-text m p base (suc k) =
    ap (λ t. number base 0 t) (text-suc m p k)
    ∙ number-append base 0 (text m p k) (m (p + k))
    ∙ ap (λ t. t * base + digit_of (m (p + k))) (number-text m p base k)

pub AllDigits-text :
    (m : Mem) (base p k : ℕ)
    → ((j : ℕ) → j < k → IsDigit base (m (p + j)))
    → AllDigits base (text m p k)
AllDigits-text m base p zero h = tt
AllDigits-text m base p (suc k) h =
    let here : p + 0 ≡ p = omega arith in
    (
      subst (λ t. IsDigit base (m t)) here (h 0 (omega arith)),
      AllDigits-text m base (p + 1) k λ j l.
          let next : p + suc j ≡ p + 1 + j = omega arith in
          subst (λ t. IsDigit base (m t)) next (h (suc j) (omega arith)),
    )
