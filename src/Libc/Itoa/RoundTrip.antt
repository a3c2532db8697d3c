-- ===== src/Libc/Itoa/RoundTrip.antt =====
-- The text that `itoa` of kernel/src/libc/stdlib.cpp leaves reads back as the number.
use print_os.Base.{
  ℕ, zero, suc, ◌+◌, ◌-◌, ◌*◌, ◌^◌, ◌≤◌, ◌<◌, ◌≡◌, refl, sym, ap, subst, ◌∙◌, ◌≢◌, ◌⊎◌, Bool-cases,
  inl, inr, some, arith, ◌==◌, ltb, if◌then◌else◌,
}
use native.Mathlib.Decide.{dec_lt}
use print_os.Mem.{Mem, write8}
use print_os.Libc.MemOps.Laws.{IsBytes, write8-IsBytes}
use print_os.Libc.Strings.{str_reverse}
use print_os.Libc.Strings.Compare.{IsString}
use print_os.Libc.Strings.Reverse.{str_reverse_lem}
use print_os.Libc.Itoa.{itoa}
use print_os.Libc.Itoa.Digits.{
  digit_of, IsDigit, IsDigit-ne-zero, little, Digits, digit_loop-Digits, digit_loop_index,
}

-- The number that the first `k` characters at `p` spell in the base, as it is read.
abbrev pub value : Mem → (p base k : ℕ) → ℕ
value m p base zero = 0
value m p base (suc k) = value m p base k * base + digit_of (m (p + k))

value-reverse :
    (m m' : Mem) (p q base k : ℕ)
    → ((x : ℕ) → x < k → m' (p + x) ≡ m (q + (k - 1 - x)))
    → value m' p base k ≡ little m q base k
value-reverse m m' p q base zero h = refl
value-reverse m m' p q base (suc k) h =
    let last : m' (p + k) ≡ m q = h k (omega arith) ∙ ap m (omega arith) in
    rw (last, value-reverse m m' p (q + 1) base k λ x l. h x (omega arith) ∙ ap m (omega arith))
      (omega arith)

-- What the text in memory is, and that nothing else has changed.
pub record Spelled (m : Mem) (num p base k : ℕ) (m' : Mem) : Type 0 where
  pub text : IsString m' p k
  pub some_digit : 0 < k
  pub digits : (j : ℕ) → j < k → IsDigit base (m' (p + j))
  pub reads : value m' p base k ≡ num
  pub elsewhere : (q : ℕ) → (q < p) ⊎ (p + k < q) → m' q ≡ m q
  pub bytes : IsBytes m'

finish-Spelled :
    (m : Mem) (num p base k : ℕ) (m' : Mem)
    → num ≢ 0
    → Digits m num p base k m'
    → Spelled m num p base k (str_reverse (write8 m' (p + k) 0) p k)
finish-Spelled m num p base k m' ne d = record {
  text = record {
    body = λ j h.
        rw (inside j h)
          (IsDigit-ne-zero base (m' (p + (k - 1 - j))) (d.digits (k - 1 - j) (omega arith)));
    ends = at k ∙ ground arith;
  };
  some_digit = d.some_digit ne;
  digits = λ j h. subst (IsDigit base) (sym (inside j h)) (d.digits (k - 1 - j) (omega arith));
  reads = value-reverse m' reversed p p base k inside ∙ d.spells;
  elsewhere = other;
  bytes = reversed_bytes;
}
  where
    ended : Mem
    ended = write8 m' (p + k) 0

    reversed : Mem
    reversed = str_reverse ended p k

    at : (x : ℕ) → reversed (p + x) ≡ (if ltb x k then ended (p + (k - 1 - x)) else ended (p + x))
    at = (str_reverse_lem ended p k (write8-IsBytes m' (p + k) 0 d.bytes)).0

    ended_bytes : IsBytes ended
    ended_bytes = write8-IsBytes m' (p + k) 0 d.bytes

    reversed_bytes : IsBytes reversed
    reversed_bytes q = elim (dec_lt q p) [
      | yes h ↦ rw ((str_reverse_lem ended p k ended_bytes).1 q h) (ended_bytes q)
      | no h ↦
          let e : p + (q - p) ≡ q = omega arith in
          subst (λ t. reversed t < 256) e
            (rw (at (q - p))
              (ground (arith, ended_bytes (p + (k - 1 - (q - p))), ended_bytes (p + (q - p)))))
    ]

    inside : (x : ℕ) → x < k → reversed (p + x) ≡ m' (p + (k - 1 - x))
    inside x h = at x ∙ ground arith

    other : (q : ℕ) → (q < p) ⊎ (p + k < q) → reversed q ≡ m q
    other q (inl h) =
        (str_reverse_lem ended p k (write8-IsBytes m' (p + k) 0 d.bytes)).1 q h
        ∙ ground (arith, d.elsewhere q)
    other q (inr h) =
        let e : p + (q - p) ≡ q = omega arith in
        ap reversed (sym e) ∙ at (q - p) ∙ ground (arith, d.elsewhere q, e)

zero-Spelled :
    (m : Mem) (p base : ℕ)
    → IsBytes m
    → 2 ≤ base
    → Spelled m 0 p base 1 (write8 (write8 m p 48) (p + 1) 0)
zero-Spelled m p base b lo = record {
  text = record { body = λ j h. ground arith; ends = ground arith };
  some_digit = omega arith;
  digits = λ j h.
      let here : write8 (write8 m p 48) (p + 1) 0 (p + j) ≡ 48 = ground arith in
      subst (IsDigit base) (sym here) (inl (omega arith));
  reads = ground arith;
  elsewhere = λ q h. ground arith;
  bytes = write8-IsBytes (write8 m p 48) (p + 1) 0 (write8-IsBytes m p 48 b);
}

-- With one round more than the bits of the number, `itoa` in a base from 2 to 36 returns. It has
-- left a string in the buffer, of one character at least, each of which is a digit of that base from
-- '0' to '9' and from 'a' on. It reads back as the number, and no byte has changed but those of the
-- string and its terminator. A number below `base ^ d` takes at most `d` characters.
pub itoa-Spelled :
    (fuel : ℕ) (m : Mem) (num buf base : ℕ)
    → IsBytes m
    → 2 ≤ base
    → base ≤ 36
    → num < 2 ^ fuel
    → (k : ℕ) × (m' : Mem) × (itoa (suc fuel) m num buf base ≡ some m')
      × Spelled m num buf base k m'
      × ((d : ℕ) → 0 < d → num < base ^ d → k ≤ d)
unfolding itoa
itoa-Spelled fuel m num buf base b lo hi small = elim (Bool-cases (num == 0)) [
  | inl e ↦
      let zero_num : num ≡ 0 = ground arith in
      (
        1,
        write8 (write8 m buf 48) (buf + 1) 0,
        rw e,
        rw zero_num (zero-Spelled m buf base b lo),
        λ d h lt. h,
      )
  | inr more ↦
      let (k, m', run, d) = digit_loop-Digits fuel m num buf base 0 b lo hi small in
      let here : buf + 0 ≡ buf = omega arith in
      let count : 0 + k ≡ k = omega arith in
      (
        k,
        str_reverse (write8 m' (buf + k) 0) buf k,
        rw (more, run, count),
        finish-Spelled m num buf base k m' (ground arith) (rw here at d),
        λ n h lt. omega (arith, digit_loop_index (suc fuel) n m num buf base 0 lo lt run),
      )
]
