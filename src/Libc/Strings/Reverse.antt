-- ===== src/Libc/Strings/Reverse.antt =====
-- `str_reverse` of kernel/src/libc/stdlib.cpp reverses its characters in place.
use print_os.Base.{
  ℕ, zero, suc, ◌+◌, ◌-◌, ◌*◌, ◌/◌, ◌≤◌, ◌<◌, ◌≡◌, refl, ◌≢◌, Bool, true, false, Bool-cases, inl,
  inr, ◌∙◌, ◌&&◌, ◌||◌, arith, ◌==◌, ltb, leb, if◌then◌else◌,
}
use print_os.Mem.{Mem}
use print_os.Libc.MemOps.Laws.{IsBytes, write8-IsBytes}
use print_os.Libc.Strings.{exchange, reverse_loop, str_reverse}

exchange_lem :
    (m : Mem) (s len i x : ℕ)
    → IsBytes m
    → i < len
    → exchange m s len i (s + x)
      ≡ (if x == i || x == len - i - 1 then m (s + (len - 1 - x)) else m (s + x))
exchange_lem m s len i x b h = ground (arith, b (s + i), b (s + (len - i - 1)))

exchange-IsBytes : (m : Mem) (s len i : ℕ) → IsBytes m → IsBytes (exchange m s len i)
exchange-IsBytes m s len i b = write8-IsBytes _ _ _ (write8-IsBytes _ _ _ b)

exchange_before : (m : Mem) (s len i q : ℕ) → q < s → exchange m s len i q ≡ m q
exchange_before m s len i q h = ground arith

-- The characters that `k` rounds from `i` on exchange.
abbrev swapped : (len i k x : ℕ) → Bool
swapped len i k x = (leb i x && ltb x (i + k)) || (leb (len - i - k) x && ltb x (len - i))

exchange_other :
    (m : Mem) (s len i x : ℕ)
    → IsBytes m
    → x ≢ i
    → x ≢ len - i - 1
    → exchange m s len i (s + x) ≡ m (s + x)
exchange_other m s len i x b h h' = ground arith

module _ (len i k x : ℕ) (h : 2 * (i + suc k) ≤ len) where
  swapped_inside : swapped len (i + 1) k x ≡ true → swapped len i (suc k) x ≡ true
  swapped_inside e = ground arith

  swapped_mirror : swapped len (i + 1) k x ≡ true → (len - 1 - x ≢ i) × (len - 1 - x ≢ len - i - 1)
  swapped_mirror e = ground arith

  swapped_outside :
      swapped len (i + 1) k x ≡ false → swapped len i (suc k) x ≡ (x == i || x == len - i - 1)
  swapped_outside e = ground arith

reverse_loop_lem :
    (k i : ℕ) (m : Mem) (s len x : ℕ)
    → IsBytes m
    → 2 * (i + k) ≤ len
    → reverse_loop k i m s len (s + x)
      ≡ (if swapped len i k x then m (s + (len - 1 - x)) else m (s + x))
unfolding reverse_loop
reverse_loop_lem zero i m s len x b h = ground arith
reverse_loop_lem (suc k) i m s len x b h =
    let rest =
      reverse_loop_lem k (i + 1) (exchange m s len i) s len x (exchange-IsBytes m s len i b)
        (omega arith) in
    elim (Bool-cases (swapped len (i + 1) k x)) [
      | inl deep ↦
          let (ne, ne') = swapped_mirror len i k x h deep in
          rest
          ∙ rw (deep, swapped_inside len i k x h deep)
              (exchange_other m s len i (len - 1 - x) b ne ne')
      | inr out ↦
          rest
          ∙ rw (out, swapped_outside len i k x h out) (exchange_lem m s len i x b (omega arith))
    ]

reverse_loop_before : (k i : ℕ) (m : Mem) (s len q : ℕ) → q < s → reverse_loop k i m s len q ≡ m q
unfolding reverse_loop
reverse_loop_before zero i m s len q h = refl
reverse_loop_before (suc k) i m s len q h =
    reverse_loop_before k (i + 1) (exchange m s len i) s len q h ∙ exchange_before m s len i q h

-- After `str_reverse` the character at `x` is the one that was at `len - 1 - x`; what lies before
-- the text and behind its `len` characters is as it was.
pub str_reverse_lem :
    (m : Mem) (s len : ℕ)
    → IsBytes m
    → ((x : ℕ)
        → str_reverse m s len (s + x) ≡ (if ltb x len then m (s + (len - 1 - x)) else m (s + x)))
      × ((q : ℕ) → q < s → str_reverse m s len q ≡ m q)
unfolding str_reverse
str_reverse_lem m s len b = (
  λ x. ground (arith, reverse_loop_lem (len / 2) 0 m s len x b),
  λ q h. reverse_loop_before (len / 2) 0 m s len q h,
)
