-- ===== src/Kutils/Bits/Laws.antt =====
-- What the macros of kernel/src/kutils/bits.hpp do to each bit, at every width. The native
-- operations stand for a recursion on binary digits with fuel; the fuel is dropped first.
use Prim.Native.Nat.{digits, bitwise, bit_and-bitwise, bit_or-bitwise}
use native.Mathlib.Nat.{
  pow-suc, one-le-pow, le_refl, mod-eq_of_lt, mod-lt, add-mod_right, div-add-mod,
  div-div-eq-div-mul,
}
use print_os.Base.{
  ℕ, zero, suc, ◌+◌, ◌-◌, ◌*◌, ◌/◌, ◌%◌, ◌^◌, ◌≤◌, ◌<◌, min, max, bit_and, bit_or, ◌≡◌, refl, ap,
  ◌∙◌, ◌⊎◌, not, ◌&&◌, ◌||◌, arith, ◌==◌, if◌then◌else◌,
}
use print_os.Kutils.Bits.{set_bit, clear_bit, test_bit}

-- Bit `k` of `x`, as 0 or 1.
abbrev pub bit : ℕ → ℕ → ℕ
bit x zero = x % 2
bit x (suc k) = bit (x / 2) k

bit-le : (x k : ℕ) → bit x k ≤ 1
bit-le x zero = omega arith
bit-le x (suc k) = bit-le (x / 2) k

module _ (z : ℕ → ℕ) (f : ℕ → ℕ → ℕ) where
  digits-eq : (n m a b : ℕ) → a ≤ n → a ≤ m → digits z f n a b ≡ digits z f m a b
  digits-eq zero zero a b p q = refl
  digits-eq zero (suc m) zero b p q = refl
  digits-eq zero (suc m) (suc a) b p q = absurd (omega arith)
  digits-eq (suc n) zero zero b p q = refl
  digits-eq (suc n) zero (suc a) b p q = absurd (omega arith)
  digits-eq (suc n) (suc m) zero b p q = refl
  digits-eq (suc n) (suc m) (suc a) b p q =
      rw (digits-eq n m (suc a / 2) (b / 2) (omega arith) (omega arith))

  bitwise-eq :
      (a b : ℕ)
      → bitwise z f (suc a) b ≡ bitwise z f (suc a / 2) (b / 2) * 2 + f (suc a % 2) (b % 2)
  bitwise-eq a b =
      omega (arith, digits-eq a (suc a / 2) (suc a / 2) (b / 2) (omega arith) (le_refl _))

or_halves : (a b : ℕ) → bit_or a b ≡ bit_or (a / 2) (b / 2) * 2 + max (a % 2) (b % 2)
or_halves zero b = simp bit_or-bitwise (omega arith)
or_halves (suc a) b = simp bit_or-bitwise (bitwise-eq (λ y. y) max a b)

and_halves : (a b : ℕ) → bit_and a b ≡ bit_and (a / 2) (b / 2) * 2 + min (a % 2) (b % 2)
and_halves zero b = simp bit_and-bitwise (omega arith)
and_halves (suc a) b = simp bit_and-bitwise (bitwise-eq (λ y. 0) min a b)

pub bit-bit_or : (a b k : ℕ) → bit (bit_or a b) k ≡ max (bit a k) (bit b k)
bit-bit_or a b zero = omega (arith, or_halves a b)
bit-bit_or a b (suc k) =
    let half : bit_or a b / 2 ≡ bit_or (a / 2) (b / 2) = omega (arith, or_halves a b) in
    rw half (bit-bit_or (a / 2) (b / 2) k)

pub bit-bit_and : (a b k : ℕ) → bit (bit_and a b) k ≡ min (bit a k) (bit b k)
bit-bit_and a b zero = omega (arith, and_halves a b)
bit-bit_and a b (suc k) =
    let half : bit_and a b / 2 ≡ bit_and (a / 2) (b / 2) = omega (arith, and_halves a b) in
    rw half (bit-bit_and (a / 2) (b / 2) k)

bit-zero : (k : ℕ) → bit 0 k ≡ 0
bit-zero zero = refl
bit-zero (suc k) = bit-zero k

half_pow : (p : ℕ) → 2 ^ suc p / 2 ≡ 2 ^ p
half_pow p = omega (arith, pow-suc 2 p)

bit-pow : (p k : ℕ) → bit (2 ^ p) k ≡ (if p == k then 1 else 0)
bit-pow zero zero = refl
bit-pow zero (suc k) = bit-zero k ∙ ground arith
bit-pow (suc p) zero = ground (arith, pow-suc 2 p)
bit-pow (suc p) (suc k) = rw half_pow (ground (arith, bit-pow p k))

bit-ones : (w k : ℕ) → k < w → bit (2 ^ w - 1) k ≡ 1
bit-ones zero k h = elim h [ ]
bit-ones (suc w) zero h = omega (arith, pow-suc 2 w, one-le-pow w 2)
bit-ones (suc w) (suc k) h =
    let half : (2 ^ suc w - 1) / 2 ≡ 2 ^ w - 1 = omega (arith, pow-suc 2 w, one-le-pow w 2) in
    rw half (bit-ones w k (omega arith))

pow_lt : (p w : ℕ) → p < w → 2 ^ p + 2 ^ p ≤ 2 ^ w
pow_lt p zero h = elim h [ ]
pow_lt zero (suc w) h = omega (arith, pow-suc 2 w, one-le-pow w 2)
pow_lt (suc p) (suc w) h = omega (arith, pow-suc 2 w, pow-suc 2 p, pow_lt p w (omega arith))

-- The complement of `1 << p` in `w` bits.
pub bit-mask : (w p k : ℕ) → p < w → k < w → bit (2 ^ w - 1 - 2 ^ p) k ≡ (if p == k then 0 else 1)
bit-mask zero p k hp hk = elim hp [ ]
bit-mask (suc w) zero zero hp hk = omega (arith, pow-suc 2 w, one-le-pow w 2)
bit-mask (suc w) zero (suc k) hp hk =
    let half : (2 ^ suc w - 1 - 2 ^ 0) / 2 ≡ 2 ^ w - 1 =
      omega (arith, pow-suc 2 w, one-le-pow w 2) in
    rw half (ground (arith, bit-ones w k))
bit-mask (suc w) (suc p) zero hp hk =
    ground (arith, pow-suc 2 w, pow-suc 2 p, pow_lt p w, one-le-pow p 2)
bit-mask (suc w) (suc p) (suc k) hp hk =
    let half : (2 ^ suc w - 1 - 2 ^ suc p) / 2 ≡ 2 ^ w - 1 - 2 ^ p =
      omega (arith, pow-suc 2 w, pow-suc 2 p) in
    rw half (ground (arith, bit-mask w p k))

-- Cutting to a byte keeps the low eight bits.
pub bit-mod_byte : (x k : ℕ) → k < 8 → bit (x % 256) k ≡ bit x k
bit-mod_byte x zero h = omega arith
bit-mod_byte x (suc zero) h = omega arith
bit-mod_byte x (suc (suc zero)) h = omega arith
bit-mod_byte x (suc (suc (suc zero))) h = omega arith
bit-mod_byte x (suc (suc (suc (suc zero)))) h = omega arith
bit-mod_byte x (suc (suc (suc (suc (suc zero))))) h = omega arith
bit-mod_byte x (suc (suc (suc (suc (suc (suc zero)))))) h = omega arith
bit-mod_byte x (suc (suc (suc (suc (suc (suc (suc zero))))))) h = omega arith
bit-mod_byte x (suc (suc (suc (suc (suc (suc (suc (suc k)))))))) h = absurd (omega arith)

pub zero-bit_and : (b : ℕ) → bit_and 0 b ≡ 0
zero-bit_and b = bit_and-bitwise 0 b

and-zero : (n x : ℕ) → x ≤ n → bit_and x 0 ≡ 0
and-zero n zero h = refl
and-zero zero (suc x) h = absurd (omega arith)
and-zero (suc n) (suc x) h =
    omega (arith, and_halves (suc x) 0, and-zero n (suc x / 2) (omega arith))

and-pow : (x p : ℕ) → bit_and x (2 ^ p) ≡ bit x p * 2 ^ p
and-pow x zero = omega (arith, and_halves x 1, and-zero (x / 2) (x / 2) (le_refl _))
and-pow x (suc p) = omega (
  arith,
  and_halves x (2 ^ suc p),
  ap (λ (t : ℕ). bit_and (x / 2) t) (half_pow p),
  pow-suc 2 p,
  and-pow (x / 2) p,
  ap (λ (t : ℕ). bit (x / 2) p * t) (pow-suc 2 p),
)

-- `test_bit` reads the bit.
pub test_bit_lem : (x p : ℕ) → test_bit x p ≡ (bit x p == 1)
unfolding test_bit
test_bit_lem x p = ground (arith, and-pow x p, bit-le x p, one-le-pow p 2, ones (bit x p))
  where
    ones : (b : ℕ) → b ≤ 1 → (b ≡ 0) ⊎ (b ≡ 1)
    ones b h = omega arith

-- `set_bit` sets the one bit and leaves the others, in a variable that is wide enough for it.
pub test_bit-set_bit_wide : (x p k : ℕ) → test_bit (set_bit x p) k ≡ ((p == k) || test_bit x k)
unfolding set_bit
test_bit-set_bit_wide x p k =
    rw (test_bit_lem (bit_or x (2 ^ p)) k, test_bit_lem x k, bit-bit_or, bit-pow)
      (ground (arith, bit-le x k))

-- In a byte, `set_bit` sets the one bit and leaves the others.
pub test_bit-set_bit :
    (x p k : ℕ) → k < 8 → test_bit (set_bit x p % 256) k ≡ ((p == k) || test_bit x k)
unfolding set_bit
test_bit-set_bit x p k h =
    rw
      (
        test_bit_lem (bit_or x (2 ^ p) % 256) k,
        test_bit_lem x k,
        bit-mod_byte (bit_or x (2 ^ p)) k h,
        bit-bit_or,
        bit-pow,
      )
      (ground (arith, bit-le x k))

-- In a byte, `clear_bit` clears the one bit and leaves the others.
pub test_bit-clear_bit :
    (x p k : ℕ)
    → p < 8
    → k < 8
    → test_bit (clear_bit 8 x p % 256) k ≡ (not (p == k) && test_bit x k)
unfolding clear_bit
test_bit-clear_bit x p k hp h =
    rw
      (
        test_bit_lem (bit_and x (2 ^ 8 - 1 - 2 ^ p) % 256) k,
        test_bit_lem x k,
        bit-mod_byte (bit_and x (2 ^ 8 - 1 - 2 ^ p)) k h,
        bit-bit_and,
        bit-mask 8 p k hp h,
      )
      (ground (arith, bit-le x k))

multiple_mod : (q m s : ℕ) → s < m → (m * q + s) % m ≡ s
multiple_mod zero m s h = let e : m * 0 + s ≡ s = omega arith in rw e (mod-eq_of_lt h)
multiple_mod (suc q) m s h =
    let e : m * suc q + s ≡ m * q + s + m = omega arith in
    rw (e, add-mod_right) (multiple_mod q m s h)

double_mod : (a m : ℕ) → 0 < m → a % (m * 2) ≡ a / 2 % m * 2 + a % 2
double_mod a m h =
    let r = a / 2 % m * 2 + a % 2 in
    let e : a ≡ m * 2 * (a / 2 / m) + r = omega (arith, div-add-mod (a / 2) m) in
    let small : r < m * 2 = omega (arith, mod-lt (a / 2) h) in
    ap (λ (t : ℕ). t % (m * 2)) e ∙ multiple_mod (a / 2 / m) (m * 2) r small

-- A mask of `k` ones keeps the low `k` bits.
pub bit_and_mask : (k a : ℕ) → bit_and a (2 ^ k - 1) ≡ a % 2 ^ k
bit_and_mask zero a = omega (arith, and-zero a a (le_refl _))
bit_and_mask (suc k) a =
    let half : (2 ^ suc k - 1) / 2 ≡ 2 ^ k - 1 = omega (arith, pow-suc 2 k, one-le-pow k 2) in
    omega (
      arith,
      and_halves a (2 ^ suc k - 1),
      ap (λ (t : ℕ). bit_and (a / 2) t) half,
      bit_and_mask k (a / 2),
      double_mod a (2 ^ k) (one-le-pow k 2 (omega arith)),
      ap (λ (t : ℕ). a % t) (pow-suc 2 k),
      pow-suc 2 k,
      one-le-pow k 2,
    )

-- The bit by division.
pub bit-div : (x k : ℕ) → bit x k ≡ x / 2 ^ k % 2
bit-div x zero = omega arith
bit-div x (suc k) =
    let double : 2 * 2 ^ k ≡ 2 ^ suc k = omega (arith, pow-suc 2 k) in
    bit-div (x / 2) k ∙ ap (λ t. t % 2) (div-div-eq-div-mul x 2 (2 ^ k) ∙ ap (λ t. x / t) double)

-- `test_bit` tests the binary digit at its position.
pub test_bit-div : (x p : ℕ) → test_bit x p ≡ (x / 2 ^ p % 2 == 1)
test_bit-div x p = rw (test_bit_lem x p, bit-div x p) refl
