-- ===== src/Boot/Utils.antt =====
-- bootloader/utils.c: the names of the statuses, and the comparison of memory.
use Prim.Native.String.{String}
use print_os.Base.{
  ℕ, zero, suc, ◌+◌, ◌-◌, ◌%◌, ◌<◌, ◌≡◌, ◌≢◌, List, [], ◌∷◌, Option, none, length, get_elem?, arith,
  ltb, if◌then◌else◌, Bool-cases, inl, inr, ap, ◌∙◌,
}
use print_os.Mem.{Mem, read8}

abbrev pub statuses : List String
statuses =
    "success" ∷ "load error" ∷ "invalid parameter" ∷ "unsupported" ∷ "bad buffer size"
    ∷ "buffer too small" ∷ "not ready" ∷ "device error" ∷ "write protected" ∷ "out of resources"
    ∷ "volume corrupted" ∷ "volume full" ∷ "no media" ∷ "media changed" ∷ "not found"
    ∷ "access denied" ∷ "no response" ∷ "no mapping" ∷ "timeout" ∷ "not started" ∷ "already started"
    ∷ "aborted" ∷ "ICMP error" ∷ "TFTP error" ∷ "protocol error" ∷ "incompatible version"
    ∷ "security violation" ∷ "CRC error" ∷ "end of media" ∷ "end of file" ∷ "invalid language"
    ∷ "compromised data" ∷ "undefined status" ∷ []

abbrev pub statuses_count : ℕ
statuses_count = 33

-- A read of the table out of its bounds is `none`.
unfoldable pub efi_status_str : (status : ℕ) → Option String
efi_status_str status =
    let low = status % 256 in
    if ltb 32 low then get_elem? statuses (statuses_count - 1) else get_elem? statuses low

-- The `int` of `memcmp`.
pub data Sign : Type 0 where
  minus_one zero_sign plus_one : Sign

unfoldable pub memcmp : Mem → (a b n : ℕ) → Sign
memcmp m a b zero = zero_sign
memcmp m a b (suc n) =
    let rest = memcmp m (a + 1) (b + 1) n in
    if ltb (read8 m a) (read8 m b)
    then minus_one
    else if ltb (read8 m b) (read8 m a)
    then plus_one
    else rest

-- The first of the `n` bytes at which the two differ, and how.
abbrev pub FirstDifference : (Rel : ℕ → ℕ → Type 0) → Mem → (a b n : ℕ) → Type 0
FirstDifference Rel m a b n =
    (i : ℕ) × (i < n) × ((j : ℕ) → j < i → m (a + j) ≡ m (b + j)) × Rel (m (a + i)) (m (b + i))

-- What a sign says of the bytes.
abbrev pub Compared : Mem → (a b n : ℕ) → Sign → Type 0
Compared m a b n minus_one = FirstDifference (λ x y. x < y) m a b n
Compared m a b n zero_sign = (j : ℕ) → j < n → m (a + j) ≡ m (b + j)
Compared m a b n plus_one = FirstDifference (λ x y. y < x) m a b n

equal_before :
    (m : Mem) (a b i : ℕ)
    → m a ≡ m b
    → ((j : ℕ) → j < i → m (a + 1 + j) ≡ m (b + 1 + j))
    → (j : ℕ) → j < suc i
    → m (a + j) ≡ m (b + j)
equal_before m a b i e rest zero h =
    let za : a + 0 ≡ a = omega arith in let zb : b + 0 ≡ b = omega arith in rw (za, zb) e
equal_before m a b i e rest (suc j) h =
    ap m (omega arith) ∙ rest j (omega arith) ∙ ap m (omega arith)

module _ (m : Mem) (a b n : ℕ) (e : m a ≡ m b) where
  later :
      (Rel : ℕ → ℕ → Type 0)
      → FirstDifference Rel m (a + 1) (b + 1) n
      → FirstDifference Rel m a b (suc n)
  later Rel (i, h, before, at) =
      let ea : a + suc i ≡ a + 1 + i = omega arith in
      let eb : b + suc i ≡ b + 1 + i = omega arith in
      (suc i, omega arith, equal_before m a b i e before, rw (ea, eb) at)

  Compared-suc : (r : Sign) → Compared m (a + 1) (b + 1) n r → Compared m a b (suc n) r
  Compared-suc minus_one h = later (λ x y. x < y) h
  Compared-suc zero_sign h = equal_before m a b n e h
  Compared-suc plus_one h = later (λ x y. y < x) h

-- `memcmp` is the lexicographic order of the bytes: its sign is that of the first byte at which the
-- two differ, and zero where all the `n` bytes are equal.
pub memcmp-Compared : (m : Mem) (a b n : ℕ) → Compared m a b n (memcmp m a b n)
unfolding memcmp
memcmp-Compared m a b zero = λ j h. absurd (omega arith)
memcmp-Compared m a b (suc n) =
    let za : a + 0 ≡ a = omega arith in
    let zb : b + 0 ≡ b = omega arith in
    elim (Bool-cases (ltb (m a) (m b))) [
      | inl low ↦ rw low (0, omega arith, (λ j h. absurd (omega arith)), rw (za, zb) (ground arith))
      | inr not_low ↦ elim (Bool-cases (ltb (m b) (m a))) [
        | inl high ↦
            rw (not_low, high)
              (0, omega arith, (λ j h. absurd (omega arith)), rw (za, zb) (ground arith))
        | inr not_high ↦
            rw (not_low, not_high)
              (Compared-suc m a b n (ground arith) (memcmp m (a + 1) (b + 1) n)
                (memcmp-Compared m (a + 1) (b + 1) n))
      ]
    ]

get_elem?-ne-none {ℓ} : {A : Type ℓ} (xs : List A) (i : ℕ) → i < length xs → get_elem? xs i ≢ none
get_elem?-ne-none [] i h = absurd (omega arith)
get_elem?-ne-none (x ∷ xs) zero h = cc
get_elem?-ne-none (x ∷ xs) (suc i) h = get_elem?-ne-none xs i (omega arith)

-- Every status has a name: the table is never read out of bounds.
pub efi_status_str_total : (status : ℕ) → efi_status_str status ≢ none
unfolding efi_status_str
efi_status_str_total status = elim (Bool-cases (ltb 32 (status % 256))) [
  | inl high ↦ rw high (get_elem?-ne-none statuses (statuses_count - 1) (omega arith))
  | inr low ↦ rw low (get_elem?-ne-none statuses (status % 256) (ground arith))
]
