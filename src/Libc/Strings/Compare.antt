-- ===== src/Libc/Strings/Compare.antt =====
-- What `str_len`, `strcmp` and `strncmp` of kernel/src/libc/stdlib.cpp decide.
use native.Mathlib.Decide.{ℕ_discrete}
use print_os.Base.{
  ℕ, zero, suc, ◌+◌, ◌≤◌, ◌<◌, ◌≡◌, refl, ◌≢◌, ◌↔◌, inl, inr, not, ◌&&◌, some, arith, ◌==◌,
  Bool-cases,
}
use print_os.Mem.{Mem}
use print_os.Libc.MemOps.Laws.{IsBytes}
use print_os.Libc.Strings.{len_loop, str_len, difference, strcmp, strncmp}

-- The `n` bytes from `s` on are followed by a terminator, and none of them is one.
pub record IsString (m : Mem) (s n : ℕ) : Type 0 where
  pub body : (j : ℕ) → j < n → m (s + j) ≢ 0
  pub ends : m (s + n) ≡ 0

len_loop_lem :
    (k : ℕ) (m : Mem) (s c n : ℕ) → IsString m s n → c ≤ n → n < c + k → len_loop k m s c ≡ some n
unfolding len_loop
len_loop_lem zero m s c n str le fuel = absurd (omega arith)
len_loop_lem (suc k) m s c n str le fuel = elim (ℕ_discrete c n) [
  | yes e ↦ rw e (ground (arith, str.ends))
  | no e ↦ ground (arith, str.body c, len_loop_lem k m s (c + 1) n str (omega arith) (omega arith))
]

-- With fuel for the string and its terminator, `str_len` returns the length.
pub str_len_lem :
    (fuel : ℕ) (m : Mem) (s n : ℕ) → IsString m s n → n < fuel → str_len fuel m s ≡ some n
unfolding str_len
str_len_lem fuel m s n str h = len_loop_lem fuel m s 0 n str (omega arith) (omega arith)

-- Two texts agree on the first `n` characters, or up to a terminator before that.
abbrev pub Agree : Mem → (s t n : ℕ) → Type 0
Agree m s t zero = Unit {0}
Agree m s t (suc n) = (m s ≡ m t) × (m s ≢ 0 → Agree m (s + 1) (t + 1) n)

difference-eq-zero : (m : Mem) (s t : ℕ) → IsBytes m → (difference m s t ≡ 0) ↔ (m s ≡ m t)
difference-eq-zero m s t b = (λ h. omega (arith, b s, b t), λ h. omega (arith, b s, b t))

-- `strncmp` returns 0 exactly when the texts agree on their first `n` characters, where a
-- terminator in both ends the comparison.
pub strncmp-Agree : (m : Mem) (s t n : ℕ) → IsBytes m → (strncmp m s t n ≡ 0) ↔ Agree m s t n
unfolding strncmp
strncmp-Agree m s t zero b = (λ h. tt, λ h. refl)
strncmp-Agree m s t (suc n) b =
    let rest = strncmp-Agree m (s + 1) (t + 1) n b in
    let here = difference-eq-zero m s t b in
    elim (Bool-cases (not (m s == 0) && m s == m t)) [
      | inl on ↦
          (λ h. (ground arith, λ ne. rest.0 (rw on at h)), λ a. rw on (rest.1 (a.1 (ground arith))))
      | inr stop ↦ (
        λ h. let e : m s ≡ m t = here.0 (rw stop at h) in (e, λ ne. absurd (ground arith)),
        λ a. rw stop (here.1 a.0),
      )
    ]

IsString-tail : {m : Mem} {s n : ℕ} → IsString m s (suc n) → IsString m (s + 1) n
IsString-tail {m} {s} {n} str = record {
  body =
      λ j h. let e : s + 1 + j ≡ s + suc j = omega arith in rw e (str.body (suc j) (omega arith));
  ends = let e : s + 1 + n ≡ s + suc n = omega arith in rw e str.ends;
}

-- On a string `strcmp` is `strncmp` over its characters and its terminator.
strcmp-eq-strncmp :
    (fuel n : ℕ) (m : Mem) (s t : ℕ)
    → IsString m s n
    → n < fuel
    → strcmp fuel m s t ≡ some (strncmp m s t (suc n))
unfolding strcmp strncmp
strcmp-eq-strncmp zero n m s t str h = absurd (omega arith)
strcmp-eq-strncmp (suc k) zero m s t str h =
    let stop : m s ≡ 0 = (let e : s + 0 ≡ s = omega arith in rw (← e) str.ends) in ground arith
strcmp-eq-strncmp (suc k) (suc n) m s t str h =
    ground (arith, strcmp-eq-strncmp k n m (s + 1) (t + 1) (IsString-tail str))

-- With fuel for the first string, of length `n`, and its terminator, `strcmp` returns a value, and
-- that is 0 exactly when the two texts agree on those `n + 1` characters: when they are equal.
pub strcmp-Agree :
    (fuel : ℕ) (m : Mem) (s t n : ℕ)
    → IsBytes m
    → IsString m s n
    → n < fuel
    → (d : ℕ) × (strcmp fuel m s t ≡ some d) × ((d ≡ 0) ↔ Agree m s t (suc n))
strcmp-Agree fuel m s t n b str h =
    (strncmp m s t (suc n), strcmp-eq-strncmp fuel n m s t str h, strncmp-Agree m s t (suc n) b)
