-- ===== src/Acpi/Search.antt =====
-- What a linear search for a table promises, for the loops of kernel/src/acpi.
use print_os.Base.{ℕ, ◌+◌, ◌≤◌, ◌<◌, ◌≡◌, refl, ◌⊎◌, inl, inr, arith, subst}
use native.Mathlib.Decide.{ℕ_discrete}

-- The result `r` of a search over the places from `lo` to `hi - 1`: the first one at which `P`
-- holds, of those, or null and `P` holds at none.
abbrev pub Found : (P : ℕ → Type 0) (place : ℕ → ℕ) (lo hi r : ℕ) → Type 0
Found P place lo hi r =
    ((i : ℕ) × (lo ≤ i) × (i < hi) × P i × ((j : ℕ) → lo ≤ j → j < i → ¬ P j) × (r ≡ place i))
    ⊎ (((j : ℕ) → lo ≤ j → j < hi → ¬ P j) × (r ≡ 0))

module _ (P : ℕ → Type 0) (place : ℕ → ℕ) (lo hi : ℕ) where
  pub Found-none : hi ≤ lo → Found P place lo hi 0
  Found-none h = inr (λ j a b. absurd (omega arith), refl)

  pub Found-here : lo < hi → P lo → Found P place lo hi (place lo)
  Found-here h p = inl (lo, omega arith, h, p, (λ j a b. absurd (omega arith)), refl)

  not_from :
      {up : ℕ}
      → ¬ P lo
      → ((j : ℕ) → lo + 1 ≤ j → j < up → ¬ P j)
      → (j : ℕ) → lo ≤ j
      → j < up
      → ¬ P j
  not_from np rest j a b = elim (ℕ_discrete lo j) [
    | yes e ↦ subst (λ k. ¬ P k) e np
    | no e ↦ rest j (omega arith) b
  ]

  pub Found-next : (r : ℕ) → ¬ P lo → Found P place (lo + 1) hi r → Found P place lo hi r
  Found-next r np (inl (i, a, b, p, before, e)) = inl (i, omega arith, b, p, not_from np before, e)
  Found-next r np (inr (none_of, e)) = inr (not_from np none_of, e)
