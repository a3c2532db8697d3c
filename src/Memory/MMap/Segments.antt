-- ===== src/Memory/MMap/Segments.antt =====
-- The segment that `get_largest_free_seg` finds.
use native.Mathlib.Decide.{ℕ_discrete}
use native.Mathlib.Nat.{le_trans}
use print_os.Base.{
  Bool-cases, ℕ, zero, suc, ◌+◌, ◌≤◌, ◌<◌, ◌≡◌, refl, ◌⊎◌, inl, inr, true, ◌&&◌, arith, ltb,
}
use print_os.Memory.MMap.{
  EfiMMapDesc, MemoryMap, get_desc, seg_sz, is_conventional, larger, largest_loop,
  get_largest_free_seg,
}

-- A conventional segment of the first `n`, with its size and address.
abbrev pub IsSegment : MemoryMap → ℕ → ℕ × ℕ → Type 0
IsSegment mm n best =
    (j : ℕ) × (j < n)
    × (is_conventional (get_desc mm j) ≡ true)
    × (best ≡ (seg_sz (get_desc mm j), (get_desc mm j).paddr))

module _ (mm : MemoryMap) where
  larger-ge : (best : ℕ × ℕ) (d : EfiMMapDesc) → best.0 ≤ (larger best d).0
  larger-ge best d = ground arith

  larger_conventional :
      (best : ℕ × ℕ) (d : EfiMMapDesc) → is_conventional d ≡ true → seg_sz d ≤ (larger best d).0
  larger_conventional best d c = ground arith

  largest_loop-ge : (k i : ℕ) (best : ℕ × ℕ) → best.0 ≤ (largest_loop mm k i best).0
  unfolding largest_loop
  largest_loop-ge zero i best = omega arith
  largest_loop-ge (suc k) i best = omega (
    arith,
    larger-ge best (get_desc mm i),
    largest_loop-ge k (i + 1) (larger best (get_desc mm i)),
  )

  largest_loop_max :
      (k i : ℕ) (best : ℕ × ℕ) (j : ℕ)
      → i ≤ j
      → j < i + k
      → is_conventional (get_desc mm j) ≡ true
      → seg_sz (get_desc mm j) ≤ (largest_loop mm k i best).0
  unfolding largest_loop
  largest_loop_max zero i best j lo hi c = absurd (omega arith)
  largest_loop_max (suc k) i best j lo hi c = elim (ℕ_discrete i j) [
    | yes e ↦
        let c' : is_conventional (get_desc mm i) ≡ true = rw e c in
        rw (← e) (
          le_trans (larger_conventional best (get_desc mm i) c')
            (largest_loop-ge k (i + 1) (larger best (get_desc mm i))))
    | no e ↦
        largest_loop_max k (i + 1) (larger best (get_desc mm i)) j (omega arith) (omega arith) c
  ]

  largest_loop_kept :
      (k i n : ℕ) (best : ℕ × ℕ)
      → i + k ≤ n
      → let out = largest_loop mm k i best in (out ≡ best) ⊎ IsSegment mm n out
  unfolding largest_loop
  largest_loop_kept zero i n best h = inl refl
  largest_loop_kept (suc k) i n best h =
      ground (arith, largest_loop_kept k (i + 1) n (larger best (get_desc mm i)), here)
    where
      d : EfiMMapDesc
      d = get_desc mm i

      here : (larger best d ≡ best) ⊎ IsSegment mm n (larger best d)
      here = elim (Bool-cases (is_conventional d && ltb best.0 (seg_sz d))) [
        | inl taken ↦ inr (i, omega arith, ground arith, rw taken)
        | inr kept ↦ inl (rw kept)
      ]

  -- The size that `get_largest_free_seg` returns is not exceeded by the size of any conventional
  -- segment of the first `n` descriptors, and either it is 0 and the address is left as it was, or
  -- the two are the size and the address of one of those segments.
  pub get_largest_free_seg_lem :
      (n seg : ℕ)
      → let out = get_largest_free_seg mm n seg in
        ((j : ℕ) → j < n → is_conventional (get_desc mm j) ≡ true → seg_sz (get_desc mm j) ≤ out.0)
        × ((out ≡ (0, seg)) ⊎ IsSegment mm n out)
  unfolding get_largest_free_seg
  get_largest_free_seg_lem n seg = (
    λ j h c. largest_loop_max n 0 (0, seg) j (omega arith) (omega arith) c,
    largest_loop_kept n 0 n (0, seg) (omega arith),
  )
