-- ===== src/Memory/PMem/Request.antt =====
-- `request_frame` of kernel/src/memory/pmem.cpp: which frame it hands out.
use native.Mathlib.Decide.{ℕ_discrete}
use print_os.Base.{
  ℕ, zero, suc, ◌+◌, ◌-◌, ◌*◌, ◌≤◌, ◌<◌, ◌≡◌, refl, sym, subst, ap, ◌∙◌, ◌⊎◌, ◌≢◌, true, false,
  some, arith, Bool-cases, inl, inr, u64_mod,
}
use print_os.Memory.PMem.{
  PMem, locked, free_frame, lock_frame, idx_to_frame_ptr, request_loop, request_frame,
}
use print_os.Memory.PMem.Flags.{locked-lock_frame, locked-free_frame}
use print_os.Memory.PMem.Kept.{Kept, lock_frame-Kept, free_frame-Kept}
use print_os.Memory.PMem.Counters.{
  IsCounted, count_free, lock_frame-IsCounted, count_free-le, free_frame-counters,
  count_free-free_frame,
}

-- Every frame from `lo` up to `hi`, without `hi`, is locked.
abbrev pub AllLocked : PMem → (lo hi : ℕ) → Type 0
AllLocked p lo hi = (j : ℕ) → lo ≤ j → j < hi → locked p j ≡ true

-- The object after frame `i` has been handed out.
abbrev pub granted : PMem → ℕ → PMem
granted p i = record (lock_frame i p) { last_free_idx = i }

-- Frame `i` is the first free one in the range.
pub record First (p : PMem) (lo hi i : ℕ) : Type 0 where
  pub from : lo ≤ i
  pub below : i < hi
  pub is_free : locked p i ≡ false
  pub before : AllLocked p lo i

-- What a search of the range gives.
abbrev pub Outcome : PMem → (lo hi : ℕ) → ℕ × PMem → Type 0
Outcome p lo hi out =
    ((i : ℕ) × First p lo hi i × (out ≡ (idx_to_frame_ptr i, granted p i)))
    ⊎ (AllLocked p lo hi × (out ≡ (0, p)))

AllLocked-step :
    (p : PMem) (lo hi : ℕ) → locked p lo ≡ true → AllLocked p (lo + 1) hi → AllLocked p lo hi
AllLocked-step p lo hi e all j a b = elim (ℕ_discrete lo j) [
  | yes h ↦ rw h at e
  | no h ↦ all j (omega arith) b
]

request_loop-Outcome :
    (p : PMem) (k lo hi : ℕ) → lo + k ≡ hi → Outcome p lo hi (request_loop k lo p)
unfolding request_loop
request_loop-Outcome p zero lo hi e = inr (λ j a b. absurd (omega arith), refl)
request_loop-Outcome p (suc k) lo hi e = elim (Bool-cases (locked p lo)) [
  | inr free ↦ rw free (
      inl (
        lo,
        record {
          from = omega arith;
          below = omega arith;
          is_free = free;
          before = λ j a b. absurd (omega arith);
        },
        refl,
      ))
  | inl taken ↦ rw taken (elim (request_loop-Outcome p k (lo + 1) hi (omega arith)) [
    | inl (i, f, e') ↦ inl (
      i,
      record {
        from = omega (arith, f.from);
        below = f.below;
        is_free = f.is_free;
        before = AllLocked-step p lo i taken f.before;
      },
      e',
    )
    | inr (all, e') ↦ inr (AllLocked-step p lo hi taken all, e')
  ])
]

-- With a free frame counted, `request_frame` passes its assertion and returns the address of the
-- first free frame from `last_free_idx` on, which it locks and makes the new `last_free_idx`; if
-- there is none from there on, it returns null and changes nothing.
pub request_frame_lem :
    (p : PMem)
    → 0 < p.free_frames
    → p.last_free_idx ≤ p.frames
    → (out : ℕ × PMem) × (request_frame p ≡ some out) × Outcome p p.last_free_idx p.frames out
unfolding request_frame
request_frame_lem p h le = (
  request_loop (p.frames - p.last_free_idx) p.last_free_idx p,
  ground arith,
  request_loop-Outcome p (p.frames - p.last_free_idx) p.last_free_idx p.frames (omega arith),
)

count_free-last_free_idx :
    (p : PMem) (i n : ℕ) → count_free (record p { last_free_idx = i }) n ≡ count_free p n
count_free-last_free_idx p i zero = refl
count_free-last_free_idx p i (suc n) = omega (arith, count_free-last_free_idx p i n)

granted-IsCounted : {p : PMem} (i : ℕ) → i < p.frames → IsCounted p → IsCounted (granted p i)
granted-IsCounted {p} i h c =
    let counted = lock_frame-IsCounted i h c in
    record {
      small = counted.small;
      free =
          counted.free ∙ sym (count_free-last_free_idx (lock_frame i p) i (lock_frame i p).frames);
      total = counted.total;
    }

-- The result of a request that passes its assertion, by cases.
pub request_frame-cases :
    {p : PMem} {out : ℕ × PMem}
    → request_frame p ≡ some out
    → p.last_free_idx ≤ p.frames
    → Outcome p p.last_free_idx p.frames out
unfolding request_frame
request_frame-cases {p} {out} h le =
    let loop = request_loop (p.frames - p.last_free_idx) p.last_free_idx p in
    let e : loop ≡ out = ground arith in
    subst (Outcome p p.last_free_idx p.frames) e
      (request_loop-Outcome p (p.frames - p.last_free_idx) p.last_free_idx p.frames (omega arith))

-- `request_frame` keeps the counters right, and keeps `last_free_idx` within `frames`.
pub request_frame-IsCounted :
    {p : PMem} {out : ℕ × PMem}
    → request_frame p ≡ some out
    → p.last_free_idx ≤ p.frames
    → IsCounted p
    → IsCounted out.1
      × (p.last_free_idx ≤ out.1.last_free_idx)
      × (out.1.last_free_idx ≤ out.1.frames)
request_frame-IsCounted {p} h le c = elim (request_frame-cases h le) [
  | inl (i, f, e) ↦
      rw e (
        granted-IsCounted i f.below c,
        f.from,
        omega (arith, f.below, (lock_frame-Kept i p).frames),
      )
  | inr (all, e) ↦ rw e (c, omega arith, le)
]

-- A frame that `request_frame` hands out is not handed out by the next call: two addresses that
-- are not null differ, given that the addresses of all frames fit 64 bits.
pub request_frame_distinct :
    (p q : PMem) {r : PMem} {a b : ℕ}
    → request_frame p ≡ some (a, q)
    → request_frame q ≡ some (b, r)
    → p.last_free_idx ≤ p.frames
    → p.frames * 4096 ≤ u64_mod
    → a ≢ 0
    → b ≢ 0
    → a ≢ b
unfolding idx_to_frame_ptr
request_frame_distinct p q {r} {a} {b} h₁ h₂ le fit na nb = elim (request_frame-cases h₁ le) [
  | inl (i, f, e) ↦ elim (request_frame-cases h₂ (kept i f e).1) [
    | inl (j, g, e') ↦ ground (
      arith,
      kept i f e,
      f.below,
      g.below,
      g.is_free,
      fst_eq e,
      fst_eq e',
      locked-lock_frame p i j,
      ap (λ (p' : PMem). locked p' j) (snd_eq e),
    )
    | inr (all, e') ↦ absurd (nb (fst_eq e'))
  ]
  | inr (all, e) ↦ absurd (na (fst_eq e))
]
  where
    fst_eq : {x y : ℕ} {s t : PMem} → ◌≡◌ {A = ℕ × PMem} (x, s) (y, t) → x ≡ y
    fst_eq e = ap (λ (o : ℕ × PMem). o.0) e

    snd_eq : {x y : ℕ} {s t : PMem} → ◌≡◌ {A = ℕ × PMem} (x, s) (y, t) → s ≡ t
    snd_eq e = ap (λ (o : ℕ × PMem). o.1) e

    kept :
        (i : ℕ)
        → First p p.last_free_idx p.frames i
        → ◌≡◌ {A = ℕ × PMem} (a, q) (idx_to_frame_ptr i, granted p i)
        → (q.frames ≡ p.frames) × (q.last_free_idx ≤ q.frames)
    kept i f e = rw (snd_eq e) (
      omega (arith, (lock_frame-Kept i p).frames),
      omega (arith, f.below, (lock_frame-Kept i p).frames),
    )

-- Frames freed below `last_free_idx` are not found again: with all frames from there on locked,
-- freeing such a frame leaves a positive count of free frames, and yet the next request is null.
pub free_frame_lost :
    (p : PMem) (i : ℕ)
    → IsCounted p
    → i < p.last_free_idx
    → p.last_free_idx ≤ p.frames
    → locked p i ≡ true
    → AllLocked p p.last_free_idx p.frames
    → let q = free_frame i p in (0 < q.free_frames) × (request_frame q ≡ some (0, q))
free_frame_lost p i c lt le h all =
    let (out, e, outcome) =
      request_frame_lem q positive (omega (arith, kept.frames, kept.last_free_idx)) in
    (positive, elim outcome [ inl (j, f, _) ↦ absurd (found j f) | inr (_, e') ↦ e ∙ ap some e' ])
  where
    q : PMem
    q = free_frame i p

    kept : Kept p q
    kept = free_frame-Kept i p

    positive : 0 < q.free_frames
    positive = ground (
      arith,
      free_frame-counters p i,
      count_free-free_frame p i p.frames h,
      count_free-le q p.frames,
    )

    found : (j : ℕ) → First q q.last_free_idx q.frames j → ⊥
    found j f = ground (
      arith,
      f.from,
      f.below,
      f.is_free,
      kept.frames,
      kept.last_free_idx,
      locked-free_frame p i j,
      all j,
    )
