-- ===== src/Memory/PMem/RequestFrames.antt =====
-- `request_frames` of kernel/src/memory/pmem.cpp: the run of frames that its search finds, and what
-- its assertions let through.
pub mod Faults
use native.Mathlib.Decide.{ℕ_discrete}
use print_os.Base.{
  ℕ, zero, suc, ◌+◌, ◌-◌, ◌*◌, ◌%◌, ◌≤◌, ◌<◌, ◌≡◌, refl, sym, ap, ◌∙◌, ◌⊎◌, ◌≢◌, Bool, true, false,
  not, ◌&&◌, ◌||◌, Option, none, some, arith, ◌==◌, ltb, leb, if◌then◌else◌, Bool-cases, inl, inr,
  u64_mod,
}
use print_os.Memory.PMem.{
  PMem, locked, lock_loop, idx_to_frame_ptr, Search, search_step, search_loop, search, accepts,
  lock_run, request_frames,
}
use print_os.Memory.PMem.Flags.{locked-lock_loop}
use print_os.Memory.PMem.Kept.{Kept, lock_loop-Kept}
use print_os.Memory.PMem.Counters.{IsCounted}
use print_os.Memory.PMem.Built.{lock_loop-IsCounted}

-- Every frame from `lo` up to `hi`, with `hi`, is free.
abbrev pub AllFree : PMem → (lo hi : ℕ) → Type 0
AllFree p lo hi = (j : ℕ) → lo ≤ j → j ≤ hi → locked p j ≡ false

-- At index `i` the search is in a run that reaches up to the frame before.
pub record InRun (p : PMem) (number lo i : ℕ) (s : Search) : Type 0 where
  pub started : 0 < s.start
  pub from : lo ≤ s.start
  pub ordered : s.start ≤ s.end
  pub last : s.end + 1 ≡ i
  pub short : i ≤ s.start + number
  pub free : AllFree p s.start s.end

abbrev pub State : PMem → (number lo i : ℕ) → Search → Type 0
State p number lo i s = (s.start ≡ 0) ⊎ InRun p number lo i s

-- What the search leaves: no run, or a run of free frames that is as long as asked for, or ends
-- with the last frame and is at most that long.
pub record Found (p : PMem) (number lo : ℕ) (s : Search) : Type 0 where
  pub started : 0 < s.start
  pub from : lo ≤ s.start
  pub ordered : s.start ≤ s.end
  pub below : s.end < p.frames
  pub free : AllFree p s.start s.end
  pub size :
      (s.end + 1 ≡ s.start + number) ⊎ ((s.end + 1 ≡ p.frames) × (p.frames ≤ s.start + number))

module _ (p : PMem) (i : ℕ) (s : Search) where
  step_taken : locked p i ≡ true → search_step p i s ≡ record s { start = 0 }
  unfolding search_step
  step_taken e = ground arith

  step_grow : locked p i ≡ false → 0 < s.start → search_step p i s ≡ record s { end = i }
  unfolding search_step
  step_grow e h = ground arith

  step_begin : locked p i ≡ false → s.start ≡ 0 → search_step p i s ≡ record { start = i; end = i }
  unfolding search_step
  step_begin e h = ground arith

AllFree-grow :
    (p : PMem) {lo hi i : ℕ} → hi + 1 ≡ i → locked p i ≡ false → AllFree p lo hi → AllFree p lo i
AllFree-grow p {i} e free all j a b = elim (ℕ_discrete j i) [
  | yes h ↦ rw h free
  | no h ↦ all j a (omega arith)
]

AllFree-one : (p : PMem) {i : ℕ} → locked p i ≡ false → AllFree p i i
AllFree-one p {i} free j a b = let e : j ≡ i = omega arith in rw e free

module _ (p : PMem) (number lo : ℕ) (wanted : 0 < number) where
  begin-State :
      (i : ℕ)
      → lo ≤ i
      → locked p i ≡ false
      → State p number lo (i + 1) (record { start = i; end = i })
  begin-State i h free = elim (ℕ_discrete i 0) [
    | yes e ↦ inl e
    | no e ↦ inr (record {
      started = omega arith;
      from = h;
      ordered = omega arith;
      last = refl;
      short = omega arith;
      free = AllFree-one p free;
    })
  ]

  search_step-State :
      (i : ℕ) (s : Search)
      → lo ≤ i
      → State p number lo i s
      → (ltb 0 s.start && i - s.start == number) ≡ false
      → State p number lo (i + 1) (search_step p i s)
  search_step-State i s h st go = elim (Bool-cases (locked p i)) [
    | inl taken ↦ rw (step_taken p i s taken) (inl refl)
    | inr free ↦ elim st [
      | inl idle ↦ rw (step_begin p i s free idle) (begin-State i h free)
      | inr run ↦ rw (step_grow p i s free run.started) (
          inr (record {
            started = run.started;
            from = run.from;
            ordered = omega (arith, run.ordered, run.last);
            last = refl;
            short = ground (arith, run.started, run.ordered, run.last, run.short);
            free = AllFree-grow p run.last free run.free;
          }))
    ]
  ]

  search_loop-Found :
      (k i : ℕ) (s : Search)
      → lo ≤ i
      → i + k ≡ p.frames
      → State p number lo i s
      → let out = search_loop p number k i s in (out.start ≡ 0) ⊎ Found p number lo out
  unfolding search_loop
  search_loop-Found zero i s h e (inl idle) = inl idle
  search_loop-Found zero i s h e (inr run) = inr (record {
    started = run.started;
    from = run.from;
    ordered = run.ordered;
    below = omega (arith, run.last);
    free = run.free;
    size = inr (omega (arith, run.last), omega (arith, run.short));
  })
  search_loop-Found (suc k) i s h e st =
      elim (Bool-cases (ltb 0 s.start && i - s.start == number)) [
        | inl full ↦ rw full (elim st [
          | inl idle ↦ inl idle
          | inr run ↦
              let ended : i - 1 ≡ s.end = omega (arith, run.last) in
              rw ended (
                inr (record {
                  started = run.started;
                  from = run.from;
                  ordered = run.ordered;
                  below = omega (arith, run.last);
                  free = run.free;
                  size = inl (ground (arith, run.started, run.ordered, run.last, run.short));
                }))
        ])
        | inr go ↦ rw go (
            search_loop-Found k (i + 1) (search_step p i s) (omega arith) (omega arith)
              (search_step-State i s h st go))
      ]

search-Found :
    (p : PMem) (number : ℕ)
    → 0 < number
    → p.last_free_idx ≤ p.frames
    → ((search p number).start ≡ 0) ⊎ Found p number p.last_free_idx (search p number)
unfolding search
search-Found p number wanted le =
    search_loop-Found p number p.last_free_idx wanted _ p.last_free_idx _ (omega arith)
      (omega arith) (inl refl)

accepts-started : (number : ℕ) (s : Search) → accepts number s ≡ true → 0 < s.start
unfolding accepts
accepts-started number s h = ground arith

request_frames-cases :
    (p : PMem) (number : ℕ) {out : ℕ × PMem}
    → request_frames number p ≡ some out
    → (0 < number)
      × (accepts number (search p number) ≡ true)
      × (out ≡ (idx_to_frame_ptr (search p number).start, lock_run (search p number) p))
unfolding request_frames
request_frames-cases p number h = ground arith

-- When `request_frames` succeeds, the address that it returns is that of the first frame of a run
-- of frames from `last_free_idx` on, all of them free before. The run has the length asked for, or
-- ends with the last frame and is shorter; exactly its frames become locked besides those that
-- were; and the counters stay right.
pub request_frames_lem :
    (p : PMem) (number : ℕ) {ptr : ℕ} {q : PMem}
    → request_frames number p ≡ some (ptr, q)
    → p.last_free_idx ≤ p.frames
    → IsCounted p
    → (s : Search) × Found p number p.last_free_idx s
      × (ptr ≡ idx_to_frame_ptr s.start)
      × ((j : ℕ) → locked q j ≡ ((leb s.start j && leb j s.end) || locked p j))
      × IsCounted q
unfolding lock_run
request_frames_lem p number {ptr} {q} h le c = elim (search-Found p number wanted le) [
  | inl idle ↦ absurd (omega (arith, accepts-started number s ok))
  | inr run ↦
      let rounds : s.start + 0 + (s.end + 1 - s.start) ≡ s.end + 1 = omega (arith, run.ordered) in
      let kept = ap (λ (o : ℕ × PMem). o.1) e in
      (
        s,
        run,
        ap (λ (o : ℕ × PMem). o.0) e,
        λ j. rw kept (
            ground (
              arith,
              locked-lock_loop (s.end + 1 - s.start) s.start 0 j p,
              run.below,
              run.ordered,
              c.small,
            )),
        rw kept (
            lock_loop-IsCounted (s.end + 1 - s.start) s.start 0 (omega (arith, rounds, run.below))
              c),
      )
]
  where
    s : Search
    s = search p number

    wanted : 0 < number
    wanted = (request_frames-cases p number h).0

    ok : accepts number s ≡ true
    ok = (request_frames-cases p number h).1

    e : ◌≡◌ {A = ℕ × PMem} (ptr, q) (idx_to_frame_ptr s.start, lock_run s p)
    e = (request_frames-cases p number h).2
