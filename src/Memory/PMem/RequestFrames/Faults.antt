-- ===== src/Memory/PMem/RequestFrames/Faults.antt =====
-- What the third assertion of `request_frames`, `free_start_idx - free_end_idx >= number`, does: it
-- stops the kernel on every run of one frame, and lets a run through that is too short.
use mathlib.Core.Path.{◌≡⟨◌⟩◌, ◌∎}
use print_os.Base.{
  ℕ, zero, suc, ◌+◌, ◌-◌, ◌≤◌, ◌<◌, ◌≡◌, refl, ap, true, false, ◌&&◌, none, some, arith, ◌==◌, ltb,
  inl, inr, u64_mod,
}
use print_os.Memory.PMem.{
  PMem, locked, idx_to_frame_ptr, Search, search_loop, search, accepts, lock_run, request_frames,
}
use print_os.Memory.PMem.Request.{AllLocked}
use print_os.Memory.PMem.RequestFrames.{
  AllFree, Found, search-Found, step_taken, step_grow, step_begin,
}

one_rejected : (p : PMem) (s : Search) → Found p 1 p.last_free_idx s → accepts 1 s ≡ false
unfolding accepts
one_rejected p s run = ground (arith, run.started, run.ordered, run.size)

idle_rejected : (n : ℕ) (s : Search) → s.start ≡ 0 → accepts n s ≡ false
unfolding accepts
idle_rejected n s h = ground arith

-- A request for one frame stops the kernel by a failed assertion, whatever frames are free.
pub request_frames_one : (p : PMem) → p.last_free_idx ≤ p.frames → request_frames 1 p ≡ none
unfolding request_frames
request_frames_one p le = elim (search-Found p 1 (omega arith) le) [
  | inl idle ↦ rw (idle_rejected 1 (search p 1) idle)
  | inr run ↦ rw (one_rejected p (search p 1) run)
]

module _ (p : PMem) (n : ℕ) where
  -- The search passes over locked frames.
  search_skip :
      (k r i e : ℕ)
      → AllLocked p i (i + k)
      → search_loop p n (k + r) i (record { start = 0; end = e })
        ≡ search_loop p n r (i + k) (record { start = 0; end = e })
  unfolding search_loop
  search_skip zero r i e all =
      let none_left : 0 + r ≡ r = omega arith in
      let here : i + 0 ≡ i = omega arith in rw (none_left, here)
  search_skip (suc k) r i e all =
      let more : suc k + r ≡ suc (k + r) = omega arith in
      let on : i + suc k ≡ i + 1 + k = omega arith in
      rw
        (
          more,
          on,
          step_taken p i (record { start = 0; end = e }) (all i (omega arith) (omega arith)),
        )
        (search_skip k r (i + 1) e (λ j a b. all j (omega arith) (omega arith)))

  -- It takes in free frames up to the last, while the run is shorter than `n`.
  search_tail :
      (k i : ℕ) (s : Search)
      → 0 < s.start
      → s.end + 1 ≡ i
      → s.start ≤ s.end
      → i + k ≤ s.start + n
      → ((j : ℕ) → i ≤ j → j < i + k → locked p j ≡ false)
      → search_loop p n k i s ≡ record s { end = s.end + k }
  unfolding search_loop
  search_tail zero i s h e o short free = let same : s.end + 0 ≡ s.end = omega arith in rw same
  search_tail (suc k) i s h e o short free =
      let go : (ltb 0 s.start && i - s.start == n) ≡ false = ground arith in
      let last : i + k ≡ s.end + suc k = omega arith in
      rw (go, step_grow p i s (free i (omega arith) (omega arith)) h, ← last)
        (search_tail k (i + 1) (record s { end = i }) h refl (omega arith) (omega arith)
          (λ j a b. free j (omega arith) (omega arith)))

short_accepted :
    (n b e : ℕ)
    → 0 < b
    → b < e
    → e < u64_mod
    → n + e < u64_mod + b + 1
    → accepts n (record { start = b; end = e }) ≡ true
unfolding accepts
short_accepted n b e pos lt small fits = ground arith

search_short :
    (p : PMem) (number b k : ℕ)
    → p.last_free_idx ≤ b
    → 0 < b
    → b + (2 + k) ≡ p.frames
    → 2 + k < number
    → AllLocked p p.last_free_idx b
    → AllFree p b (b + 1 + k)
    → search p number ≡ record { start = b; end = b + 1 + k }
unfolding search
search_short p number b k le pos e short taken free =
    search_loop p number (p.frames - lo) lo idle
    ≡⟨ ap (λ (r : ℕ). search_loop p number r lo idle) rounds ⟩
      search_loop p number (b - lo + suc (suc k)) lo idle
    ≡⟨ search_skip p number (b - lo) (suc (suc k)) lo 0 (λ j a h. taken j a (omega arith)) ⟩
      search_loop p number (suc (suc k)) (lo + (b - lo)) idle
    ≡⟨ ap (λ (i : ℕ). search_loop p number (suc (suc k)) i idle) here ⟩
      search_loop p number (suc (suc k)) b idle
    ≡⟨ begin ⟩ search_loop p number (suc k) (b + 1) (record { start = b; end = b })
    ≡⟨ tail ⟩ record { start = b; end = b + 1 + k } ∎
  where
    lo : ℕ
    lo = p.last_free_idx

    idle : Search
    idle = record { start = 0; end = 0 }

    rounds : p.frames - lo ≡ b - lo + suc (suc k)
    rounds = omega arith

    here : lo + (b - lo) ≡ b
    here = omega arith

    begin :
        search_loop p number (suc (suc k)) b idle
        ≡ search_loop p number (suc k) (b + 1) (record { start = b; end = b })
    begin = unfold search_loop in rw (step_begin p b idle (free b (omega arith) (omega arith)) refl)

    tail :
        search_loop p number (suc k) (b + 1) (record { start = b; end = b })
        ≡ record { start = b; end = b + 1 + k }
    tail =
        let last : b + suc k ≡ b + 1 + k = omega arith in
        rw (← last) (
          search_tail p number (suc k) (b + 1) (record { start = b; end = b }) pos refl
            (omega arith) (omega arith) (λ j a h. free j (omega arith) (omega arith)))

-- With the frames from `last_free_idx` up to `b` locked and all those from `b` to the end free, at
-- least two of them and fewer than `number`, `request_frames` does not fail: it returns the
-- address of `b`, having locked only the frames that there are.
pub request_frames_short :
    (p : PMem) (number b k : ℕ)
    → p.last_free_idx ≤ b
    → 0 < b
    → b + (2 + k) ≡ p.frames
    → 2 + k < number
    → number + p.frames < u64_mod
    → AllLocked p p.last_free_idx b
    → AllFree p b (b + 1 + k)
    → request_frames number p
      ≡ some (idx_to_frame_ptr b, lock_run (record { start = b; end = b + 1 + k }) p)
unfolding request_frames
request_frames_short p number b k le pos e short fits taken free =
    rw
      (
        search_short p number b k le pos e short taken free,
        short_accepted number b (b + 1 + k) pos (omega arith) (omega arith) (omega arith),
      )
      (ground arith)
