-- ===== src/Memory/PMem/Counters.antt =====
-- The two counters of kernel/src/memory/pmem.cpp count the free and the locked frames.
use print_os.Base.{
  ℕ, zero, suc, ◌+◌, ◌≤◌, ◌<◌, ◌≡◌, true, false, arith, ltb, if◌then◌else◌, Bool-cases, inl, inr,
  u64_mod,
}
use print_os.Memory.PMem.{PMem, inc, dec, locked, free_frame, lock_frame}
use print_os.Memory.PMem.Flags.{locked-lock_frame, locked-free_frame}
use print_os.Memory.PMem.Kept.{lock_frame-Kept, free_frame-Kept}

-- The free frames among the first `n`.
abbrev pub count_free : PMem → ℕ → ℕ
count_free p zero = 0
count_free p (suc n) = (if locked p n then 0 else 1) + count_free p n

pub count_free-le : (p : PMem) (n : ℕ) → count_free p n ≤ n
count_free-le p zero = omega arith
count_free-le p (suc n) = ground (arith, count_free-le p n)

pub record IsCounted (p : PMem) : Type 0 where
  pub small : p.frames < u64_mod
  pub free : p.free_frames ≡ count_free p p.frames
  pub total : p.free_frames + p.locked_frames ≡ p.frames

count_free-lock_frame :
    (p : PMem) (i n : ℕ)
    → locked p i ≡ false
    → count_free p n ≡ (if ltb i n then 1 else 0) + count_free (lock_frame i p) n
count_free-lock_frame p i zero h = ground arith
count_free-lock_frame p i (suc n) h =
    ground (arith, count_free-lock_frame p i n h, locked-lock_frame p i n)

pub count_free-free_frame :
    (p : PMem) (i n : ℕ)
    → locked p i ≡ true
    → count_free (free_frame i p) n ≡ (if ltb i n then 1 else 0) + count_free p n
count_free-free_frame p i zero h = ground arith
count_free-free_frame p i (suc n) h =
    ground (arith, count_free-free_frame p i n h, locked-free_frame p i n)

lock_frame-counters :
    (p : PMem) (i : ℕ)
    → let q = lock_frame i p in
      (q.free_frames ≡ (if locked p i then p.free_frames else dec p.free_frames))
      × (q.locked_frames ≡ (if locked p i then p.locked_frames else inc p.locked_frames))
      × (locked p i ≡ true → q ≡ p)
unfolding lock_frame
lock_frame-counters p i = ground arith

pub free_frame-counters :
    (p : PMem) (i : ℕ)
    → let q = free_frame i p in
      (q.free_frames ≡ (if locked p i then inc p.free_frames else p.free_frames))
      × (q.locked_frames ≡ (if locked p i then dec p.locked_frames else p.locked_frames))
      × (locked p i ≡ false → q ≡ p)
unfolding free_frame
free_frame-counters p i = ground arith

-- Locking a frame below `frames` keeps the counters right: `free_frames` is the number of unlocked
-- frames, and the two counters add up to `frames`.
pub lock_frame-IsCounted :
    {p : PMem} (i : ℕ) → i < p.frames → IsCounted p → IsCounted (lock_frame i p)
lock_frame-IsCounted {p} i h c = elim (Bool-cases (locked p i)) [
  | inl old ↦ rw ((lock_frame-counters p i).2 old) c
  | inr new ↦
      let f = (lock_frame-Kept i p).frames in
      record {
        small = rw f c.small;
        free =
            rw f (ground (arith, lock_frame-counters p i, count_free-lock_frame p i p.frames new));
        total = rw f (
            ground (
              arith,
              lock_frame-counters p i,
              count_free-lock_frame p i p.frames new,
              count_free-le p p.frames,
            ));
      }
]

-- Freeing a frame below `frames` keeps the counters right: `free_frames` is the number of unlocked
-- frames, and the two counters add up to `frames`.
pub free_frame-IsCounted :
    {p : PMem} (i : ℕ) → i < p.frames → IsCounted p → IsCounted (free_frame i p)
free_frame-IsCounted {p} i h c = elim (Bool-cases (locked p i)) [
  | inr old ↦ rw ((free_frame-counters p i).2 old) c
  | inl new ↦
      let f = (free_frame-Kept i p).frames in
      record {
        small = rw f c.small;
        free = rw f (
            ground (
              arith,
              free_frame-counters p i,
              count_free-free_frame p i p.frames new,
              count_free-le (free_frame i p) p.frames,
            ));
        total = rw f (
            ground (
              arith,
              free_frame-counters p i,
              count_free-free_frame p i p.frames new,
              count_free-le (free_frame i p) p.frames,
            ));
      }
]
