-- ===== src/Memory/PMem/Built.antt =====
-- The counters after the constructor of kernel/src/memory/pmem.cpp.
use print_os.Base.{
  ℕ, zero, suc, ◌+◌, ◌*◌, ◌/◌, ◌%◌, ◌≤◌, ◌<◌, ◌≡◌, refl, sym, ap, true, false, some, arith,
  Bool-cases, inl, inr, u64_mod,
}
use print_os.Mem.{Mem}
use print_os.Kutils.Bitmap
use print_os.Kutils.Bitmap.{Bitmap}
use print_os.Kutils.Bitmap.Laws.{get-create}
use print_os.Memory.MMap.{
  EfiMMapDesc, MemoryMap, get_desc, get_page_frames_number, get_largest_free_seg, is_usable_memory,
}
use print_os.Memory.PMem.{
  PMem, Boot, locked, lock_frame, lock_loop, free_pages, free_usable, page_frame, init_bitmap,
  blank, lock_reserved, lay_out, create,
}
use print_os.Memory.PMem.Flags.{Fits, page_frame_lem}
use print_os.Memory.PMem.Kept.{
  Kept-trans, Kept, lock_frame-Kept, free_frame-Kept, lock_loop-Kept, free_usable-Kept,
  free_pages-Kept,
}
use print_os.Memory.PMem.Counters.{
  IsCounted, count_free, lock_frame-IsCounted, free_frame-IsCounted,
}
use print_os.Memory.PMem.Init.{Built, create-Built, init_bitmap-Bitmap}

pub lock_loop-IsCounted :
    (k start i : ℕ) {p : PMem}
    → start + i + k ≤ p.frames
    → IsCounted p
    → IsCounted (lock_loop k start i p)
unfolding lock_loop
lock_loop-IsCounted zero start i h c = c
lock_loop-IsCounted (suc k) start i {p} h c =
    let here : (start + i) % u64_mod < p.frames = omega (arith, c.small) in
    lock_loop-IsCounted k start (i + 1)
      (omega (arith, (lock_frame-Kept ((start + i) % u64_mod) p).frames))
      (lock_frame-IsCounted ((start + i) % u64_mod) here c)

free_pages-IsCounted :
    (d : EfiMMapDesc) (k n : ℕ) {p : PMem}
    → (n + k) * 4096 < u64_mod
    → d.paddr / 4096 + n + k ≤ p.frames
    → IsCounted p
    → IsCounted (free_pages d k n p)
unfolding free_pages
free_pages-IsCounted d zero n s h c = c
free_pages-IsCounted d (suc k) n {p} s h c =
    let here : page_frame d n < p.frames = omega (arith, page_frame_lem d n (omega arith)) in
    free_pages-IsCounted d k (n + 1) (omega arith)
      (omega (arith, (free_frame-Kept (page_frame d n) p).frames))
      (free_frame-IsCounted (page_frame d n) here c)

-- The usable segments among the `k` from index `i` on end within the first `frames` frames.
abbrev pub Within : MemoryMap → (frames k i : ℕ) → Type 0
Within mm frames zero i = Unit {0}
Within mm frames (suc k) i =
    (is_usable_memory (get_desc mm i) ≡ true
      → (get_desc mm i).paddr / 4096 + (get_desc mm i).pages ≤ frames)
    × Within mm frames k (i + 1)

free_usable-IsCounted :
    (mm : MemoryMap) (k i : ℕ) {p : PMem}
    → Fits mm k i
    → Within mm p.frames k i
    → IsCounted p
    → IsCounted (free_usable mm k i p)
unfolding free_usable
free_usable-IsCounted mm zero i s h c = c
free_usable-IsCounted mm (suc k) i {p} s h c =
    elim (Bool-cases (is_usable_memory (get_desc mm i))) [
      | inl usable ↦
          let d = get_desc mm i in
          rw usable (
            free_usable-IsCounted mm k (i + 1) s.1 (rw (free_pages-Kept d d.pages 0 p).frames h.1)
              (free_pages-IsCounted d d.pages 0 (omega (arith, s.0)) (omega (arith, h.0 usable)) c))
      | inr other ↦ rw other (free_usable-IsCounted mm k (i + 1) s.1 h.1 c)
    ]

count_free_all : (p : PMem) (n : ℕ) → ((j : ℕ) → j < n → locked p j ≡ false) → count_free p n ≡ n
count_free_all p zero h = refl
count_free_all p (suc n) h = ground (arith, h n, count_free_all p n (λ j l. h j (omega arith)))

frames_small : (mm : MemoryMap) → get_page_frames_number mm + 7 < u64_mod
unfolding get_page_frames_number
frames_small mm = omega arith

init_bitmap-create :
    (k : Boot) (m : Mem) {bm : Bitmap × Mem}
    → init_bitmap k m ≡ some bm
    → let seg = (get_largest_free_seg k.map k.memory_entries 0).1 in
      bm ≡ Bitmap.create m k.self seg (get_page_frames_number k.map)
unfolding init_bitmap
init_bitmap-create k m e = ground arith

blank-IsCounted :
    (k : Boot) (m : Mem) {bm : Bitmap × Mem} → init_bitmap k m ≡ some bm → IsCounted (blank k bm)
blank-IsCounted k m {bm} e = record {
  small = omega (arith, frames_small k.map);
  free = sym (count_free_all (blank k bm) _ clear);
  total = omega arith;
}
  where
    clear : (j : ℕ) → j < get_page_frames_number k.map → locked (blank k bm) j ≡ false
    clear j h = rw (init_bitmap-create k m e) (get-create m k.self _ _ j (frames_small k.map) h)

lay_out-IsCounted :
    (k : Boot) {p : PMem}
    → 0 < p.frames
    → p.bitmap.self / 4096 + p.bitmap.size / 4096 ≤ p.frames
    → k.stack / 4096 < p.frames
    → Fits k.map k.map.entries 0
    → Within k.map p.frames k.map.entries 0
    → IsCounted p
    → IsCounted (lay_out k p)
unfolding lay_out lock_reserved
lay_out-IsCounted k {p} h hb hs fits within c =
    let all = lock_loop p.frames 0 0 p in
    let freed = free_usable k.map k.map.entries 0 all in
    let kept : Kept p freed =
      Kept-trans (lock_loop-Kept p.frames 0 0 p) (free_usable-Kept k.map k.map.entries 0 all) in
    let first : Kept p (lock_frame 0 freed) = Kept-trans kept (lock_frame-Kept 0 freed) in
    let second : Kept p (lock_frame (k.stack / 4096) (lock_frame 0 freed)) =
      Kept-trans first (lock_frame-Kept (k.stack / 4096) (lock_frame 0 freed)) in
    lock_loop-IsCounted (freed.bitmap.size / 4096) (freed.bitmap.self / 4096) 0
      (rw (second.frames) (
        omega (
          arith,
          ap (λ (b : Bitmap). b.size) kept.bitmap,
          ap (λ (b : Bitmap). b.self) kept.bitmap,
        )))
      (lock_frame-IsCounted (k.stack / 4096) (rw first.frames hs) (
        lock_frame-IsCounted 0 (rw kept.frames h) (
          free_usable-IsCounted k.map k.map.entries 0 fits
            (rw (lock_loop-Kept p.frames 0 0 p).frames within)
            (lock_loop-IsCounted p.frames 0 0 (omega arith) c))))

-- When the constructor succeeds, `free_frames` is the number of unlocked frames and the counters
-- add up to `frames`, given that no segment's size overflows and that the usable segments, the
-- stack and the frames counted from the bitmap object lie below `frames`.
pub create-IsCounted :
    (k : Boot) (m : Mem) {p : PMem}
    → create k m ≡ some p
    → Fits k.map k.map.entries 0
    → Within k.map (get_page_frames_number k.map) k.map.entries 0
    → k.stack / 4096 < get_page_frames_number k.map
    → k.self / 4096 + (get_page_frames_number k.map + 7) / 8 / 4096 ≤ get_page_frames_number k.map
    → IsCounted p
create-IsCounted k m {p} h fits within hs hb =
    rw b.laid_out
      (lay_out-IsCounted k (omega arith) bitmap_fits hs fits within (blank-IsCounted k m b.made))
  where
    b : Built k m p
    b = create-Built k m h

    bitmap_fits : b.bitmap.self / 4096 + b.bitmap.size / 4096 ≤ get_page_frames_number k.map
    bitmap_fits = omega (arith, init_bitmap-Bitmap k m b.made, frames_small k.map)
