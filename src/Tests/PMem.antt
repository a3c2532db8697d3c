-- ===== src/Tests/PMem.antt =====
-- The theorems on kernel/src/memory/mmap.cpp and kernel/src/memory/pmem.cpp at concrete inputs.
use print_os.Base.{
  ℕ, ◌+◌, ◌/◌, ◌%◌, ◌≤◌, ◌<◌, ◌≡◌, refl, ◌≢◌, ◌⊎◌, true, not, ◌&&◌, ◌||◌, Option, none, some, arith,
  ◌==◌, leb, if◌then◌else◌, u64_mod,
}
use print_os.Libc.MemOps.{memset}
use print_os.Kutils.Bits.{set_bit, clear_bit, test_bit}
use print_os.Kutils.Bitmap
use print_os.Memory.MMap.{
  MemoryMap, get_desc, get_entire_memory_size, get_page_frames_number, get_largest_free_seg,
  largest_loop, is_usable_memory, is_conventional, seg_sz,
}
use print_os.Memory.MMap.Segments.{IsSegment, get_largest_free_seg_lem}
use print_os.Memory.PMem.{
  PMem, Boot, locked, free_frame, lock_frame, idx_to_frame_ptr, ptr_to_frame_idx, lock_loop,
  free_pages, free_usable, init_bitmap, lock_reserved, lay_out, create_from, create, request_loop,
  request_frame, Search, search_step, search_loop, search, accepts, lock_run, request_frames,
}
use print_os.Memory.PMem.Flags.{Fits, covered}
use print_os.Memory.PMem.Init.{reserved, create-locked}
use print_os.Memory.PMem.Counters.{IsCounted}
use print_os.Memory.PMem.Built.{Within, create-IsCounted}
use print_os.Memory.PMem.Request.{
  AllLocked, granted, Outcome, request_frame_lem, request_frame-IsCounted, request_frame_distinct,
  free_frame_lost,
}
use print_os.Memory.PMem.RequestFrames.{Found, request_frames_lem}
use print_os.Memory.PMem.RequestFrames.Faults.{request_frames_one}

-- Eight frames, of which the first two are locked.
abbrev eight : PMem
eight = record {
  last_free_idx = 0;
  free_frames = 6;
  locked_frames = 2;
  frames = 8;
  bitmap = record { self = 0; buffer = 1000; size = 1 };
  mem = λ q. if q == 1000 then 3 else 0;
}

eight-IsCounted : IsCounted eight
unfolding Bitmap.get test_bit
eight-IsCounted = record { small = omega arith; free = refl; total = refl }

request_frame_lem_example :
    (out : ℕ × PMem) × (request_frame eight ≡ some out) × Outcome eight 0 8 out
request_frame_lem_example = request_frame_lem eight (omega arith) (omega arith)

second : request_frame eight ≡ some (8192, granted eight 2)
unfolding request_frame request_loop idx_to_frame_ptr lock_frame Bitmap.get Bitmap.set test_bit
    set_bit
second = refl

request_frame-IsCounted_example :
    IsCounted (granted eight 2) × (0 ≤ 2) × (2 ≤ (granted eight 2).frames)
unfolding lock_frame
request_frame-IsCounted_example = request_frame-IsCounted second (omega arith) eight-IsCounted

third : request_frame (granted eight 2) ≡ some (12288, granted (granted eight 2) 3)
unfolding request_frame request_loop idx_to_frame_ptr lock_frame Bitmap.get Bitmap.set test_bit
    set_bit
third = refl

request_frame_distinct_example : ◌≢◌ {A = ℕ} 8192 12288
request_frame_distinct_example =
    request_frame_distinct eight (granted eight 2) second third (omega arith) (omega arith)
      (omega arith) (omega arith)

-- All eight frames are locked, and the last request gave the last of them.
abbrev full : PMem
full = record eight { last_free_idx = 7; free_frames = 0; locked_frames = 8; mem = λ q. 255 }

full-IsCounted : IsCounted full
unfolding Bitmap.get test_bit
full-IsCounted = record { small = omega arith; free = refl; total = refl }

last_locked : locked full 7 ≡ true
unfolding Bitmap.get test_bit
last_locked = refl

full-AllLocked : AllLocked full 7 8
full-AllLocked j a b = let e : 7 ≡ j = omega arith in rw (← e) last_locked

three_locked : locked full 3 ≡ true
unfolding Bitmap.get test_bit
three_locked = refl

free_frame_lost_example :
    let q = free_frame 3 full in (0 < q.free_frames) × (request_frame q ≡ some (0, q))
free_frame_lost_example =
    free_frame_lost full 3 full-IsCounted (omega arith) (omega arith) three_locked full-AllLocked

abbrev run_of_two : Search
run_of_two = record { start = 2; end = 3 }

two_given : request_frames 2 eight ≡ some (8192, lock_run run_of_two eight)
unfolding request_frames search search_loop search_step accepts idx_to_frame_ptr Bitmap.get test_bit
two_given = refl

request_frames_lem_example :
    (s : Search) × Found eight 2 0 s
    × (8192 ≡ idx_to_frame_ptr s.start)
    × ((j : ℕ)
        → locked (lock_run run_of_two eight) j ≡ ((leb s.start j && leb j s.end) || locked eight j))
    × IsCounted (lock_run run_of_two eight)
request_frames_lem_example = request_frames_lem eight 2 two_given (omega arith) eight-IsCounted

request_frames_one_example : request_frames 1 eight ≡ none
request_frames_one_example = request_frames_one eight (omega arith)

-- The last request gave frame 6.
abbrev ending : PMem
ending = record eight { last_free_idx = 6 }

-- A map of four usable pages, and one of another kind behind them.
abbrev two_segments : MemoryMap
two_segments = record {
  mmap_sz = 80;
  desc_sz = 40;
  entries = 2;
  mmap = 0;
  descs = λ a.
      if a == 0
      then record { kind = 7; paddr = 8192; vaddr = 0; pages = 4; attr = 0 }
      else record { kind = 0; paddr = 24576; vaddr = 0; pages = 1; attr = 0 };
}

abbrev boot : Boot
boot = record { map = two_segments; memory_entries = 2; stack = 12288; self = 4096 }

abbrev or_full : Option PMem → PMem
or_full none = full
or_full (some p) = p

abbrev made : PMem
made = or_full (create boot (λ q. 0))

made_eq : create boot (λ q. 0) ≡ some made
unfolding create create_from init_bitmap get_largest_free_seg largest_loop get_desc
    get_page_frames_number get_entire_memory_size Bitmap.create memset lay_out lock_reserved
    lock_loop free_usable free_pages is_usable_memory lock_frame free_frame ptr_to_frame_idx
    Bitmap.get Bitmap.set Bitmap.unset Bitmap.get_mem_size test_bit set_bit clear_bit
made_eq = refl

made_frames : made.frames ≡ 8
unfolding create create_from init_bitmap get_largest_free_seg largest_loop get_desc
    get_page_frames_number get_entire_memory_size Bitmap.create memset lay_out lock_reserved
    lock_loop free_usable free_pages is_usable_memory lock_frame free_frame ptr_to_frame_idx
    Bitmap.get Bitmap.set Bitmap.unset Bitmap.get_mem_size test_bit set_bit clear_bit
made_frames = refl

sizes_fit : Fits two_segments 2 0
unfolding get_desc
sizes_fit = (omega arith, (omega arith, tt))

create-locked_example :
    (made.bitmap.self ≡ 4096)
    × (made.bitmap.size ≡ (made.frames + 7) % u64_mod / 8)
    × (locked made 3 ≡ (reserved boot made.bitmap 3 || not (covered two_segments 2 0 3)))
create-locked_example =
    create-locked boot (λ q. 0) made_eq (omega arith) sizes_fit 3 (omega (arith, made_frames))

inside : Within two_segments (get_page_frames_number two_segments) 2 0
unfolding get_desc get_page_frames_number get_entire_memory_size is_usable_memory
inside = (λ h. omega arith, (λ h. omega arith, tt))

create-IsCounted_example : IsCounted made
unfolding get_page_frames_number get_entire_memory_size get_desc
create-IsCounted_example =
    create-IsCounted boot (λ q. 0) made_eq sizes_fit inside (omega arith) (omega arith)

get_largest_free_seg_lem_example :
    let out = get_largest_free_seg two_segments 2 0 in
    ((j : ℕ)
      → j < 2
      → is_conventional (get_desc two_segments j) ≡ true
      → seg_sz (get_desc two_segments j) ≤ out.0)
    × ((out ≡ (0, 0)) ⊎ IsSegment two_segments 2 out)
get_largest_free_seg_lem_example = get_largest_free_seg_lem two_segments 2 0
