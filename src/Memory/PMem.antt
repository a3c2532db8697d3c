-- ===== src/Memory/PMem.antt =====
-- kernel/src/memory/pmem.{hpp,cpp}: the allocator of physical frames. The record is the object,
-- with the memory that its bitmap lies in. A method returns the new object beside its result, and
-- `none` where an assertion fails: the kernel then stops for good. Null is 0.
pub mod Flags
pub mod Kept
pub mod Init
pub mod Counters
pub mod Built
pub mod Request
pub mod RequestFrames
use print_os.Base.{
  ℕ, zero, suc, ◌+◌, ◌-◌, ◌*◌, ◌/◌, ◌%◌, Bool, true, false, not, ◌&&◌, Option, none, some, ◌==◌,
  ltb, leb, if◌then◌else◌, u64_mod,
}
use print_os.Mem.{Mem}
use print_os.Kutils.Bitmap
use print_os.Kutils.Bitmap.{Bitmap}
use print_os.Memory.MMap.{
  EfiMMapDesc, MemoryMap, frame_sz, get_desc, get_page_frames_number, get_largest_free_seg,
  is_usable_memory,
}

pub record PMem : Type 0 where
  pub last_free_idx : ℕ
  pub free_frames : ℕ
  pub locked_frames : ℕ
  pub frames : ℕ
  pub bitmap : Bitmap
  pub mem : Mem

-- `++` and `--` on a `size`.
abbrev pub inc : ℕ → ℕ
inc n = (n + 1) % u64_mod

abbrev pub dec : ℕ → ℕ
dec n = (n + u64_mod - 1) % u64_mod

-- `this->__bitmap.get(idx)`.
abbrev pub locked : PMem → ℕ → Bool
locked p idx = Bitmap.get p.mem p.bitmap idx

unfoldable pub free_frame : ℕ → PMem → PMem
free_frame idx p =
    if locked p idx
    then record p {
      mem = Bitmap.unset p.mem p.bitmap idx;
      free_frames = inc p.free_frames;
      locked_frames = dec p.locked_frames;
    }
    else p

unfoldable pub lock_frame : ℕ → PMem → PMem
lock_frame idx p =
    if not (locked p idx)
    then record p {
      mem = Bitmap.set p.mem p.bitmap idx;
      free_frames = dec p.free_frames;
      locked_frames = inc p.locked_frames;
    }
    else p

unfoldable pub ptr_to_frame_idx : ℕ → ℕ
ptr_to_frame_idx ptr = ptr / frame_sz

unfoldable pub idx_to_frame_ptr : ℕ → ℕ
idx_to_frame_ptr idx = idx * frame_sz % u64_mod

-- The loops `for (i …; rounds times) this->lock_frame(start + i)`.
unfoldable pub lock_loop : (rounds start i : ℕ) → PMem → PMem
lock_loop zero start i p = p
lock_loop (suc k) start i p = lock_loop k start (i + 1) (lock_frame ((start + i) % u64_mod) p)

-- The frame of page `n` of a segment.
abbrev pub page_frame : EfiMMapDesc → ℕ → ℕ
page_frame d n = ptr_to_frame_idx (d.paddr + n * frame_sz % u64_mod)

-- The loop over the pages of a segment, in the constructor.
unfoldable pub free_pages : EfiMMapDesc → (rounds n : ℕ) → PMem → PMem
free_pages d zero n p = p
free_pages d (suc k) n p = free_pages d k (n + 1) (free_frame (page_frame d n) p)

-- The loop over the memory map, in the constructor.
unfoldable pub free_usable : MemoryMap → (rounds i : ℕ) → PMem → PMem
free_usable mm zero i p = p
free_usable mm (suc k) i p =
    let d = get_desc mm i in
    free_usable mm k (i + 1) (if is_usable_memory d then free_pages d d.pages 0 p else p)

-- What the constructor reads of the kernel, and where the object's bitmap field lies.
pub record Boot : Type 0 where
  pub map : MemoryMap
  pub memory_entries : ℕ
  pub stack : ℕ
  pub self : ℕ

unfoldable pub init_bitmap : Boot → Mem → Option (Bitmap × Mem)
init_bitmap k m =
    let (free_mem_sz, free_mem) = get_largest_free_seg k.map k.memory_entries 0 in
    let page_frames = get_page_frames_number k.map in
    if ltb 0 free_mem_sz && ltb 0 page_frames && ltb (page_frames / 8) free_mem_sz
    then some (Bitmap.create m k.self free_mem page_frames)
    else none

-- The object before the first lock.
abbrev pub blank : Boot → Bitmap × Mem → PMem
blank k (b, m) = record {
  last_free_idx = 0;
  free_frames = get_page_frames_number k.map;
  locked_frames = 0;
  frames = get_page_frames_number k.map;
  bitmap = b;
  mem = m;
}

-- The frames that the constructor locks last: the null pointer's, the stack's, and those counted
-- from the frame of `buf`.
unfoldable pub lock_reserved : Boot → PMem → PMem
unfolding ptr_to_frame_idx Bitmap.get_mem_size
lock_reserved k p =
    lock_loop (Bitmap.get_mem_size p.bitmap / frame_sz) (ptr_to_frame_idx (Bitmap.buf p.bitmap)) 0
      (lock_frame (ptr_to_frame_idx k.stack) (lock_frame 0 p))

-- The frames locked, those of usable segments freed, and the reserved ones locked again.
unfoldable pub lay_out : Boot → PMem → PMem
lay_out k p = lock_reserved k (free_usable k.map k.map.entries 0 (lock_loop p.frames 0 0 p))

abbrev pub checked : PMem → Option PMem
checked p = if ltb 0 p.locked_frames && ltb 0 p.free_frames && locked p 0 then some p else none

unfoldable pub create_from : Boot → Option (Bitmap × Mem) → Option PMem
create_from k none = none
create_from k (some bm) =
    let p = blank k bm in if ltb 0 p.frames then checked (lay_out k p) else none

-- The constructor.
unfoldable pub create : Boot → Mem → Option PMem
create k m = create_from k (init_bitmap k m)

-- The loop of `request_frame`: `rounds` indices from `i` on.
unfoldable pub request_loop : (rounds i : ℕ) → PMem → ℕ × PMem
unfolding idx_to_frame_ptr
request_loop zero i p = (0, p)
request_loop (suc k) i p =
    let rest = request_loop k (i + 1) p in
    if not (locked p i)
    then (idx_to_frame_ptr i, record (lock_frame i p) { last_free_idx = i })
    else rest

unfoldable pub request_frame : PMem → Option (ℕ × PMem)
request_frame p =
    if ltb 0 p.free_frames
    then some (request_loop (p.frames - p.last_free_idx) p.last_free_idx p)
    else none

-- `free_start_idx` and `free_end_idx`.
pub record Search : Type 0 where
  pub start : ℕ
  pub end : ℕ

-- One round at index `i`, past the test for a run that is long enough.
unfoldable pub search_step : PMem → (i : ℕ) → Search → Search
search_step p i s =
    if ltb 0 s.start && not (locked p i)
    then record s { end = i }
    else if locked p i
    then record s { start = 0 }
    else if s.start == 0
    then record { start = i; end = i }
    else s

unfoldable pub search_loop : PMem → (number rounds i : ℕ) → Search → Search
search_loop p number zero i s = s
search_loop p number (suc k) i s =
    let rest = search_loop p number k (i + 1) (search_step p i s) in
    if ltb 0 s.start && i - s.start == number then record s { end = i - 1 } else rest

-- The search of `request_frames`.
unfoldable pub search : PMem → ℕ → Search
search p number =
    search_loop p number (p.frames - p.last_free_idx) p.last_free_idx
      (record { start = 0; end = 0 })

-- The third assertion subtracts in the source's order, and on `size` it wraps.
unfoldable pub accepts : ℕ → Search → Bool
accepts number s =
    ltb 0 s.start && ltb 0 s.end && leb number ((s.start + u64_mod - s.end) % u64_mod)

-- The loop that locks runs while `i <= free_end_idx`.
unfoldable pub lock_run : Search → PMem → PMem
lock_run s p = lock_loop (s.end + 1 - s.start) s.start 0 p

unfoldable pub request_frames : ℕ → PMem → Option (ℕ × PMem)
unfolding idx_to_frame_ptr
request_frames number p =
    let s = search p number in
    if ltb 0 number && accepts number s then some (idx_to_frame_ptr s.start, lock_run s p) else none
