-- ===== src/Memory/PMem/Flags.antt =====
-- Which frames the operations of kernel/src/memory/pmem.cpp lock and free, flag by flag.
use print_os.Base.{
  ℕ, zero, suc, ◌+◌, ◌*◌, ◌/◌, ◌%◌, ◌≤◌, ◌<◌, ◌≡◌, Bool, false, not, ◌&&◌, ◌||◌, arith, ◌==◌, ltb,
  leb, Bool-cases, inl, inr, u64_mod,
}
use print_os.Kutils.Bitmap.Laws.{get-set, get-unset}
use print_os.Memory.MMap.{EfiMMapDesc, MemoryMap, get_desc, is_usable_memory}
use print_os.Memory.PMem.{
  PMem, ptr_to_frame_idx, locked, free_frame, lock_frame, lock_loop, page_frame, free_pages,
  free_usable,
}

module _ (p : PMem) (i j : ℕ) where
  -- `lock_frame` locks its frame and changes no other, whether it was free or not.
  pub locked-lock_frame : locked (lock_frame i p) j ≡ ((i == j) || locked p j)
  unfolding lock_frame
  locked-lock_frame = ground (arith, get-set p.mem p.bitmap i j)

  -- `free_frame` frees its frame and changes no other.
  pub locked-free_frame : locked (free_frame i p) j ≡ (not (i == j) && locked p j)
  unfolding free_frame
  locked-free_frame = ground (arith, get-unset p.mem p.bitmap i j)

pub bitmap-lock_frame : (p : PMem) (i : ℕ) → (lock_frame i p).bitmap ≡ p.bitmap
unfolding lock_frame
bitmap-lock_frame p i = ground arith

pub locked-lock_loop :
    (k start i j : ℕ) (p : PMem)
    → start + i + k ≤ u64_mod
    → locked (lock_loop k start i p) j
      ≡ ((leb (start + i) j && ltb j (start + i + k)) || locked p j)
unfolding lock_loop
locked-lock_loop zero start i j p h = ground arith
locked-lock_loop (suc k) start i j p h = ground (
  arith,
  locked-lock_loop k start (i + 1) j (lock_frame ((start + i) % u64_mod) p),
  locked-lock_frame p ((start + i) % u64_mod) j,
)

-- The frame is one of the pages `n`, …, `n + k - 1` of the segment.
abbrev pub in_pages : EfiMMapDesc → (k n j : ℕ) → Bool
in_pages d k n j = leb (d.paddr / 4096 + n) j && ltb j (d.paddr / 4096 + n + k)

pub page_frame_lem :
    (d : EfiMMapDesc) (n : ℕ) → n * 4096 < u64_mod → page_frame d n ≡ d.paddr / 4096 + n
unfolding ptr_to_frame_idx
page_frame_lem d n h = omega arith

locked-free_pages :
    (d : EfiMMapDesc) (k n j : ℕ) (p : PMem)
    → (n + k) * 4096 < u64_mod
    → locked (free_pages d k n p) j ≡ (not (in_pages d k n j) && locked p j)
unfolding free_pages
locked-free_pages d zero n j p h = ground arith
locked-free_pages d (suc k) n j p h = ground (
  arith,
  locked-free_pages d k (n + 1) j (free_frame (page_frame d n) p),
  locked-free_frame p (page_frame d n) j,
  page_frame_lem d n,
)

-- The sizes of the segments from index `i` on fit 64 bits.
abbrev pub Fits : MemoryMap → (k i : ℕ) → Type 0
Fits mm zero i = Unit {0}
Fits mm (suc k) i = ((get_desc mm i).pages * 4096 < u64_mod) × Fits mm k (i + 1)

-- The frame lies in a usable segment among the `k` from index `i` on.
abbrev pub covered : MemoryMap → (k i j : ℕ) → Bool
covered mm zero i j = false
covered mm (suc k) i j =
    (is_usable_memory (get_desc mm i) && in_pages (get_desc mm i) (get_desc mm i).pages 0 j)
    || covered mm k (i + 1) j

pub locked-free_usable :
    (mm : MemoryMap) (k i j : ℕ) (p : PMem)
    → Fits mm k i
    → locked (free_usable mm k i p) j ≡ (not (covered mm k i j) && locked p j)
unfolding free_usable
locked-free_usable mm zero i j p h = ground arith
locked-free_usable mm (suc k) i j p h = elim (Bool-cases (is_usable_memory (get_desc mm i))) [
  | inl usable ↦ ground (
    arith,
    locked-free_usable mm k (i + 1) j (free_pages (get_desc mm i) (get_desc mm i).pages 0 p),
    locked-free_pages (get_desc mm i) (get_desc mm i).pages 0 j p,
  )
  | inr not_usable ↦ ground (arith, locked-free_usable mm k (i + 1) j p)
]
