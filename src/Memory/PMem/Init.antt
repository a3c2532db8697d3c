-- ===== src/Memory/PMem/Init.antt =====
-- The frames that the constructor of kernel/src/memory/pmem.cpp leaves locked.
use print_os.Base.{
  ℕ, ◌+◌, ◌/◌, ◌%◌, ◌<◌, ◌≡◌, refl, ap, ◌∙◌, Bool, not, ◌&&◌, ◌||◌, Option, none, some, arith, ◌==◌,
  ltb, leb, Bool-cases, inl, inr, u64_mod,
}
use print_os.Mem.{Mem}
use print_os.Kutils.Bitmap
use print_os.Kutils.Bitmap.{Bitmap}
use print_os.Memory.MMap.{get_page_frames_number}
use print_os.Memory.PMem.{
  PMem, Boot, locked, lock_frame, lock_loop, free_usable, init_bitmap, blank, lock_reserved,
  lay_out, checked, create_from, create,
}
use print_os.Memory.PMem.Flags.{
  bitmap-lock_frame, Fits, covered, locked-lock_frame, locked-lock_loop, locked-free_usable,
}
use print_os.Memory.PMem.Kept.{Kept, Kept-trans, lock_frame-Kept, lock_loop-Kept, free_usable-Kept}

-- The frames locked at the end: the first, the stack's, and as many from the frame of the bitmap
-- object on as the bitmap has whole frames.
abbrev pub reserved : Boot → Bitmap → ℕ → Bool
reserved k b j =
    (leb (b.self / 4096) j && ltb j (b.self / 4096 + b.size / 4096))
    || k.stack / 4096 == j
    || 0 == j

lock_reserved-locked :
    (k : Boot) (p : PMem) (j : ℕ)
    → p.bitmap.self < u64_mod
    → p.bitmap.size < u64_mod
    → locked (lock_reserved k p) j ≡ (reserved k p.bitmap j || locked p j)
unfolding lock_reserved
lock_reserved-locked k p j hs hb =
    let stacked = lock_frame (k.stack / 4096) (lock_frame 0 p) in
    let same : stacked.bitmap ≡ p.bitmap =
      bitmap-lock_frame (lock_frame 0 p) (k.stack / 4096) ∙ bitmap-lock_frame p 0 in
    rw same (
      ground (
        arith,
        locked-lock_loop (p.bitmap.size / 4096) (p.bitmap.self / 4096) 0 j stacked,
        locked-lock_frame (lock_frame 0 p) (k.stack / 4096) j,
        locked-lock_frame p 0 j,
      ))

lay_out-locked :
    (k : Boot) (p : PMem) (j : ℕ)
    → p.bitmap.self < u64_mod
    → p.bitmap.size < u64_mod
    → p.frames < u64_mod
    → Fits k.map k.map.entries 0
    → j < p.frames
    → locked (lay_out k p) j ≡ (reserved k p.bitmap j || not (covered k.map k.map.entries 0 j))
unfolding lay_out
lay_out-locked k p j hs hb hf fits h =
    let all = lock_loop p.frames 0 0 p in
    let freed = free_usable k.map k.map.entries 0 all in
    let same : freed.bitmap ≡ p.bitmap = cc (
      (free_usable-Kept k.map k.map.entries 0 all).bitmap,
      (lock_loop-Kept p.frames 0 0 p).bitmap,
    ) in
    ground (
      arith,
      same,
      ap (λ (b : Bitmap). reserved k b j) same,
      lock_reserved-locked k freed j,
      locked-free_usable k.map k.map.entries 0 j all fits,
      locked-lock_loop p.frames 0 0 j p,
    )

lay_out-Kept : (k : Boot) (p : PMem) → Kept p (lay_out k p)
unfolding lay_out lock_reserved
lay_out-Kept k p = Kept-trans (lock_loop-Kept p.frames 0 0 p) (
    Kept-trans (free_usable-Kept k.map k.map.entries 0 _) (
      Kept-trans (lock_frame-Kept 0 _)
        (Kept-trans (lock_frame-Kept (k.stack / 4096) _) (lock_loop-Kept _ _ 0 _))))

-- What a constructor that passes its assertions has done.
pub record Built (k : Boot) (m : Mem) (p : PMem) : Type 0 where
  pub bitmap : Bitmap
  pub mem : Mem
  pub made : init_bitmap k m ≡ some (bitmap, mem)
  pub laid_out : p ≡ lay_out k (blank k (bitmap, mem))
  pub counted : (0 < p.locked_frames) × (0 < p.free_frames)

checked-some :
    (p : PMem) {q : PMem}
    → checked p ≡ some q
    → (q ≡ p) × (0 < p.locked_frames) × (0 < p.free_frames)
checked-some p h = ground arith

pub create-Built : (k : Boot) (m : Mem) {p : PMem} → create k m ≡ some p → Built k m p
unfolding create create_from
create-Built k m {p} h = go (init_bitmap k m) refl h
  where
    go : (o : Option (Bitmap × Mem)) → init_bitmap k m ≡ o → create_from k o ≡ some p → Built k m p
    go none e h = cc
    go (some (b, mem)) e h = elim (Bool-cases (ltb 0 (blank k (b, mem)).frames)) [
      | inl pos ↦
          let (laid, lo, hi) = checked-some (lay_out k (blank k (b, mem))) (rw pos at h) in
          record { bitmap = b; mem = mem; made = e; laid_out = laid; counted = rw laid (lo, hi) }
      | inr zero_frames ↦ let stopped : none ≡ some p = rw zero_frames at h in cc
    ]

pub init_bitmap-Bitmap :
    (k : Boot) (m : Mem) {b : Bitmap} {m' : Mem}
    → init_bitmap k m ≡ some (b, m')
    → (b.self ≡ k.self) × (b.size ≡ (get_page_frames_number k.map + 7) % u64_mod / 8)
unfolding init_bitmap Bitmap.create
init_bitmap-Bitmap k m h = ground arith

-- When the constructor succeeds, a frame below `frames` is locked exactly when it is reserved or
-- lies in no usable segment of the memory map, given that the object lies below 2 ^ 64 and that
-- the segments' sizes in bytes fit 64 bits. The reserved frames are the first, the stack's, and
-- those counted from the frame of the bitmap object, of which `buf` is the address.
pub create-locked :
    (k : Boot) (m : Mem) {p : PMem}
    → create k m ≡ some p
    → k.self < u64_mod
    → Fits k.map k.map.entries 0
    → (j : ℕ) → j < p.frames
    → (p.bitmap.self ≡ k.self)
      × (p.bitmap.size ≡ (p.frames + 7) % u64_mod / 8)
      × (locked p j ≡ (reserved k p.bitmap j || not (covered k.map k.map.entries 0 j)))
unfolding get_page_frames_number
create-locked k m {p} h hs fits j hj = ground (
  arith,
  b.laid_out,
  lay_out-Kept k start,
  init_bitmap-Bitmap k m b.made,
  lay_out-locked k start j,
)
  where
    b : Built k m p
    b = create-Built k m h

    start : PMem
    start = blank k (b.bitmap, b.mem)
