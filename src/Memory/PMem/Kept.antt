-- ===== src/Memory/PMem/Kept.antt =====
-- The fields of the frame allocator that locking and freeing leave as they are.
use print_os.Base.{ℕ, zero, suc, ◌+◌, ◌≡◌, refl, Bool-cases, inl, inr, arith}
use print_os.Memory.MMap.{EfiMMapDesc, MemoryMap, get_desc, is_usable_memory}
use print_os.Memory.PMem.{PMem, free_frame, lock_frame, lock_loop, free_pages, free_usable}

pub record Kept (p q : PMem) : Type 0 where
  pub frames : q.frames ≡ p.frames
  pub bitmap : q.bitmap ≡ p.bitmap
  pub last_free_idx : q.last_free_idx ≡ p.last_free_idx

pub Kept-refl : (p : PMem) → Kept p p
Kept-refl p = record { frames = refl; bitmap = refl; last_free_idx = refl }

pub Kept-trans : {p q r : PMem} → Kept p q → Kept q r → Kept p r
Kept-trans a b = record {
  frames = cc (a.frames, b.frames);
  bitmap = cc (a.bitmap, b.bitmap);
  last_free_idx = cc (a.last_free_idx, b.last_free_idx);
}

pub lock_frame-Kept : (i : ℕ) (p : PMem) → Kept p (lock_frame i p)
unfolding lock_frame
lock_frame-Kept i p = ground arith

pub free_frame-Kept : (i : ℕ) (p : PMem) → Kept p (free_frame i p)
unfolding free_frame
free_frame-Kept i p = ground arith

pub lock_loop-Kept : (k start i : ℕ) (p : PMem) → Kept p (lock_loop k start i p)
unfolding lock_loop
lock_loop-Kept zero start i p = Kept-refl p
lock_loop-Kept (suc k) start i p =
    Kept-trans (lock_frame-Kept _ p) (lock_loop-Kept k start (i + 1) _)

pub free_pages-Kept : (d : EfiMMapDesc) (k n : ℕ) (p : PMem) → Kept p (free_pages d k n p)
unfolding free_pages
free_pages-Kept d zero n p = Kept-refl p
free_pages-Kept d (suc k) n p = Kept-trans (free_frame-Kept _ p) (free_pages-Kept d k (n + 1) _)

pub free_usable-Kept : (mm : MemoryMap) (k i : ℕ) (p : PMem) → Kept p (free_usable mm k i p)
unfolding free_usable
free_usable-Kept mm zero i p = Kept-refl p
free_usable-Kept mm (suc k) i p = elim (Bool-cases (is_usable_memory (get_desc mm i))) [
  | inl usable ↦
      rw usable
        (Kept-trans (free_pages-Kept (get_desc mm i) _ 0 p) (free_usable-Kept mm k (i + 1) _))
  | inr other ↦ rw other (free_usable-Kept mm k (i + 1) p)
]
