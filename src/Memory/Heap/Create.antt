-- ===== src/Memory/Heap/Create.antt =====
-- The constructor of kernel/src/memory/heap.cpp.
use print_os.Base.{ℕ, ◌≡◌, refl, ◌≢◌, true, false, some, [], ◌∷◌, ◌==◌, arith}
use print_os.Memory.Paging.{Space}
use print_os.Memory.Paging.Presence.{Supply, allocate_page_total}
use print_os.Memory.Heap.{Heap, put, place, create}
use print_os.Memory.Heap.Chain.{Seg, outside, is_apart, Represents}

place-Represents :
    (frame : ℕ) (s : Space)
    → frame ≢ 0
    → Represents (place frame s) (record { addr = frame; is_free = true; bytes = 4064 } ∷ [])
unfolding place Seg is_apart outside put
place-Represents frame s nz = record {
  last = frame;
  seg = (0, refl, nz, ground arith, (refl, refl));
  apart = refl;
}

-- Where the next four requests for a frame succeed, the constructor does, and the heap is one free
-- block of a page less its header.
pub create-Represents :
    (root : ℕ) (s : Space)
    → Supply s.pmem 4
    → (h : Heap) × (frame : ℕ) × (create root s ≡ some h)
      × Represents h (record { addr = frame; is_free = true; bytes = 4064 } ∷ [])
unfolding create
create-Represents root s (frame, q, e, nz, three) =
    let (s', m) = allocate_page_total root frame frame (record s { pmem = q }) three in
    let not_null : (frame == 0) ≡ false = ground arith in
    (place frame s', frame, rw (e, not_null, m) refl, place-Represents frame s' nz)
