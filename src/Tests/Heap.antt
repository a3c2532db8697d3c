-- ===== src/Tests/Heap.antt =====
-- The theorems on kernel/src/memory/heap.cpp at concrete inputs.
use print_os.Base.{
  ℕ, Option, List, ◌≡◌, refl, true, false, [], ◌∷◌, ◌++◌, arith, none, some, ◌==◌, if◌then◌else◌,
}
use print_os.Kutils.Bits.{set_bit, test_bit}
use print_os.Kutils.Bitmap
use print_os.Memory.PMem.{
  PMem, lock_frame, lock_loop, idx_to_frame_ptr, request_loop, request_frame, search_step,
  search_loop, search, accepts, lock_run, request_frames,
}
use print_os.Memory.Paging.{
  Space, child, to_field, clear_entry, page_indexer, attach, descend, allocate_page, set_entry,
  clear_table,
}
use print_os.Memory.Heap.{create, Heap, malloc, map_pages}
use print_os.Memory.Heap.Grow.{grown_cell, malloc-grow}
use print_os.Memory.Paging.Presence.{Supply}
use print_os.Memory.Heap.Create.{create-Represents}
use print_os.Memory.Heap.Chain.{Cell, Seg, outside, is_apart, Represents}
use print_os.Memory.Heap.Edit.{carve}
use print_os.Memory.Heap.Malloc.{no_fit, malloc-Represents, malloc-no_fit}
use print_os.Memory.Heap.Merge.{absorb}
use print_os.Memory.Heap.Free.{freed, glue, Ends, free-first, free-behind}

-- A page with a block in use, a free one, one in use and a free rest.
abbrev c1 : Cell
c1 = record { addr = 4096; is_free = false; bytes = 64 }

abbrev c2 : Cell
c2 = record { addr = 4192; is_free = true; bytes = 32 }

abbrev c3 : Cell
c3 = record { addr = 4256; is_free = false; bytes = 100 }

abbrev c4 : Cell
c4 = record { addr = 4388; is_free = true; bytes = 3772 }

abbrev page : Heap
page = record {
  blocks = 4096;
  headers = λ a.
      if a == 4096
      then record { prev = 0; next = 4192; is_free = false; bytes = 64 }
      else if a == 4192
      then record { prev = 4096; next = 4256; is_free = true; bytes = 32 }
      else if a == 4256
      then record { prev = 4192; next = 4388; is_free = false; bytes = 100 }
      else record { prev = 4256; next = 0; is_free = true; bytes = 3772 };
  space = record {
    pmem = record {
      last_free_idx = 1;
      free_frames = 6;
      locked_frames = 2;
      frames = 8;
      bitmap = record { self = 0; buffer = 1000; size = 1 };
      mem = λ q. if q == 1000 then 3 else 0;
    };
    tables = λ a i. clear_entry;
  };
}

page-Represents : Represents page (c1 ∷ c2 ∷ c3 ∷ c4 ∷ [])
unfolding Seg is_apart outside
page-Represents = record {
  last = 4388;
  seg = (
    4192,
    refl,
    omega arith,
    refl,
    (
      4256,
      refl,
      omega arith,
      refl,
      (4388, refl, omega arith, refl, (0, refl, omega arith, refl, (refl, refl))),
    ),
  );
  apart = refl;
}

malloc-Represents_example :
    (h' : Heap) × (malloc 0 4 1000 page ≡ some (4420, h'))
    × Represents h' ((c1 ∷ c2 ∷ c3 ∷ []) ++ carve 1000 c4 [])
    × (h'.space ≡ page.space)
unfolding no_fit
malloc-Represents_example =
    malloc-Represents 0 4 1000 page (c1 ∷ c2 ∷ c3 ∷ []) c4 [] page-Represents (omega arith) refl
      refl (omega arith)

malloc-no_fit_example : malloc 0 4 4000 page ≡ none
unfolding no_fit
malloc-no_fit_example =
    malloc-no_fit 0 4 4000 page c1 (c2 ∷ c3 ∷ c4 ∷ []) page-Represents (omega arith) (omega arith)
      refl (omega arith)

free-first_example : Ends 4128 page [] (some (absorb (freed c1) (c2 ∷ c3 ∷ c4 ∷ [])))
free-first_example = free-first page c1 (c2 ∷ c3 ∷ c4 ∷ []) page-Represents (omega arith)

free-behind_example : Ends 4288 page (c1 ∷ []) (glue c2 (absorb (freed c3) (c4 ∷ [])))
free-behind_example = free-behind page (c1 ∷ []) c2 c3 (c4 ∷ []) page-Represents (omega arith)

-- Two frames for the heap, and three for page tables on the way.
abbrev after_run : PMem
after_run = lock_run (record { start = 2; end = 3 }) page.space.pmem

run_given : request_frames 2 page.space.pmem ≡ some (8192, after_run)
unfolding request_frames search search_loop search_step accepts idx_to_frame_ptr Bitmap.get test_bit
run_given = refl

abbrev or_same : Option Space → Space
or_same none = page.space
or_same (some t) = t

abbrev after_map : Space
after_map = or_same (map_pages 0 8192 2 0 (record page.space { pmem = after_run }))

run_mapped : map_pages 0 8192 2 0 (record page.space { pmem = after_run }) ≡ some after_map
unfolding map_pages allocate_page descend attach page_indexer child clear_table set_entry
    request_frame request_loop lock_run lock_loop lock_frame idx_to_frame_ptr to_field Bitmap.get
    Bitmap.set test_bit set_bit
run_mapped = refl

malloc-grow_example :
    (xs : List Cell) × (p : Cell) × (ys : List Cell) × (h' : Heap) × (c1 ∷ c2 ∷ c3 ∷ c4 ∷ []
      ≡ xs ++ p ∷ ys)
    × (malloc 0 5 5000 page ≡ some (8224, h'))
    × Represents h' (xs ++ p ∷ carve 5000 (grown_cell 5000 8192) ys)
    × (h'.space ≡ after_map)
unfolding no_fit outside
malloc-grow_example =
    malloc-grow 0 5 5000 page c1 (c2 ∷ c3 ∷ c4 ∷ []) page-Represents (omega arith) refl run_given
      run_mapped (omega arith) (omega arith) refl (omega arith)

abbrev given : ℕ → PMem → PMem
given i p = record (lock_frame i p) { last_free_idx = i }

four_frames : Supply page.space.pmem 4
unfolding request_frame request_loop lock_frame idx_to_frame_ptr Bitmap.get Bitmap.set test_bit
    set_bit
four_frames = (
  8192,
  given 2 page.space.pmem,
  refl,
  omega arith,
  (
    12288,
    given 3 (given 2 page.space.pmem),
    refl,
    omega arith,
    (
      16384,
      given 4 (given 3 (given 2 page.space.pmem)),
      refl,
      omega arith,
      (20480, given 5 (given 4 (given 3 (given 2 page.space.pmem))), refl, omega arith, tt),
    ),
  ),
)

create-Represents_example :
    (h : Heap) × (frame : ℕ) × (create 0 page.space ≡ some h)
    × Represents h (record { addr = frame; is_free = true; bytes = 4064 } ∷ [])
create-Represents_example = create-Represents 0 page.space four_frames
