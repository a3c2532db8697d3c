-- ===== src/Tests/Paging.antt =====
-- The theorems on kernel/src/memory/paging.cpp at concrete inputs.
use print_os.Base.{
  ◌≢◌, ℕ, ◌/◌, ◌≡◌, refl, true, List, [], arith, Option, none, some, ◌==◌, if◌then◌else◌, sym,
  subst,
}
use print_os.Kutils.Bits.{set_bit, test_bit}
use print_os.Kutils.Bitmap
use print_os.Memory.PMem.{PMem, locked, lock_frame, idx_to_frame_ptr, request_loop, request_frame}
use print_os.Memory.Paging.{
  is_page_allocated, Space, child, to_field, clear_entry, page_indexer, attach, descend,
  allocate_page, identity_loop, identity_rounds, identity_paging, set_entry, clear_table,
}
use print_os.Memory.Paging.Tree.{Owner, IsTree}
use print_os.Memory.Paging.Allocate.{Allocated, allocate_page-Allocated}
use print_os.Memory.Paging.Presence.{Supply, allocate_page_total, allocate_page-is_page_allocated}
use print_os.Memory.Paging.Identity.{Identity, identity_paging-Identity}

-- No page is mapped; the root's table is in frame 1, and six frames are free.
abbrev empty : Space
empty = record {
  pmem = record {
    last_free_idx = 0;
    free_frames = 6;
    locked_frames = 2;
    frames = 8;
    bitmap = record { self = 0; buffer = 1000; size = 1 };
    mem = λ q. if q == 1000 then 3 else 0;
  };
  tables = λ a i. clear_entry;
}

abbrev owner : Owner
owner = λ a. if a == 4096 then some [] else none

owner_root : (a : ℕ) (path : List ℕ) → owner a ≡ some path → a ≡ 4096
owner_root a path e = ground arith

frame_one : locked empty.pmem (4096 / 4096) ≡ true
unfolding Bitmap.get test_bit
frame_one = refl

empty-IsTree : IsTree 4096 empty owner
empty-IsTree = record {
  root_own = refl;
  tree = λ a path i e l h. ground arith;
  held = λ a path e.
      subst (λ x. locked empty.pmem (x / 4096) ≡ true) (sym (owner_root a path e)) frame_one;
  ready = record { within = omega arith; low = omega arith };
}

abbrev or_empty : Option Space → Space
or_empty none = empty
or_empty (some s) = s

-- After one page has been mapped.
abbrev one : Space
one = or_empty (allocate_page 4096 0x7000 0x5000 empty)

one_eq : allocate_page 4096 0x7000 0x5000 empty ≡ some one
unfolding allocate_page descend attach page_indexer child clear_table set_entry request_frame
    request_loop lock_frame idx_to_frame_ptr to_field Bitmap.get Bitmap.set test_bit set_bit
one_eq = refl

allocate_page-Allocated_example : Allocated 4096 0x7000 0x5000 empty owner one
allocate_page-Allocated_example =
    allocate_page-Allocated 4096 0x7000 0x5000 empty owner empty-IsTree one_eq

-- After a region of one page has been mapped.
abbrev region : Space
region = or_empty (identity_paging 4096 0x7000 4096 empty)

region_eq : identity_paging 4096 0x7000 4096 empty ≡ some region
unfolding identity_paging identity_loop allocate_page descend attach page_indexer child clear_table
    set_entry request_frame request_loop lock_frame idx_to_frame_ptr to_field Bitmap.get Bitmap.set
    test_bit set_bit
region_eq = refl

identity_paging-Identity_example : Identity 4096 (identity_rounds 4096) 0x7000 empty region
identity_paging-Identity_example =
    identity_paging-Identity 4096 0x7000 4096 empty owner empty-IsTree (omega arith) region_eq

abbrev given : ℕ → PMem → PMem
given i p = record (lock_frame i p) { last_free_idx = i }

three_frames : Supply empty.pmem 3
unfolding request_frame request_loop lock_frame idx_to_frame_ptr Bitmap.get Bitmap.set test_bit
    set_bit
three_frames = (
  8192,
  given 2 empty.pmem,
  refl,
  omega arith,
  (
    12288,
    given 3 (given 2 empty.pmem),
    refl,
    omega arith,
    (16384, given 4 (given 3 (given 2 empty.pmem)), refl, omega arith, tt),
  ),
)

allocate_page_total_example : (s' : Space) × (allocate_page 4096 0x7000 0x5000 empty ≡ some s')
allocate_page_total_example = allocate_page_total 4096 0x7000 0x5000 empty three_frames

allocate_page-is_page_allocated_example :
    (is_page_allocated 4096 one.tables 0x7000 ≡ true)
    × ((w : ℕ)
        → page_indexer w ≢ page_indexer 0x7000
        → is_page_allocated 4096 one.tables w ≡ is_page_allocated 4096 empty.tables w)
allocate_page-is_page_allocated_example =
    allocate_page-is_page_allocated 4096 0x7000 0x5000 empty owner empty-IsTree one_eq
