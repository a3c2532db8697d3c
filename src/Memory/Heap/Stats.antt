-- ===== src/Memory/Heap/Stats.antt =====
-- `get_heap_stats` of kernel/src/memory/heap.cpp on the list of cells.
use print_os.Base.{
  ℕ, zero, suc, ◌+◌, ◌<◌, ◌≡◌, Bool, true, false, List, [], ◌∷◌, if◌then◌else◌, arith, some, length,
}
use print_os.Memory.Heap.{Heap, Headers, HeapStats, stats_loop, count, get_heap_stats}
use print_os.Memory.Heap.Chain.{Cell, Seg, Represents}

-- How many cells are free, or are not.
unfoldable pub count_cells : Bool → List Cell → ℕ
count_cells b [] = 0
count_cells true (c ∷ cs) = (if c.is_free then 1 else 0) + count_cells true cs
count_cells false (c ∷ cs) = (if c.is_free then 0 else 1) + count_cells false cs

stats_loop-Seg :
    (hs : Headers) (p a fuel : ℕ) (xs : List Cell) (q : ℕ) (st : HeapStats)
    → Seg hs p a xs q 0
    → length xs < fuel
    → stats_loop hs fuel a st
      ≡ some (record {
        all_blocks = st.all_blocks + length xs;
        free_blocks = st.free_blocks + count_cells true xs;
        allocated_blocks = st.allocated_blocks + count_cells false xs;
      })
unfolding stats_loop count count_cells Seg
stats_loop-Seg hs p a zero xs q st s l = ground arith
stats_loop-Seg hs p a (suc k) [] q st s l = ground arith
stats_loop-Seg hs p a (suc k) (x ∷ xs) q st (n, e, z, h, s) l =
    let rec = stats_loop-Seg hs a n k xs q (count (hs a) st) s (omega arith) in ground arith

-- With fuel for the cells of the heap, the statistics are the number of its cells, of the free
-- ones and of those in use.
pub get_heap_stats_lem :
    (fuel : ℕ) (h : Heap) (cells : List Cell)
    → Represents h cells
    → length cells < fuel
    → get_heap_stats fuel h
      ≡ some (record {
        all_blocks = length cells;
        free_blocks = count_cells true cells;
        allocated_blocks = count_cells false cells;
      })
unfolding get_heap_stats
get_heap_stats_lem fuel h cells r l = ground (
  arith,
  stats_loop-Seg h.headers 0 h.blocks fuel cells r.last
      (record { all_blocks = 0; free_blocks = 0; allocated_blocks = 0 }) r.seg l,
)
