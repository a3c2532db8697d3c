-- ===== src/Memory/Heap.antt =====
-- kernel/src/memory/heap.{hpp,cpp}: the heap, a doubly linked list of blocks, each a header with
-- the block's data behind it. The headers are a store of their own, by address; null is 0. `fuel`
-- bounds the walks along the list. `none` is a failed assertion, a null dereference or a walk that
-- is longer than `fuel`.
pub mod Chain
pub mod Edit
pub mod Malloc
pub mod Create
pub mod Stats
pub mod Grow
pub mod Merge
pub mod MergePrev
pub mod Free
use print_os.Base.{
  ℕ, zero, suc, ◌+◌, ◌-◌, ◌*◌, ◌/◌, Bool, true, false, not, ◌&&◌, ◌||◌, Option, none, some, ◌==◌,
  ltb, leb, if◌then◌else◌, ◌>>=◌, u64_mod, ◌%◌,
}
use print_os.Memory.PMem.{request_frame, request_frames}
use print_os.Memory.Paging.{Space, page_sz, allocate_page}

pub record BlockHeader : Type 0 where
  pub prev : ℕ
  pub next : ℕ
  pub is_free : Bool
  pub bytes : ℕ

pub record HeapStats : Type 0 where
  pub all_blocks : ℕ
  pub free_blocks : ℕ
  pub allocated_blocks : ℕ

abbrev pub Headers : Type 0
Headers = ℕ → BlockHeader

-- The object, the headers, and what the kernel keeps for it.
pub record Heap : Type 0 where
  pub blocks : ℕ
  pub headers : Headers
  pub space : Space

-- `sizeof(BlockHeader)`.
abbrev pub header_sz : ℕ
header_sz = 32

-- The header at `a` is replaced.
unfoldable pub put : Headers → ℕ → BlockHeader → Headers
put hs a b x = if x == a then b else hs x

-- `block->prev = prev`, unless the block is null.
unfoldable pub set_prev : Headers → (block prev : ℕ) → Headers
set_prev hs block prev = if block == 0 then hs else put hs block (record (hs block) { prev = prev })

unfoldable pub place : ℕ → Space → Heap
place frame s = record {
  blocks = frame;
  headers =
      put (λ x. record { prev = 0; next = 0; is_free = false; bytes = 0 }) frame
        (record { prev = 0; next = 0; is_free = true; bytes = page_sz - header_sz });
  space = s;
}

-- The constructor.
unfoldable pub create : (root : ℕ) → Space → Option Heap
create root s = do
  (frame, p) ← request_frame s.pmem
  s ← if frame == 0 then none else allocate_page root frame frame (record s { pmem = p })
  some (place frame s)

unfoldable pub find_loop : Headers → (bytes fuel block : ℕ) → Option ℕ
find_loop hs bytes zero block = none
find_loop hs bytes (suc k) block =
    let rest = find_loop hs bytes k (hs block).next in
    if (hs block).is_free && leb bytes (hs block).bytes
    then some block
    else if (hs block).next == 0
    then some 0
    else rest

unfoldable pub find_free_block : (fuel bytes : ℕ) → Heap → Option ℕ
find_free_block fuel bytes h =
    if h.blocks == 0 then none else find_loop h.headers bytes fuel h.blocks

abbrev pub get_block_data_addr : ℕ → ℕ
get_block_data_addr block = block + header_sz

unfoldable pub get_total_block_size : BlockHeader → ℕ
get_total_block_size b = header_sz + b.bytes

-- The end of a block is an address, and addresses are not wrapped: a block lies below 2 ^ 64.
unfoldable pub are_blocks_contiguous : Headers → (block next_block : ℕ) → Bool
are_blocks_contiguous hs block next_block =
    if block == 0 || next_block == 0
    then false
    else block + get_total_block_size (hs block) == next_block

-- The loop of `_find_block_close_before_addr`.
unfoldable pub close_loop : Headers → (addr fuel block : ℕ) → Option ℕ
close_loop hs addr zero block = none
close_loop hs addr (suc k) block =
    let rest = close_loop hs addr k (hs block).next in
    if block == 0
    then none
    else if (hs block).next == 0
    then some block
    else if ltb block addr && ltb (hs block).next addr
    then some block
    else rest

unfoldable pub find_block_close_before_addr : (fuel addr : ℕ) → Heap → Option ℕ
find_block_close_before_addr fuel addr h = close_loop h.headers addr fuel h.blocks

-- The loop of `malloc` that maps the new pages.
unfoldable pub map_pages : (root init_block rounds i : ℕ) → Space → Option Space
map_pages root init_block zero i s = some s
map_pages root init_block (suc k) i s = do
  let page = init_block + i * page_sz
  s ← allocate_page root page page s
  map_pages root init_block k (i + 1) s

-- The new block is linked in behind `prev_block`.
unfoldable pub link : (block bytes prev_block : ℕ) → Headers → Headers
link block bytes prev_block hs =
    let next = (hs prev_block).next in
    let hs' =
      put hs block (record { prev = prev_block; next = next; is_free = true; bytes = bytes }) in
    let hs'' = put hs' prev_block (record (hs' prev_block) { next = block }) in
    set_prev hs'' next block

-- The branch of `malloc` for when no block is sufficient.
unfoldable pub extend : (root fuel bytes : ℕ) → Heap → Option (ℕ × Heap)
extend root fuel bytes h = do
  let pages = bytes / page_sz + 1
  (block, p) ← request_frames pages h.space.pmem
  s ← map_pages root block pages 0 (record h.space { pmem = p })
  let unlinked = record h { space = s }
  prev_block ← find_block_close_before_addr fuel block unlinked
  let h' = record unlinked {
    headers = link block (pages * page_sz - header_sz) prev_block h.headers;
  }
  block ← find_free_block fuel bytes h'
  if block == 0 then none else some (block, h')

-- The free block is cut in two, and its first part is taken.
unfoldable pub split : (block bytes : ℕ) → Headers → Headers
split block bytes hs =
    let new_block = get_block_data_addr block + bytes in
    let old = hs block in
    let hs' = set_prev hs old.next new_block in
    let hs'' = put hs' new_block (record {
      prev = block;
      next = old.next;
      is_free = true;
      bytes = old.bytes - bytes - header_sz;
    }) in
    put hs'' block (record old { next = new_block; is_free = false; bytes = bytes })

-- The end of `malloc`, with a free block of `bytes` or more.
unfoldable pub take_block : (bytes block : ℕ) → Heap → Option (ℕ × Heap)
take_block bytes block h =
    let b = h.headers block in
    if b.bytes == bytes || leb (b.bytes - bytes) header_sz
    then some (
      get_block_data_addr block,
      record h { headers = put h.headers block (record b { is_free = false }) },
    )
    else if ltb 0 (b.bytes - bytes - header_sz)
    then some (get_block_data_addr block, record h { headers = split block bytes h.headers })
    else none

unfoldable pub malloc : (root fuel bytes : ℕ) → Heap → Option (ℕ × Heap)
malloc root fuel bytes h = do
  found ← if bytes == 0 then none else find_free_block fuel bytes h
  (block, h) ← if found == 0 then extend root fuel bytes h else some (found, h)
  take_block bytes block h

-- The merge with the next block.
unfoldable pub merge_next : (block : ℕ) → Headers → Headers
merge_next block hs =
    let b = hs block in
    let n = hs b.next in
    if not (b.next == 0) && n.is_free && are_blocks_contiguous hs block b.next
    then set_prev
        (put hs block (record b { bytes = b.bytes + get_total_block_size n; next = n.next })) n.next
        block
    else hs

-- The merge with the previous block, which writes to the next block without a test for null.
unfoldable pub merge_prev : (block : ℕ) → Headers → Option Headers
merge_prev block hs =
    let b = hs block in
    let p = hs b.prev in
    if not (b.prev == 0) && p.is_free && are_blocks_contiguous hs b.prev block
    then (if b.next == 0
        then none
        else some (
            set_prev
              (put hs b.prev (record p { bytes = p.bytes + get_total_block_size b; next = b.next }))
              b.next b.prev))
    else some hs

unfoldable pub free_block : (block : ℕ) → Headers → Option Headers
free_block block hs =
    merge_prev block (merge_next block (put hs block (record (hs block) { is_free = true })))

unfoldable pub free : (ptr : ℕ) → Heap → Option Heap
free ptr h = if ptr == 0 then some h else do
  hs ← free_block ((ptr + u64_mod - header_sz) % u64_mod) h.headers
  some (record h { headers = hs })

unfoldable pub count : BlockHeader → HeapStats → HeapStats
count b st =
    if b.is_free
    then record st { all_blocks = st.all_blocks + 1; free_blocks = st.free_blocks + 1 }
    else record st { all_blocks = st.all_blocks + 1; allocated_blocks = st.allocated_blocks + 1 }

unfoldable pub stats_loop : Headers → (fuel block : ℕ) → HeapStats → Option HeapStats
stats_loop hs zero block st = none
stats_loop hs (suc k) block st =
    let rest = stats_loop hs k (hs block).next (count (hs block) st) in
    if block == 0 then some st else rest

unfoldable pub get_heap_stats : (fuel : ℕ) → Heap → Option HeapStats
get_heap_stats fuel h =
    stats_loop h.headers fuel h.blocks
      (record { all_blocks = 0; free_blocks = 0; allocated_blocks = 0 })
