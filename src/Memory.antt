-- ===== src/Memory.antt =====
-- kernel/src/memory: the memory map, the physical frames, the page tables and the heap.
pub mod MMap
pub mod PMem
pub mod Paging
pub mod Heap
