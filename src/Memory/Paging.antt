-- ===== src/Memory/Paging.antt =====
-- kernel/src/memory/paging.{hpp,cpp}: 4-level paging. The page tables are a store from a table's
-- address and an index to an entry; the four entry structs differ in the names of their fields
-- only, and are one record. The table of the root is the array `PML4`, at the address `root`.
-- `none` is a failed assertion.
pub mod Indexer
pub mod Tree
pub mod Descend
pub mod Leaf
pub mod Allocate
pub mod Identity
pub mod Presence
pub mod Setup
use print_os.Base.{
  ℕ, zero, suc, ◌+◌, ◌-◌, ◌*◌, ◌/◌, ◌%◌, ◌^◌, Bool, true, false, not, ◌&&◌, Option, none, some,
  ◌>>=◌, bit_and, ◌==◌, ltb, if◌then◌else◌, u64_mod,
}
use print_os.Memory.MMap.{MemoryMap, get_desc, frame_sz}
use print_os.Memory.PMem.{PMem, request_frame}

abbrev pub page_sz : ℕ
page_sz = frame_sz

abbrev pub bits_9_mask : ℕ
bits_9_mask = 0x1ff

abbrev pub page_offset_bits : ℕ
page_offset_bits = 12

-- An entry: the two flags that the code writes, the 32 bits of the address field, and the other
-- bits, which it only clears.
pub record Entry : Type 0 where
  pub present : Bool
  pub rw_flag : Bool
  pub addr : ℕ
  pub others : ℕ

abbrev pub Tables : Type 0
Tables = ℕ → ℕ → Entry

pub record PageIndexer : Type 0 where
  pub pml4 : ℕ
  pub pdpt : ℕ
  pub pd : ℕ
  pub pt : ℕ

-- The constructor: four fields of nine bits above the page offset.
unfoldable pub page_indexer : ℕ → PageIndexer
page_indexer vaddr =
    let page = vaddr / 2 ^ page_offset_bits in
    record {
      pt = bit_and page bits_9_mask;
      pd = bit_and (page / 2 ^ 9) bits_9_mask;
      pdpt = bit_and (page / 2 ^ 9 / 2 ^ 9) bits_9_mask;
      pml4 = bit_and (page / 2 ^ 9 / 2 ^ 9 / 2 ^ 9) bits_9_mask;
    }

-- The table that an entry leads to. A bit-field of 32 bits is promoted to `unsigned int`, and so
-- the shift by the page offset keeps 32 bits.
unfoldable pub child : Entry → ℕ
child e = e.addr * 2 ^ page_offset_bits % 2 ^ 32

-- An address as the 32-bit field keeps it.
unfoldable pub to_field : ℕ → ℕ
to_field paddr = paddr / 2 ^ page_offset_bits % 2 ^ 32

abbrev pub clear_entry : Entry
clear_entry = record { present = false; rw_flag = false; addr = 0; others = 0 }

-- `memset(table, 0, PAGE_SZ)`.
unfoldable pub clear_table : Tables → ℕ → Tables
clear_table t table a i = if a == table then clear_entry else t a i

-- The three assignments to the entry at an index: address, `present` and `rw`.
unfoldable pub set_entry : Tables → (table idx paddr : ℕ) → Tables
unfolding to_field
set_entry t table idx paddr a i =
    if a == table && i == idx
    then record (t table idx) { addr = to_field paddr; present = true; rw_flag = true }
    else t a i

unfoldable pub is_page_allocated : (root : ℕ) → Tables → (vaddr : ℕ) → Bool
is_page_allocated root t vaddr =
    let index = page_indexer vaddr in
    let pml4_entry = t root index.pml4 in
    if not pml4_entry.present
    then false
    else let pdpt_entry = t (child pml4_entry) index.pdpt in
      if not pdpt_entry.present
      then false
      else let pd_entry = t (child pdpt_entry) index.pd in
        if not pd_entry.present then false else (t (child pd_entry) index.pt).present

-- What allocation changes: the frame allocator and the tables.
pub record Space : Type 0 where
  pub pmem : PMem
  pub tables : Tables

-- A fresh table for the entry, unless the request failed or gave null.
unfoldable pub attach : (table idx : ℕ) → Tables → Option (ℕ × PMem) → Option (ℕ × Space)
attach table idx t none = none
attach table idx t (some (frame, p)) =
    if frame == 0
    then none
    else some (frame, record { pmem = p; tables = set_entry (clear_table t frame) table idx frame })

-- One level of the walk of `allocate_page`: the table that the entry leads to, which is made where
-- the entry is not present.
unfoldable pub descend : (table idx : ℕ) → Space → Option (ℕ × Space)
descend table idx s =
    let e = s.tables table idx in
    if e.present then some (child e, s) else attach table idx s.tables (request_frame s.pmem)

unfoldable pub allocate_page : (root vaddr paddr : ℕ) → Space → Option Space
allocate_page root vaddr paddr s = do
  let index = page_indexer vaddr
  (pdpt, s) ← descend root index.pml4 s
  (pd, s) ← descend pdpt index.pdpt s
  (pt, s) ← descend pd index.pd s
  some (record s { tables = set_entry s.tables pt index.pt paddr })

-- The loop of `__identity_paging`.
unfoldable pub identity_loop : (root rounds addr : ℕ) → Space → Option Space
identity_loop root zero addr s = some s
identity_loop root (suc k) addr s = do
  s ← allocate_page root addr addr s
  identity_loop root k ((addr + page_sz) % u64_mod) s

abbrev pub identity_rounds : ℕ → ℕ
identity_rounds n = n / (page_sz + 1) + 1

unfoldable pub identity_paging : (root addr n : ℕ) → Space → Option Space
identity_paging root addr n s = identity_loop root (identity_rounds n) addr s

-- The loop of `init` over the memory map.
unfoldable pub map_segments : (root : ℕ) → MemoryMap → (rounds i : ℕ) → Space → Option Space
map_segments root mm zero i s = some s
map_segments root mm (suc k) i s = do
  let d = get_desc mm i
  s ← identity_paging root d.paddr (frame_sz * d.pages % u64_mod) s
  map_segments root mm k (i + 1) s

-- The device regions that `init` maps, beside the memory map.
pub record Regions : Type 0 where
  pub fb_addr : ℕ
  pub fb_size : ℕ
  pub lapic_addr : ℕ
  pub io_apic_addr : ℕ
  pub hpet_addr : ℕ
  pub hpet_size : ℕ

unfoldable pub init : (root : ℕ) → MemoryMap → Regions → Space → Option Space
init root mm r s = do
  s ← map_segments root mm mm.entries 0 s
  s ← identity_paging root r.fb_addr r.fb_size s
  s ← identity_paging root r.lapic_addr 4096 s
  s ← identity_paging root r.io_apic_addr 8 s
  identity_paging root r.hpet_addr r.hpet_size s
