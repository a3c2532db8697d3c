-- ===== src/Memory/MMap.antt =====
-- kernel/src/memory/mmap.{hpp,cpp}: the memory map that the firmware leaves. The descriptors are a
-- store from addresses, where `get_desc` finds the descriptor of an index.
pub mod Segments
use print_os.Base.{
  ℕ, zero, suc, ◌+◌, ◌-◌, ◌*◌, ◌/◌, ◌%◌, Bool, ◌||◌, ◌&&◌, Option, none, some, ◌==◌, ltb,
  if◌then◌else◌, u64_mod,
}

abbrev pub frame_sz : ℕ
frame_sz = 4096

-- `type` is `kind` here, a `u32`.
pub record EfiMMapDesc : Type 0 where
  pub kind : ℕ
  pub paddr : ℕ
  pub vaddr : ℕ
  pub pages : ℕ
  pub attr : ℕ

abbrev pub efi_boot_services_code : ℕ
efi_boot_services_code = 3

abbrev pub efi_boot_services_data : ℕ
efi_boot_services_data = 4

abbrev pub efi_conventional_memory : ℕ
efi_conventional_memory = 7

pub record MemoryData : Type 0 where
  pub mmap : ℕ
  pub mmap_sz : ℕ
  pub desc_sz : ℕ
  pub entries : ℕ

-- The object, with the store that its descriptors lie in.
pub record MemoryMap : Type 0 where
  pub mmap_sz : ℕ
  pub desc_sz : ℕ
  pub entries : ℕ
  pub mmap : ℕ
  pub descs : ℕ → EfiMMapDesc

-- The constructor; `none` is a failed assertion.
unfoldable pub create : (ℕ → EfiMMapDesc) → MemoryData → Option MemoryMap
create descs d =
    if ltb 0 d.entries
    then some (record {
      mmap_sz = d.mmap_sz;
      desc_sz = d.desc_sz;
      entries = d.entries;
      mmap = d.mmap;
      descs = descs;
    })
    else none

unfoldable pub get_desc : MemoryMap → ℕ → EfiMMapDesc
get_desc mm idx = mm.descs (mm.mmap + idx * mm.desc_sz % u64_mod)

unfoldable pub get_entire_memory_size : MemoryMap → ℕ
get_entire_memory_size mm =
    let last = get_desc mm ((mm.entries + u64_mod - 1) % u64_mod) in
    (last.paddr + frame_sz * last.pages + frame_sz) % u64_mod

unfoldable pub get_page_frames_number : MemoryMap → ℕ
unfolding get_entire_memory_size
get_page_frames_number mm = get_entire_memory_size mm / frame_sz

abbrev pub seg_sz : EfiMMapDesc → ℕ
seg_sz d = d.pages * frame_sz % u64_mod

abbrev pub is_conventional : EfiMMapDesc → Bool
is_conventional d = d.kind == efi_conventional_memory

-- The size and the address of the segment that is kept when `d` has been seen.
abbrev pub larger : ℕ × ℕ → EfiMMapDesc → ℕ × ℕ
larger (max_sz, seg) d =
    if is_conventional d && ltb max_sz (seg_sz d) then (seg_sz d, d.paddr) else (max_sz, seg)

-- The rounds that are left, the index, and `max_sz` with `*mem_seg`.
unfoldable pub largest_loop : MemoryMap → (rounds i : ℕ) → ℕ × ℕ → ℕ × ℕ
largest_loop mm zero i best = best
largest_loop mm (suc k) i best = largest_loop mm k (i + 1) (larger best (get_desc mm i))

-- The bound is the `entries` of the bootloader's `MemoryData`. Beside the size stands the value
-- that `*mem_seg` has at the end, given the one at the start.
unfoldable pub get_largest_free_seg : MemoryMap → (memory_entries mem_seg : ℕ) → ℕ × ℕ
unfolding largest_loop
get_largest_free_seg mm n seg = largest_loop mm n 0 (0, seg)

unfoldable pub is_usable_memory : EfiMMapDesc → Bool
is_usable_memory d =
    d.kind == efi_conventional_memory
    || d.kind == efi_boot_services_code
    || d.kind == efi_boot_services_data
