-- ===== src/Kutils/Bitmap.antt =====
-- kernel/src/kutils/bitmap.{hpp,cpp}. The object lies at `self`, and its first field, the pointer
-- to the buffer, at that same address: the public `buf` is initialised with `&__buf`, so it is the
-- address of the field and not of the buffer.
pub mod Laws
use print_os.Base.{ℕ, ◌+◌, ◌-◌, ◌*◌, ◌/◌, ◌%◌, ◌^◌, Bool, u64_mod}
use print_os.Mem.{Mem, read8, write8}
use print_os.Libc.MemOps.{memset}
use print_os.Kutils.Bits.{set_bit, clear_bit, test_bit}

pub record Bitmap : Type 0 where
  pub self : ℕ
  pub buffer : ℕ
  pub size : ℕ

-- The public field `buf`.
abbrev pub buf : Bitmap → ℕ
buf b = b.self

-- The constructor, which clears the buffer.
unfoldable pub create : Mem → (self buffer size_in_bits : ℕ) → Bitmap × Mem
create m self buffer bits =
    let bytes = (bits + 7) % u64_mod / 8 in
    (record { self = self; buffer = buffer; size = bytes }, memset m buffer 0 bytes)

abbrev pub rest : ℕ → ℕ
rest idx = idx % 8

abbrev pub base : ℕ → ℕ
base idx = (idx - rest idx) / 8

unfoldable pub get : Mem → Bitmap → ℕ → Bool
get m b idx = test_bit (read8 m (b.buffer + base idx)) (rest idx)

unfoldable pub set : Mem → Bitmap → ℕ → Mem
set m b idx = let addr = b.buffer + base idx in write8 m addr (set_bit (read8 m addr) (rest idx))

unfoldable pub unset : Mem → Bitmap → ℕ → Mem
unset m b idx =
    let addr = b.buffer + base idx in write8 m addr (clear_bit 8 (read8 m addr) (rest idx))

unfoldable pub get_mem_size : Bitmap → ℕ
get_mem_size b = b.size
