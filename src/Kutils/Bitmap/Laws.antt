-- ===== src/Kutils/Bitmap/Laws.antt =====
-- The bitmap is a map from indices to flags, and it writes inside its buffer only.
use print_os.Base.{
  ℕ, ◌+◌, ◌*◌, ◌/◌, ◌%◌, ◌≤◌, ◌<◌, ◌≡◌, ◌⊎◌, ◌^◌, false, not, ◌&&◌, ◌||◌, arith, ◌==◌, u64_mod,
}
use print_os.Mem.{Mem}
use print_os.Libc.MemOps.Laws.{memset_lem}
use print_os.Kutils.Bits.{test_bit}
use print_os.Kutils.Bits.Laws.{zero-bit_and, test_bit-set_bit, test_bit-clear_bit}
use print_os.Kutils.Bitmap.{Bitmap, create, rest, base, get, set, unset}

module _ (m : Mem) (b : Bitmap) (i j : ℕ) where
  -- Setting one flag changes that flag and no other.
  pub get-set : get (set m b i) b j ≡ ((i == j) || get m b j)
  unfolding get set
  get-set = ground (arith, test_bit-set_bit (m (b.buffer + base i)) (rest i) (rest j))

  -- Clearing one flag changes that flag and no other.
  pub get-unset : get (unset m b i) b j ≡ (not (i == j) && get m b j)
  unfolding get unset
  get-unset = ground (arith, test_bit-clear_bit (m (b.buffer + base i)) (rest i) (rest j))

-- `set` and `unset` of an index below the size write only inside the buffer.
pub set_frame :
    (m : Mem) (b : Bitmap) (i q : ℕ)
    → i < b.size * 8
    → q < b.buffer ⊎ b.buffer + b.size ≤ q
    → (set m b i q ≡ m q) × (unset m b i q ≡ m q)
unfolding set unset
set_frame m b i q h out = ground arith

-- The constructor clears every flag that was asked for, if their number does not overflow when it
-- is rounded up.
pub get-create :
    (m : Mem) (self buffer bits i : ℕ)
    → bits + 7 < u64_mod
    → i < bits
    → let (b, m') = create m self buffer bits in get m' b i ≡ false
unfolding create get test_bit
get-create m self buffer bits i small h = ground (
  arith,
  memset_lem m buffer 0 ((bits + 7) % u64_mod / 8) (buffer + base i),
  zero-bit_and (2 ^ rest i),
)
