-- ===== src/Libc/MemOps/Laws.antt =====
-- What `memset` and `memcpy` leave in memory.
use print_os.Base.{
  ℕ, zero, suc, ◌+◌, ◌-◌, ◌%◌, ◌≤◌, ◌<◌, ◌≡◌, ◌⊎◌, arith, ◌&&◌, ltb, leb, if◌then◌else◌,
}
use print_os.Mem.{Mem, write8}
use print_os.Libc.MemOps.{memset, memcpy}

-- `memset` writes the byte at exactly the `n` addresses from `p` on.
pub memset_lem :
    (m : Mem) (p v n q : ℕ) → memset m p v n q ≡ (if leb p q && ltb q (p + n) then v % 256 else m q)
unfolding memset
memset_lem m p v zero q = ground arith
memset_lem m p v (suc n) q = ground (arith, memset_lem (write8 m p v) (p + 1) v n q)

abbrev pub IsBytes : Mem → Type 0
IsBytes m = (q : ℕ) → m q < 256

pub write8-IsBytes : (m : Mem) (p v : ℕ) → IsBytes m → IsBytes (write8 m p v)
write8-IsBytes m p v b q = ground (arith, b q)

-- The forward loop copies the source as it was, unless the destination lies behind the start of
-- the source and within it.
pub memcpy_lem :
    (m : Mem) (d s n q : ℕ)
    → IsBytes m
    → (d ≤ s) ⊎ (s + n ≤ d)
    → memcpy m d s n q ≡ (if leb d q && ltb q (d + n) then m (s + (q - d)) else m q)
unfolding memcpy
memcpy_lem m d s zero q b h = ground arith
memcpy_lem m d s (suc n) q b h =
    ground
      (arith, memcpy_lem (write8 m d (m s)) (d + 1) (s + 1) n q (write8-IsBytes m d (m s) b), b s)
