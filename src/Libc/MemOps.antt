-- ===== src/Libc/MemOps.antt =====
-- `memset` and `memcpy` of kernel/src/libc/stdlib.cpp: the count falls to 0, so the loops recur
-- on it, and both pointers go up by one each round.
pub mod Laws
use print_os.Base.{ℕ, zero, suc, ◌+◌}
use print_os.Mem.{Mem, read8, write8}

unfoldable pub memset : Mem → (ptr v n : ℕ) → Mem
memset m p v zero = m
memset m p v (suc n) = memset (write8 m p v) (p + 1) v n

unfoldable pub memcpy : Mem → (dest src n : ℕ) → Mem
memcpy m d s zero = m
memcpy m d s (suc n) = memcpy (write8 m d (read8 m s)) (d + 1) (s + 1) n
