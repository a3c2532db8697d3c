-- ===== src/Mem.antt =====
-- Physical memory as the kernel's byte pointers see it: a byte at every address. A store cuts its
-- value to `u8`. Addresses are not wrapped: pointer arithmetic past the end is undefined in C++.
use print_os.Base.{ℕ, zero, suc, ◌+◌, ◌*◌, ◌%◌, ◌==◌, if◌then◌else◌}

abbrev pub Mem : Type 0
Mem = ℕ → ℕ

abbrev pub read8 : Mem → ℕ → ℕ
read8 m p = m p

abbrev pub write8 : Mem → ℕ → ℕ → Mem
write8 m p v q = if q == p then v % 256 else m q

-- The `n` bytes from `p` on as a little-endian number, the way the CPU loads one.
unfoldable pub read_le : Mem → (p n : ℕ) → ℕ
read_le m p zero = 0
read_le m p (suc n) = read8 m p + 256 * read_le m (p + 1) n
