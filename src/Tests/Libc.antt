-- ===== src/Tests/Libc.antt =====
-- The theorems on kernel/src/libc/stdlib.cpp at concrete inputs.
use print_os.Base.{ℕ, ◌^◌, ◌≤◌, ◌<◌, ◌≡◌, some, arith, ◌==◌, if◌then◌else◌}
use print_os.Mem.{Mem}
use print_os.Libc.MemOps.Laws.{IsBytes}
use print_os.Libc.Itoa.{itoa}
use print_os.Libc.Itoa.RoundTrip.{Spelled, itoa-Spelled}

-- The text "ab" at 10, with its terminator.
abbrev ab : Mem
ab = λ q. if q == 10 then 97 else if q == 11 then 98 else 0

ab-IsBytes : IsBytes ab
ab-IsBytes q = ground arith

itoa-Spelled_example :
    (k : ℕ) × (m' : Mem) × (itoa 65 ab 1234 10 10 ≡ some m')
    × Spelled ab 1234 10 10 k m'
    × ((d : ℕ) → 0 < d → 1234 < 10 ^ d → k ≤ d)
itoa-Spelled_example =
    itoa-Spelled 64 ab 1234 10 10 ab-IsBytes (omega arith) (omega arith) (omega arith)
