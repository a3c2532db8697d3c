-- ===== src/Kutils/Bits.antt =====
-- kernel/src/kutils/bits.hpp. `1 << pos` is `2 ^ pos`; in `clear_bit` the complement is taken in
-- the width of the variable, to which the C++ assignment cuts the result.
pub mod Laws
use print_os.Base.{ℕ, ◌-◌, ◌^◌, Bool, not, bit_and, bit_or, ◌==◌}

unfoldable pub set_bit : ℕ → ℕ → ℕ
set_bit var pos = bit_or var (2 ^ pos)

unfoldable pub clear_bit : (width var pos : ℕ) → ℕ
clear_bit width var pos = bit_and var (2 ^ width - 1 - 2 ^ pos)

-- The value of `test_bit`, as a condition.
unfoldable pub test_bit : ℕ → ℕ → Bool
test_bit var pos = not (bit_and var (2 ^ pos) == 0)
