-- ===== src/Libc/Itoa.antt =====
-- `itoa` of kernel/src/libc/stdlib.cpp. The digits are written from the last to the first, and the
-- text is reversed. The digit loop takes fuel; `none` means that it ran out.
pub mod Digits
pub mod RoundTrip
use print_os.Base.{ℕ, zero, suc, ◌+◌, ◌-◌, ◌/◌, ◌%◌, Option, none, some, ◌==◌, ltb, if◌then◌else◌}
use print_os.Mem.{Mem, write8}
use print_os.Libc.Strings.{str_reverse}

-- '0' is 48 and 'a' is 97.
abbrev pub digit_char : ℕ → ℕ
digit_char rem = if ltb 9 rem then rem - 10 + 97 else rem + 48

-- The memory, and the index `i`, when `num` has become 0.
unfoldable pub digit_loop : (fuel : ℕ) → Mem → (num buf base i : ℕ) → Option (Mem × ℕ)
digit_loop zero m num buf base i = none
digit_loop (suc k) m num buf base i =
    let rest =
      digit_loop k (write8 m (buf + i) (digit_char (num % base))) (num / base) buf base (i + 1) in
    if num == 0 then some (m, i) else rest

-- The terminator, and the reversal.
abbrev pub finish : (buf : ℕ) → Option (Mem × ℕ) → Option Mem
finish buf none = none
finish buf (some (m, i)) = some (str_reverse (write8 m (buf + i) 0) buf i)

unfoldable pub itoa : (fuel : ℕ) → Mem → (num buf base : ℕ) → Option Mem
itoa fuel m num buf base =
    if num == 0
    then some (write8 (write8 m buf 48) (buf + 1) 0)
    else finish buf (digit_loop fuel m num buf base 0)
