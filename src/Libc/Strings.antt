-- ===== src/Libc/Strings.antt =====
-- The string functions of kernel/src/libc/stdlib.cpp over byte memory. The loops that end at a
-- terminator take fuel, and give `none` when it runs out.
pub mod Compare
pub mod Reverse
use print_os.Base.{
  ℕ, zero, suc, ◌+◌, ◌-◌, ◌/◌, ◌%◌, Bool, not, ◌&&◌, Option, none, some, ◌==◌, if◌then◌else◌,
}
use print_os.Mem.{Mem, read8, write8}

unfoldable pub len_loop : (fuel : ℕ) → Mem → (str count : ℕ) → Option ℕ
len_loop zero m str count = none
len_loop (suc k) m str count =
    let rest = len_loop k m str (count + 1) in
    if read8 m (str + count) == 0 then some count else rest

unfoldable pub str_len : (fuel : ℕ) → Mem → (str : ℕ) → Option ℕ
unfolding len_loop
str_len fuel m str = len_loop fuel m str 0

-- The exchange of the characters at `i` and `len - i - 1`.
abbrev pub exchange : Mem → (str len i : ℕ) → Mem
exchange m str len i =
    let temp = read8 m (str + i) in
    write8 (write8 m (str + i) (read8 m (str + (len - i - 1)))) (str + (len - i - 1)) temp

unfoldable pub reverse_loop : (rounds i : ℕ) → Mem → (str len : ℕ) → Mem
reverse_loop zero i m str len = m
reverse_loop (suc k) i m str len = reverse_loop k (i + 1) (exchange m str len i) str len

unfoldable pub str_reverse : Mem → (str len : ℕ) → Mem
unfolding reverse_loop
str_reverse m str len = reverse_loop (len / 2) 0 m str len

-- The difference of two characters as a `uint8_t`.
abbrev pub difference : Mem → (str1 str2 : ℕ) → ℕ
difference m s t = (read8 m s % 256 + 256 - read8 m t % 256) % 256

unfoldable pub strcmp : (fuel : ℕ) → Mem → (str1 str2 : ℕ) → Option ℕ
strcmp zero m s t = none
strcmp (suc k) m s t =
    let rest = strcmp k m (s + 1) (t + 1) in
    if not (read8 m s == 0) && read8 m s == read8 m t then rest else some (difference m s t)

-- The count `n` falls in each round, so it bounds the loop.
unfoldable pub strncmp : Mem → (str1 str2 n : ℕ) → ℕ
strncmp m s t zero = 0
strncmp m s t (suc n) =
    let rest = strncmp m (s + 1) (t + 1) n in
    if not (read8 m s == 0) && read8 m s == read8 m t then rest else difference m s t
