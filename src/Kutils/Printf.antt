-- ===== src/Kutils/Printf.antt =====
-- `__printf` and the functions on it of kernel/src/kutils/console.cpp. The format is read from
-- memory, the two buffers are on the stack at the addresses `buf` and `temp_buf`, and the variable
-- arguments are a list of words. `none` is a run that reads past the arguments, or whose loops do
-- not end within the fuel.
pub mod Spec
pub mod Convert
pub mod Step
pub mod Run
pub mod Panic
use print_os.Base.{
  ℕ, zero, suc, ◌+◌, ◌%◌, ◌^◌, Bool, true, false, Option, none, some, List, [], ◌∷◌, ◌>>=◌, ◌==◌,
  ltb, if◌then◌else◌,
}
use print_os.Mem.{Mem, read8, write8}
use print_os.Libc.MemOps.{memset, memcpy}
use print_os.Libc.Strings.{str_len}
use print_os.Libc.Itoa.{itoa}
use print_os.Console.Terminal.{Console, print_string}

-- The variables of the loop. `percent` is `is_percent`; `j` is a `u16`.
pub record State : Type 0 where
  pub percent : Bool
  pub args : List ℕ
  pub mem : Mem
  pub j : ℕ

-- One round more than the bits of a word, for `itoa`.
abbrev pub itoa_fuel : ℕ
itoa_fuel = 65

module _ (fuel buf temp_buf : ℕ) where
  -- The copy of a string to the buffer, after which the conversion is over.
  unfoldable pub put_text : Mem → (src j : ℕ) → (args : List ℕ) → Option State
  put_text m src j args = do
    temp_len ← str_len fuel m src
    some (record {
      percent = false;
      args = args;
      mem = memcpy m (buf + j) src temp_len;
      j = (j + temp_len) % 2 ^ 16;
    })

  unfoldable pub put_string : (args : List ℕ) → Mem → (j : ℕ) → Option State
  unfolding put_text
  put_string [] m j = none
  put_string (arg ∷ args) m j = put_text m arg j args

  unfoldable pub put_number : (base : ℕ) → (args : List ℕ) → Mem → (j : ℕ) → Option State
  unfolding put_text
  put_number base [] m j = none
  put_number base (arg ∷ args) m j = do
    m' ← itoa itoa_fuel m (arg % 2 ^ 64) temp_buf base
    put_text m' temp_buf j args

  -- The switch; any other letter is dropped.
  unfoldable pub convert : (chr : ℕ) → State → Option State
  unfolding put_string put_number
  convert chr s =
      if chr == b's'
      then put_string s.args s.mem s.j
      else if chr == b'd'
      then put_number 10 s.args s.mem s.j
      else if chr == b'p'
      then put_number 16 s.args s.mem s.j
      else some (record s { percent = false })

  -- The body of the loop for a character.
  unfoldable pub step : (chr : ℕ) → State → Option State
  unfolding convert
  step chr s =
      if s.percent
      then convert chr s
      else if chr == b'%'
      then some (record s { percent = true })
      else some (record s { mem = write8 s.mem (buf + s.j) chr; j = (s.j + 1) % 2 ^ 16 })

  -- The rounds left are the characters that are left.
  unfoldable pub printf_loop : (rounds str : ℕ) → State → Option State
  unfolding step
  printf_loop zero str s = some s
  printf_loop (suc k) str s = do s' ← step (read8 s.mem str) s; printf_loop k (str + 1) s'

  -- The buffer when it is terminated. The index of the loop is a `u16`: a longer format is not left.
  unfoldable pub format : (str : ℕ) → (args : List ℕ) → Mem → Option Mem
  unfolding printf_loop
  format str args m = do
    let m' = memset (memset m buf 0 4096) temp_buf 0 64
    len ← str_len fuel m' str
    s ←
        if ltb len (2 ^ 16)
        then printf_loop len str (record { percent = false; args = args; mem = m'; j = 0 })
        else none
    some (write8 s.mem (buf + s.j) 0)

  -- `kprintf` hands its arguments on to `__printf`.
  unfoldable pub kprintf : (str : ℕ) → (args : List ℕ) → Console → Option Console
  unfolding format
  kprintf str args c = do m ← format str args c.mem; print_string fuel buf (record c { mem = m })
