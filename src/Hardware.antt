-- ===== src/Hardware.antt =====
-- The instructions by which the kernel reaches devices: loads and stores of memory-mapped registers
-- (kernel/src/cpu/mmio.h), port and model-specific register accesses (kernel/src/cpu/cpu.hpp), and `sti`. What
-- the devices do is not code of the kernel: a state of theirs and the effect of each instruction on
-- it are parameters, and what the code relies on is a record of laws where it is used.
use print_os.Base.{ℕ}

-- A piece of code that runs against a state `S` of the devices.
abbrev pub Action : Type 0 → Type 0 → Type 0
Action S A = S → A × S

infixl 5 ◌>>=◌ ◌>>◌
abbrev pub ◌>>=◌ : {S A B : Type 0} → Action S A → (A → Action S B) → Action S B
◌>>=◌ m f s = f (m s).0 (m s).1

abbrev pub ◌>>◌ : {S A B : Type 0} → Action S A → Action S B → Action S B
◌>>◌ m k s = k (m s).1

abbrev pub pure : {S A : Type 0} → A → Action S A
pure a s = (a, s)

pub record Hardware (S : Type 0) : Type 0 where
  pub mmio_read32 : (addr : ℕ) → Action S ℕ
  pub mmio_write32 : (addr val : ℕ) → Action S (Unit {0})
  pub mmio_read64 : (addr : ℕ) → Action S ℕ
  pub mmio_write64 : (addr val : ℕ) → Action S (Unit {0})
  pub read_msr : (msr_no : ℕ) → Action S ℕ
  pub write_msr : (msr_no value : ℕ) → Action S (Unit {0})
  pub inb : (port : ℕ) → Action S ℕ
  pub outb : (port val : ℕ) → Action S (Unit {0})
  pub sti : Action S (Unit {0})
