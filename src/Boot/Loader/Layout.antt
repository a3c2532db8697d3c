-- ===== src/Boot/Loader/Layout.antt =====
-- How the segments of the kernel have to lie for bootloader/kernel_loader.c to load them, and what it
-- then leaves in memory, in the terms of the file.
use print_os.Base.{ℕ, ◌+◌, ◌*◌, ◌≤◌, ◌<◌, ◌≡◌, ◌≢◌, ◌⊎◌}
use print_os.Mem.{Mem}
use print_os.Boot.Loader.Fields.{
  e_hdr_sz, e_phoff, e_phentsize, e_phnum, p_hdr_sz, p_type, p_offset, p_paddr, p_filesz, pt_load,
}

-- The two ranges of bytes have none in common.
abbrev pub Apart : (p n q k : ℕ) → Type 0
Apart p n q k = (p + n ≤ q) ⊎ (q + k ≤ p)

-- The place of a program header in the file.
abbrev pub header_at : (f : Mem) (i : ℕ) → ℕ
header_at f i = e_phoff f 0 + i * e_phentsize f 0

-- The header is that of a segment to load.
abbrev pub Loads : (f : Mem) (i : ℕ) → Type 0
Loads f i = p_type f (header_at f i) ≡ pt_load

abbrev pub paddr : (f : Mem) (i : ℕ) → ℕ
paddr f i = p_paddr f (header_at f i)

abbrev pub filesz : (f : Mem) (i : ℕ) → ℕ
filesz f i = p_filesz f (header_at f i)

abbrev pub offset : (f : Mem) (i : ℕ) → ℕ
offset f i = p_offset f (header_at f i)

-- The file is whole, its headers have the size of the format at least, and the segments to load lie
-- apart from each other, from the table of headers at `base` and from the file header at `e_hdr`.
pub record IsLaidOut (f : Mem) (size base e_hdr : ℕ) : Type 0 where
  pub wide : p_hdr_sz ≤ e_phentsize f 0
  pub inside : (i : ℕ) → i < e_phnum f 0 → Loads f i → offset f i + filesz f i ≤ size
  pub disjoint :
      (i j : ℕ)
      → i < e_phnum f 0
      → j < e_phnum f 0
      → i ≢ j
      → Loads f i
      → Loads f j
      → Apart (paddr f i) (filesz f i) (paddr f j) (filesz f j)
  pub clear_table :
      (i : ℕ)
      → i < e_phnum f 0
      → Loads f i
      → Apart (paddr f i) (filesz f i) base (e_phnum f 0 * e_phentsize f 0)
  pub clear_e_hdr :
      (i : ℕ) → i < e_phnum f 0 → Loads f i → Apart (paddr f i) (filesz f i) e_hdr e_hdr_sz

-- Memory has the `n` bytes of the file from `q` on at `p`.
abbrev pub Copied : (f m : Mem) (p q n : ℕ) → Type 0
Copied f m p q n = (x : ℕ) → x < n → m (p + x) ≡ f (q + x)

-- The segments from `i` to `hi - 1` are loaded, and nothing else has changed.
pub record Segments (f : Mem) (i hi : ℕ) (m m' : Mem) : Type 0 where
  pub loaded :
      (j : ℕ) → i ≤ j → j < hi → Loads f j → Copied f m' (paddr f j) (offset f j) (filesz f j)
  pub frame :
      (q : ℕ)
      → ((j : ℕ) → i ≤ j → j < hi → Loads f j → Apart q 1 (paddr f j) (filesz f j))
      → m' q ≡ m q
