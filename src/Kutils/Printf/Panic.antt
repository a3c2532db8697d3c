-- ===== src/Kutils/Printf/Panic.antt =====
-- The messages and the panic screen of kernel/src/kutils/console.cpp. The formats are literals of the
-- source, which lie somewhere in memory: their addresses are fields.
use print_os.Base.{ℕ, ◌*◌, ◌/◌, ◌%◌, ◌^◌, Option, [], ◌∷◌, ◌>>=◌}
use print_os.Console.Framebuffer.{set_all_pixels, white}
use print_os.Console.Cursor.{gotoxy, set_bg, set_fg}
use print_os.Console.Terminal.{Console}
use print_os.Kutils.Printf.{kprintf}

-- `rgb_to_int(0, 0, 255)`.
abbrev pub blue : ℕ
blue = 255

pub record Literals : Type 0 where
  pub kernel_error : ℕ
  pub kernel_success : ℕ
  pub kernel_info : ℕ
  pub heap_blocks : ℕ
  pub pmem_info : ℕ
  pub all_frames : ℕ
  pub free_frames : ℕ
  pub locked_frames : ℕ
  pub kernel_panic : ℕ
  pub error_line : ℕ
  pub message_line : ℕ
  pub file_line : ℕ
  pub line_line : ℕ
  pub func_line : ℕ

abbrev pub mega : (frames : ℕ) → ℕ
mega frames = frames * 4096 % 2 ^ 64 / 1024 / 1024

module _ (fuel buf temp_buf : ℕ) (lit : Literals) where
  unfoldable pub kprint_err : (msg : ℕ) → Console → Option Console
  kprint_err msg = kprintf fuel buf temp_buf lit.kernel_error (msg ∷ [])

  unfoldable pub kprint_succ : (msg : ℕ) → Console → Option Console
  kprint_succ msg = kprintf fuel buf temp_buf lit.kernel_success (msg ∷ [])

  unfoldable pub kprint_info : (msg : ℕ) → Console → Option Console
  kprint_info msg = kprintf fuel buf temp_buf lit.kernel_info (msg ∷ [])

  unfoldable pub kprint_heap_info : (all free allocated : ℕ) → Console → Option Console
  kprint_heap_info all free allocated =
      kprintf fuel buf temp_buf lit.heap_blocks (all ∷ free ∷ allocated ∷ [])

  -- The numbers of frames; sizes are products of 64 bits.
  unfoldable pub kprint_pmem_info : (frames free locked : ℕ) → Console → Option Console
  kprint_pmem_info frames free locked c = do
    c1 ← kprint_info lit.pmem_info c
    c2 ← kprintf fuel buf temp_buf lit.all_frames (frames ∷ mega frames ∷ []) c1
    c3 ← kprintf fuel buf temp_buf lit.free_frames (free ∷ mega free ∷ []) c2
    kprintf fuel buf temp_buf lit.locked_frames (locked ∷ mega locked ∷ []) c3

  unfoldable pub prepare_kpanic : Console → Option Console
  prepare_kpanic c =
      let blank = record c {
        mem = set_all_pixels c.framebuffer blue c.mem;
        cursor = set_fg white (set_bg blue (gotoxy 0 0 c.cursor));
      } in
      kprintf fuel buf temp_buf lit.kernel_panic [] blank

  -- `kpanic` with a message.
  unfoldable pub kpanic : (msg : ℕ) → Console → Option Console
  unfolding prepare_kpanic
  kpanic msg c = do c' ← prepare_kpanic c; kprintf fuel buf temp_buf lit.error_line (msg ∷ []) c'

  -- `kpanic` with the place of an assertion.
  unfoldable pub kpanic_at : (msg file line func : ℕ) → Console → Option Console
  unfolding prepare_kpanic
  kpanic_at msg file line func c = do
    c1 ← prepare_kpanic c
    c2 ← kprintf fuel buf temp_buf lit.message_line (msg ∷ []) c1
    c3 ← kprintf fuel buf temp_buf lit.file_line (file ∷ []) c2
    c4 ← kprintf fuel buf temp_buf lit.line_line (line ∷ []) c3
    kprintf fuel buf temp_buf lit.func_line (func ∷ []) c4
