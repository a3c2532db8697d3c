-- ===== src/Cpu/Report.antt =====
-- `kprint_cpu_info` of kernel/src/kutils/console.cpp, and the handlers of
-- kernel/src/idt/interrupts.cpp that print and then stay in a loop without end: what they print.
use print_os.Base.{ℕ, Option, [], ◌∷◌, ◌>>=◌, if◌then◌else◌}
use print_os.Console.Terminal.{Console}
use print_os.Kutils.Printf.{kprintf}
use print_os.Kutils.Printf.Panic.{Literals, kprint_info, kpanic}
use print_os.Cpu.Info.{Info}

-- The addresses of the texts.
pub record ReportTexts : Type 0 where
  pub cpu_info : ℕ
  pub manufacturer : ℕ
  pub stepping_id : ℕ
  pub family_id : ℕ
  pub model_id : ℕ
  pub type : ℕ
  pub brand : ℕ
  pub logical_cores : ℕ
  pub physical_cores : ℕ
  pub hyperthreading : ℕ
  pub page_fault : ℕ
  pub division_by_zero : ℕ
  pub spurious : ℕ
  pub apic_error : ℕ

module _ (fuel buf temp_buf : ℕ) (lit : Literals) (t : ReportTexts) where
  -- The two texts of the record are at `manufacturer` and `brand`.
  unfoldable pub kprint_cpu_info : Info → (manufacturer brand : ℕ) → Console → Option Console
  kprint_cpu_info info manufacturer brand c = do
    c ← kprint_info fuel buf temp_buf lit t.cpu_info c
    c ← kprintf fuel buf temp_buf t.manufacturer (manufacturer ∷ []) c
    c ← kprintf fuel buf temp_buf t.stepping_id (info.stepping_id ∷ []) c
    c ← kprintf fuel buf temp_buf t.family_id (info.family_id ∷ []) c
    c ← kprintf fuel buf temp_buf t.model_id (info.model_id ∷ []) c
    c ← kprintf fuel buf temp_buf t.type (info.type ∷ []) c
    c ← kprintf fuel buf temp_buf t.brand (brand ∷ []) c
    c ← kprintf fuel buf temp_buf t.logical_cores (info.logical_cores ∷ []) c
    c ← kprintf fuel buf temp_buf t.physical_cores (info.physical_cores ∷ []) c
    kprintf fuel buf temp_buf t.hyperthreading ((if info.hyperthreading then 1 else 0) ∷ []) c

  unfoldable pub page_fault_handler : Console → Option Console
  page_fault_handler = kprintf fuel buf temp_buf t.page_fault []

  unfoldable pub divide_by_zero_handler : Console → Option Console
  divide_by_zero_handler = kpanic fuel buf temp_buf lit t.division_by_zero

  unfoldable pub spurious_handler : Console → Option Console
  spurious_handler = kprintf fuel buf temp_buf t.spurious []

  unfoldable pub apic_error_handler : Console → Option Console
  apic_error_handler = kprintf fuel buf temp_buf t.apic_error []
