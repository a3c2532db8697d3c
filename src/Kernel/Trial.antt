-- ===== src/Kernel/Trial.antt =====
-- The end of `_start` of kernel/src/kernel.cpp: the heap is made and tried out, and the PS/2
-- controller is asked for its tests, before the kernel waits for interrupts without end. The loop
-- that only counts is left out. `none` is also a null pointer that is followed.
use print_os.Base.{
  ℕ, ◌+◌, ◌-◌, ◌%◌, ◌||◌, Option, none, some, [], ◌∷◌, ◌>>=◌, ◌==◌, if◌then◌else◌, u64_mod,
}
use print_os.Mem.{Mem}
use print_os.Hardware.{Hardware}
use print_os.Drivers.Ps2
use print_os.Memory.Heap
use print_os.Memory.Heap.{Heap, header_sz, malloc, get_heap_stats}
use print_os.Memory.Paging.{Tables}
use print_os.Console.Terminal.{Console}
use print_os.Kutils.Printf.Panic.{kprint_heap_info}
use print_os.Cpu.Idt.{Table}
use print_os.Cpu.Info.{Registers}
use print_os.Kernel.{BootloaderData, Kernel, Layout, say, with_mem, bring_up}

-- What the trial changes.
pub record Running : Type 0 where
  pub console : Console
  pub heap : Heap

-- The addresses of the texts of the trial.
pub record TrialTexts : Type 0 where
  pub init : ℕ
  pub ptr1 : ℕ
  pub ptr2 : ℕ
  pub ptr3 : ℕ
  pub ptr4 : ℕ
  pub ptr5 : ℕ
  pub ptr6 : ℕ
  pub ptr7 : ℕ
  pub ptr8 : ℕ
  pub header : ℕ
  pub response : ℕ
  pub done : ℕ

-- The allocator of frames sees the memory of the console.
abbrev pub in_memory : Mem → Heap → Heap
in_memory m h = record h { space = record h.space { pmem = record h.space.pmem { mem = m } } }

module _ (l : Layout) (t : TrialTexts) where
  -- A call of `malloc`.
  unfoldable pub alloc : (bytes : ℕ) → Running → Option (ℕ × Running)
  alloc bytes r = do
    (ptr, h) ← malloc l.root l.fuel bytes (in_memory r.console.mem r.heap)
    some (ptr, record { console = with_mem r.console h.space.pmem.mem; heap = h })

  -- A text, and the report of the heap.
  unfoldable pub report : (text : ℕ) → Running → Option Running
  report text r = do
    c ← say l text [] r.console
    st ← get_heap_stats l.fuel r.heap
    c ←
        kprint_heap_info l.fuel l.buf l.temp_buf l.literals st.all_blocks st.free_blocks
          st.allocated_blocks c
    some (record r { console = c })

  unfoldable pub release : (ptr : ℕ) → Running → Option Running
  release ptr r = do h ← Heap.free ptr r.heap; some (record r { heap = h })

  -- A block is freed, and the heap is reported.
  unfoldable pub release_and_report : (ptr text : ℕ) → Running → Option Running
  release_and_report ptr text r = do r ← release ptr r; report text r

  -- The header of the last block, with those of its neighbours.
  unfoldable pub print_header : (ptr : ℕ) → Running → Option Running
  print_header ptr r = do
    let hs = r.heap.headers
    let hdr = hs ((ptr + u64_mod - header_sz) % u64_mod)
    c ←
        if hdr.next == 0 || hdr.prev == 0
        then none
        else say l t.header (hdr.bytes ∷ (hs hdr.next).bytes ∷ (hs hdr.prev).bytes ∷ header_sz ∷ [])
            r.console
    some (record r { console = c })

  unfoldable pub try_heap : Running → Option Running
  try_heap r = do
    (ptr1, r) ← alloc 10 r
    (ptr2, r) ← alloc 10 r
    (ptr3, r) ← alloc 10 r
    (ptr4, r) ← alloc 10 r
    (ptr5, r) ← alloc 10 r
    (ptr6, r) ← alloc 10 r
    (ptr7, r) ← alloc 10 r
    (ptr8, r) ← alloc 10 r
    (ptr9, r) ← alloc 5000 r
    r ← report t.init r
    r ← release_and_report ptr2 t.ptr2 r
    r ← release_and_report ptr3 t.ptr3 r
    r ← release_and_report ptr8 t.ptr8 r
    r ← release_and_report ptr6 t.ptr6 r
    r ← release_and_report ptr4 t.ptr4 r
    r ← release_and_report ptr1 t.ptr1 r
    r ← release_and_report ptr5 t.ptr5 r
    r ← release_and_report ptr7 t.ptr7 r
    r ← release ptr9 r
    print_header ptr9 r

  module _ {S : Type 0} (hw : Hardware S) where
    -- A command to the port 0x64, whose answer is printed.
    unfoldable pub ask : (command : ℕ) → Console → S → Option (Console × S)
    ask command c s = do
      let answer = hw.inb 0x60 (hw.outb 0x64 command s).1
      c ← say l t.response (answer.0 ∷ []) c
      some (c, answer.1)

    unfoldable pub try_ps2 : Console → S → Option (Console × S)
    try_ps2 c s = do (c, s) ← ask 0xaa c s; (c, s) ← ask 0xab c s; some (c, (Ps2.enable hw s).1)

    -- `_start` as far as its endless loop.
    unfoldable pub start :
        (cpuid : ℕ → Registers)
        → BootloaderData
        → Tables
        → Table
        → Mem
        → S
        → Option (Kernel S × Heap)
    start cpuid bd tables idt m s = do
      k ← bring_up hw l cpuid bd tables idt m s
      h ← Heap.create l.root k.space
      r ← try_heap (record { console = with_mem k.console h.space.pmem.mem; heap = h })
      (c, s) ← try_ps2 r.console k.devices
      c ← say l t.done [] c
      some (record k { console = c; devices = s }, in_memory c.mem r.heap)
