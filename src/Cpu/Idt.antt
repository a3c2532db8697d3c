-- ===== src/Cpu/Idt.antt =====
-- kernel/src/idt/idt.cpp and idt.hpp: the table of interrupt gates, a function of the vector. The
-- address of a handler is a number.
use print_os.Base.{
  ℕ, ◌+◌, ◌*◌, ◌/◌, ◌%◌, ◌^◌, ◌<◌, ◌≡◌, refl, arith, ◌==◌, if◌then◌else◌, Option, none, some,
}
use print_os.Hardware.{Action, Hardware}
use print_os.Cpu.Gdt.{kernel_code}

abbrev pub all_idt_entries : ℕ
all_idt_entries = 256

-- `Gate`.
abbrev pub call_gate : ℕ
call_gate = 12

abbrev pub interrupt_gate : ℕ
interrupt_gate = 14

abbrev pub trap_gate : ℕ
trap_gate = 15

-- `Interrupt`.
abbrev pub division_by_zero : ℕ
division_by_zero = 0

abbrev pub page_fault : ℕ
page_fault = 14

abbrev pub timer : ℕ
timer = 40

abbrev pub keyboard : ℕ
keyboard = 41

abbrev pub spurious : ℕ
spurious = 0xff

pub record Entry : Type 0 where
  pub offset1 : ℕ
  pub segment_selector : ℕ
  pub ist : ℕ
  pub ignore1 : ℕ
  pub gate_type : ℕ
  pub ignore2 : ℕ
  pub dpl : ℕ
  pub present : ℕ
  pub offset2 : ℕ
  pub offset3 : ℕ
  pub reserved1 : ℕ

pub record Idtr : Type 0 where
  pub limit : ℕ
  pub base_addr : ℕ

-- The size of an `Entry`.
abbrev pub entry_sz : ℕ
entry_sz = 16

abbrev pub Table : Type 0
Table = (index : ℕ) → Entry

-- An entry for a handler: the fields that are not named keep what was there.
unfoldable pub gate_for : (gate handler : ℕ) → Entry → Entry
gate_for gate handler entry = record entry {
  present = 1;
  gate_type = gate;
  segment_selector = kernel_code;
  offset1 = handler % 2 ^ 16;
  offset2 = handler / 2 ^ 16 % 2 ^ 16;
  offset3 = handler / 2 ^ 32 % 2 ^ 32;
}

unfoldable pub add_int : (gate index handler : ℕ) → Table → Table
unfolding gate_for
add_int gate index handler idt v = if v == index then gate_for gate handler (idt v) else idt v

-- The handlers of kernel/src/idt/interrupts.cpp by their addresses.
pub record Handlers : Type 0 where
  pub divide_by_zero_handler : ℕ
  pub page_fault_handler : ℕ
  pub timer_handler : ℕ
  pub keyboard_handler : ℕ
  pub spurious_handler : ℕ

-- The constructor, on a table that is not initialised.
unfoldable pub create : Handlers → Table → Table
unfolding add_int
create h idt = add_int interrupt_gate spurious h.spurious_handler (
    add_int interrupt_gate keyboard h.keyboard_handler (
      add_int interrupt_gate timer h.timer_handler (
        add_int interrupt_gate page_fault h.page_fault_handler
          (add_int trap_gate division_by_zero h.divide_by_zero_handler idt))))

-- The limit is a `u16`.
unfoldable pub load_idtr : (address : ℕ) → Idtr
load_idtr address = record { limit = entry_sz * all_idt_entries % 2 ^ 16; base_addr = address }

-- The address to which the processor jumps through an entry.
abbrev pub target : Entry → ℕ
target e = e.offset1 + 2 ^ 16 * e.offset2 + 2 ^ 32 * e.offset3

-- The kind of gate and the handler that a vector should have.
unfoldable pub handler_of : Handlers → (vector : ℕ) → Option (ℕ × ℕ)
handler_of h v =
    if v == division_by_zero
    then some (trap_gate, h.divide_by_zero_handler)
    else if v == page_fault
    then some (interrupt_gate, h.page_fault_handler)
    else if v == timer
    then some (interrupt_gate, h.timer_handler)
    else if v == keyboard
    then some (interrupt_gate, h.keyboard_handler)
    else if v == spurious
    then some (interrupt_gate, h.spurious_handler)
    else none

pub gate_for-target :
    (gate handler : ℕ) (e : Entry) → handler < 2 ^ 64 → target (gate_for gate handler e) ≡ handler
unfolding gate_for
gate_for-target gate handler e h = omega arith

-- Of a vector without a handler the entry is what was there.
pub create-none :
    (h : Handlers) (idt : Table) (v : ℕ) → handler_of h v ≡ none → create h idt v ≡ idt v
unfolding create handler_of
create-none h idt v e = ground arith

create-gate :
    (h : Handlers) (idt : Table) (v gate handler : ℕ)
    → handler_of h v ≡ some (gate, handler)
    → create h idt v ≡ gate_for gate handler (idt v)
unfolding create handler_of
create-gate h idt v gate handler e = ground arith

-- Through the table that the constructor builds, the processor comes from each of the five vectors
-- to its handler: the entry is present, of the right kind, in the code segment of the kernel, and
-- the three parts of its offset make up the address. The entry of every other vector is untouched.
pub create-gates :
    (h : Handlers) (idt : Table) (v : ℕ)
    → ((gate handler : ℕ)
        → handler_of h v ≡ some (gate, handler)
        → handler < 2 ^ 64
        → let e = create h idt v in
          (target e ≡ handler)
          × (e.present ≡ 1)
          × (e.gate_type ≡ gate)
          × (e.segment_selector ≡ kernel_code))
      × (handler_of h v ≡ none → create h idt v ≡ idt v)
create-gates h idt v = (
  λ gate handler e small. rw (create-gate h idt v gate handler e) (
    gate_for-target gate handler (idt v) small,
    unfold gate_for in refl,
    unfold gate_for in refl,
    unfold gate_for in refl,
  ),
  create-none h idt v,
)

unfoldable pub enable_external_interrupts : {S : Type 0} → Hardware S → Action S (Unit {0})
enable_external_interrupts hw = hw.sti
