-- ===== src/Tests/Cpu.antt =====
-- The theorems on kernel/src/cpu and kernel/src/idt at concrete inputs.
use print_os.Base.{
  ℕ, suc, ◌+◌, ◌^◌, ◌<◌, ◌≡◌, ◌≢◌, ◌↔◌, refl, false, arith, ◌==◌, if◌then◌else◌, some, none,
}
use print_os.Hardware.{Hardware}
use print_os.Drivers.Keyboard.{key, read_key, press}
use print_os.Console.Cursor.{reset, gotoxy}
use print_os.Console.Terminal.Motion.{roomy}
use print_os.Console.Terminal.Bounds.{InRange}
use print_os.Cpu.Info.{
  Registers, success, no_fpu, no_msr, no_lapic, no_long_mode, error, get_info, check_state, feature,
  check_state_lem,
}
use print_os.Cpu.Signature.{Signature, Fits, encode, get_info-Signature}
use print_os.Cpu.Gdt.{kernel_code}
use print_os.Cpu.Idt.{Handlers, Table, create, handler_of, target, create-gates}
use print_os.Cpu.Interrupts.{Kernel, keyboard_handler}
use print_os.Cpu.Interrupts.Effects.{IsAcknowledged, keyboard_handler_lem}

-- A processor of family 15 + 8, model 15 + 3 and stepping 2, with all features.
abbrev signature : Signature
signature = record {
  stepping = 2;
  model = 15;
  family = 15;
  kind = 1;
  reserved1 = 0;
  extended_model = 3;
  extended_family = 8;
  reserved2 = 0;
}

abbrev cpuid : (leaf : ℕ) → Registers
cpuid leaf =
    if leaf == 1
    then record { eax = encode signature; ebx = 0x40000; ecx = 0; edx = 0xffffffff }
    else record { eax = 0; ebx = 0; ecx = 3; edx = 0xffffffff }

check_state_lem_example :
    let fpu = feature cpuid 1 0 in
    let msr = feature cpuid 1 5 in
    let lapic = feature cpuid 1 9 in
    let long_mode = feature cpuid 0x8000_0001 29 in
    ((check_state cpuid ≡ success) ↔ ((fpu ≡ 1) × (msr ≡ 1) × (lapic ≡ 1) × (long_mode ≡ 1)))
    × ((check_state cpuid ≡ no_fpu) ↔ (fpu ≡ 0))
    × ((check_state cpuid ≡ no_msr) ↔ ((fpu ≡ 1) × (msr ≡ 0)))
    × ((check_state cpuid ≡ no_lapic) ↔ ((fpu ≡ 1) × (msr ≡ 1) × (lapic ≡ 0)))
    × ((check_state cpuid ≡ no_long_mode) ↔ ((fpu ≡ 1) × (msr ≡ 1) × (lapic ≡ 1) × (long_mode ≡ 0)))
    × (check_state cpuid ≢ error)
check_state_lem_example = check_state_lem cpuid

signature-Fits : Fits signature
signature-Fits = omega arith

get_info-Signature_example :
    ((get_info cpuid).stepping_id ≡ 2)
    × ((get_info cpuid).type ≡ 1)
    × ((get_info cpuid).model_id ≡ 15 + 3)
    × ((get_info cpuid).family_id ≡ 15 + 8)
get_info-Signature_example = get_info-Signature cpuid signature signature-Fits refl

abbrev handlers : Handlers
handlers = record {
  divide_by_zero_handler = 0xffff_8000_1234_5678;
  page_fault_handler = 0x2000;
  timer_handler = 0x3000;
  keyboard_handler = 0x4000;
  spurious_handler = 0x5000;
}

abbrev table : Table
table = λ v. record {
  offset1 = 1;
  segment_selector = 2;
  ist = 0;
  ignore1 = 0;
  gate_type = 3;
  ignore2 = 0;
  dpl = 0;
  present = 0;
  offset2 = 4;
  offset3 = 5;
  reserved1 = 6;
}

create-gates_example :
    ((gate handler : ℕ)
      → handler_of handlers 0 ≡ some (gate, handler)
      → handler < 2 ^ 64
      → let e = create handlers table 0 in
        (target e ≡ handler)
        × (e.present ≡ 1)
        × (e.gate_type ≡ gate)
        × (e.segment_selector ≡ kernel_code))
    × (handler_of handlers 0 ≡ none → create handlers table 0 ≡ table 0)
create-gates_example = create-gates handlers table 0

-- A device that counts the writes to the register of the end of interrupt at 176, and has the scan
-- code of the key A.
abbrev counting : Hardware ℕ
counting = record {
  mmio_read32 = λ addr s. (0, s);
  mmio_write32 = λ addr val s. (tt, if addr == 0xb0 then suc s else s);
  mmio_read64 = λ addr s. (0, s);
  mmio_write64 = λ addr val s. (tt, s);
  read_msr = λ n s. (0, s);
  write_msr = λ n v s. (tt, s);
  inb = λ port s. (0x1e, s);
  outb = λ port val s. (tt, s);
  sti = λ s. (tt, s);
}

abbrev counting-IsAcknowledged : IsAcknowledged counting 0
counting-IsAcknowledged = record {
  acknowledged = λ s. s;
  write_eoi = λ v s. refl;
  read_port = λ s. refl;
}

abbrev kernel : Kernel
kernel = record {
  clock = record { secs = 0; ms = 0 };
  keyboard = record { shift = false; capslock = false };
  console = record {
    font = record { charsize = 16; glyph_height = 16; glyph_width = 8; glyph_buffer = 0x100000 };
    framebuffer = record {
      fb_addr = 0x8000000;
      double_fb_addr = 0x4000000;
      b_size = 1894400;
      width = 800;
      height = 592;
      px_per_scan = 800;
      b_per_px = 4;
    };
    cursor = record reset { row = 37; col = 99 };
    mem = λ q. 7;
  };
}

kernel-InRange : InRange kernel.console.cursor
kernel-InRange = record {
  col = omega arith;
  row = omega arith;
  cols = omega arith;
  col_word = omega arith;
  rows = omega arith;
  row_word = omega arith;
}

keyboard_handler_lem_example :
    let after = keyboard_handler counting 0 kernel 5 in
    InRange after.0.console.cursor
    × (after.1 ≡ 6)
    × ((read_key 0x1e kernel.keyboard).0 ≡ 0 → after.0.console ≡ kernel.console)
    × (after.0.keyboard ≡ (read_key 0x1e kernel.keyboard).1)
unfolding roomy gotoxy read_key press key
keyboard_handler_lem_example =
    keyboard_handler_lem counting 0 counting-IsAcknowledged kernel 5 kernel-InRange refl
