-- ===== src/Tests/Kernel/Machine.antt =====
-- A small machine: its tables in memory, and devices that keep what the drivers rely on.
use print_os.Base.{
  ℕ, ◌+◌, ◌*◌, ◌/◌, ◌%◌, ◌^◌, ◌≡◌, ◌≢◌, ap, refl, Bool, true, false, ◌||◌, arith, ◌==◌,
  if◌then◌else◌,
}
use print_os.Mem.{Mem}
use print_os.Hardware.{Hardware}
use print_os.Acpi.Ioapic.Entry.{RedirEntry, IsEntry}
use print_os.Acpi.Lapic.{IsLapic}
use print_os.Acpi.Ioapic.{ioredtbl}
use print_os.Kernel.Controllers.{HasFlag, AreApart}
use print_os.Acpi.Ioapic.RoundTrip.{IsIoapic}

-- An RSDP at 0; an RSDT at 100 that lists a table at 160 with the signature "HPET", and one at 200
-- with "APIC", in which a local APIC at 244 and an I/O APIC at 252, whose address is 4096, follow each other. The two texts
-- are also at 310 and 300.
abbrev pub memory : Mem
memory = λ q.
    if q == 16
    then 100
    else if q == 104
    then 44
    else if q == 136
    then 160
    else if q == 140
    then 200
    else if q == 160 || q == 310
    then 72
    else if q == 161 || q == 311
    then 80
    else if q == 162 || q == 312
    then 69
    else if q == 163 || q == 313
    then 84
    else if q == 200 || q == 300
    then 65
    else if q == 201 || q == 301
    then 80
    else if q == 202 || q == 302
    then 73
    else if q == 203 || q == 303
    then 67
    else if q == 245
    then 8
    else if q == 252
    then 1
    else if q == 253
    then 12
    else if q == 257
    then 16
    else 0

-- `selected` and `table` are the I/O APIC's.
pub record Store : Type 0 where
  pub regs : ℕ → ℕ
  pub msr : ℕ
  pub selected : ℕ
  pub table : ℕ → ℕ
  pub interrupts : Bool

abbrev pub put : (addr val : ℕ) → Store → Store
put addr val s =
    if addr == 4096
    then record s { selected = val }
    else if addr == 4112
    then record s { table = λ q. if q == s.selected then val else s.table q }
    else record s { regs = λ q. if q == addr then val else s.regs q }

-- An I/O APIC at 4096, and devices that are plain registers.
abbrev pub machine : Hardware Store
machine = record {
  mmio_read32 = λ addr s. (if addr == 4112 then s.table s.selected else s.regs addr, s);
  mmio_write32 = λ addr val s. (tt, put addr val s);
  mmio_read64 = λ addr s. (s.regs addr, s);
  mmio_write64 = λ addr val s. (tt, put addr val s);
  read_msr = λ n s. (s.msr, s);
  write_msr = λ n v s. (tt, record s { msr = v });
  inb = λ port s. (0, s);
  outb = λ port val s. (tt, s);
  sti = λ s. (tt, record s { interrupts = true });
}

abbrev pub rest : Store
rest = record { regs = λ q. 5; msr = 0xfee00100; selected = 0; table = λ q. 0; interrupts = false }

abbrev pub redir_entry : RedirEntry
redir_entry = record {
  intvec = 0;
  delmod = 0;
  destmod = 0;
  delivs = 0;
  intpol = 0;
  remote_irr = 0;
  trigmod = 0;
  int_mask = 0;
  reserved = 0;
  destination = 0;
}

abbrev pub machine-IsLapic : IsLapic machine 0
machine-IsLapic = record {
  priority = λ s. s.regs 0x80;
  spurious = λ s. s.regs 0xf0;
  msr = λ s. s.msr;
  write_tpr = λ v s. refl;
  tpr_msr = λ v s. refl;
  write_spurious = λ v s h. refl;
  spurious_priority = λ v s. refl;
  spurious_msr = λ v s. refl;
  read_spurious = λ s. refl;
  write_base = λ v s. refl;
  base_spurious = λ v s. refl;
  base_priority = λ v s. refl;
  read_base = λ s. refl;
}

pub stored_here : (s q v : ℕ) (f : ℕ → ℕ) → s ≡ q → (if q == s then v else f q) ≡ v
stored_here s q v f e = ground arith

pub stored_elsewhere : (s q v : ℕ) (f : ℕ → ℕ) → q ≢ s → (if q == s then v else f q) ≡ f q
stored_elsewhere s q v f ne = ground arith

pub put-interrupts : (addr v : ℕ) (s : Store) → (put addr v s).interrupts ≡ s.interrupts
put-interrupts addr v s = ground arith

abbrev pub machine-IsIoapic : IsIoapic machine 4096
machine-IsIoapic = record {
  selected = λ s. s.selected;
  reg = λ s q. s.table q;
  select = λ v s h. refl;
  select_keeps = λ v s q. refl;
  write_lower = λ v s id h e.
      let here = stored_here s.selected (ioredtbl + id * 2) v s.table e in
      record {
        same_low = ap (λ x. x % 2 ^ 12) here;
        same_bit_13 = ap (λ x. x / 2 ^ 13 % 2) here;
        same_high = ap (λ x. x / 2 ^ 15 % 4) here;
      };
  write_upper = λ v s id h e.
      ap (λ x. x / 2 ^ 24) (stored_here s.selected (ioredtbl + id * 2 + 1) v s.table e);
  write_other = λ v s q ne. stored_elsewhere s.selected q v s.table ne;
  read = λ s. refl;
  read_keeps = λ s q. refl;
}

abbrev pub machine-HasFlag : HasFlag machine
machine-HasFlag = record {
  flag = λ s. s.interrupts;
  sti_sets = λ s. refl;
  mmio_keeps = put-interrupts;
  msr_keeps = λ n v s. refl;
}

pub machine-AreApart : AreApart machine 0 4096 machine-IsIoapic
machine-AreApart = record {
  tpr_apart = λ v q s. refl;
  spurious_apart = λ v q s. refl;
  msr_apart = λ v q s. refl;
}

pub redir_entry-IsEntry : IsEntry redir_entry
redir_entry-IsEntry = record {
  intvec_fits = omega arith;
  delmod_fits = omega arith;
  destmod_fits = omega arith;
  delivs_fits = omega arith;
  intpol_fits = omega arith;
  remote_irr_fits = omega arith;
  trigmod_fits = omega arith;
  int_mask_fits = omega arith;
  reserved_fits = omega arith;
  destination_fits = omega arith;
}
