-- ===== src/Tests/Acpi.antt =====
-- The theorems on kernel/src/acpi at concrete inputs: devices that are plain stores of registers.
use print_os.Base.{ℕ, ◌+◌, ◌*◌, ◌/◌, ◌%◌, ◌^◌, ◌≤◌, ◌<◌, ◌≡◌, ◌≢◌, refl, arith, ◌==◌, if◌then◌else◌}
use print_os.Hardware.{Hardware}
use print_os.Acpi.Ioapic.{set_redir_entry, get_redir_entry}
use print_os.Acpi.Ioapic.Entry.{RedirEntry, IsEntry, SameSettings}
use print_os.Acpi.Ioapic.RoundTrip.{IsIoapic, get-set_redir_entry}
use print_os.Acpi.Hpet.Comparator.{calc_ms_to_compar, set_periodic}
use print_os.Acpi.Hpet.Timing.{IsHpet, set_periodic_lem, calc_ms_to_compar_bound}

-- Every device of the tests: a selected register, and registers by their addresses.
record Store : Type 0 where
  selected : ℕ
  regs : ℕ → ℕ
  msr : ℕ

abbrev put : (addr val : ℕ) → Store → Store
put addr val s = record s { regs = λ q. if q == addr then val else s.regs q }

-- The I/O APIC is at 0, with its registers at 1000 and above; other places are plain registers.
abbrev machine : Hardware Store
machine = record {
  mmio_read32 = λ addr s. (if addr == 0x10 then s.regs (1000 + s.selected) else s.regs addr, s);
  mmio_write32 = λ addr val s. (
    tt,
    if addr == 0
        then record s { selected = val }
        else if addr == 0x10
        then put (1000 + s.selected) val s
        else put addr val s,
  );
  mmio_read64 = λ addr s. (s.regs addr, s);
  mmio_write64 = λ addr val s. (tt, put addr val s);
  read_msr = λ n s. (s.msr, s);
  write_msr = λ n v s. (tt, record s { msr = v });
  inb = λ port s. (0, s);
  outb = λ port val s. (tt, s);
  sti = λ s. (tt, s);
}

abbrev rest : Store
rest = record { selected = 7; regs = λ q. 5; msr = 0xfee00900 }

machine-IsIoapic : IsIoapic machine 0
machine-IsIoapic = record {
  selected = λ s. s.selected;
  reg = λ s q. s.regs (1000 + q);
  select = λ v s h. refl;
  select_keeps = λ v s q. refl;
  write_lower = λ v s id h e. record {
    same_low = ground arith;
    same_bit_13 = ground arith;
    same_high = ground arith;
  };
  write_upper = λ v s id h e. ground arith;
  write_other = λ v s q ne. ground arith;
  read = λ s. refl;
  read_keeps = λ s q. refl;
}

abbrev entry : RedirEntry
entry = record {
  intvec = 40;
  delmod = 0;
  destmod = 0;
  delivs = 0;
  intpol = 1;
  remote_irr = 0;
  trigmod = 1;
  int_mask = 0;
  reserved = 12345678901;
  destination = 3;
}

entry-IsEntry : IsEntry entry
entry-IsEntry = omega arith

get-set_redir_entry_example :
    SameSettings (get_redir_entry machine 0 2 (set_redir_entry machine 0 2 entry rest).1).0 entry
    × ((j : ℕ)
        → j < 120
        → j ≢ 2
        → (get_redir_entry machine 0 j (set_redir_entry machine 0 2 entry rest).1).0
          ≡ (get_redir_entry machine 0 j rest).0)
get-set_redir_entry_example =
    get-set_redir_entry machine 0 machine-IsIoapic 2 entry rest (omega arith) entry-IsEntry

-- The event timer at 8192, with its first comparator.
abbrev machine-IsHpet : IsHpet machine 8192 0
machine-IsHpet = record {
  general = λ s. s.regs 0x2010;
  counter = λ s. s.regs 0x20f0;
  mode = λ s. s.regs 0x2100;
  value = λ s. s.regs 0x2108;
  read_config = λ s. refl;
  read_counter = λ s. refl;
  write_config = λ v s. (refl, refl, refl, refl);
  write_counter = λ v s. (refl, refl, refl, refl);
  write_mode = λ v s. (refl, refl, refl, refl);
  write_value = λ v s. (refl, refl, refl, refl);
}

set_periodic_lem_example :
    let s' = (set_periodic machine 8192 0 10 100 rest).1 in
    (s'.regs 0x2100 ≡ 2 ^ 2 + 2 ^ 3 + 2 ^ 6)
    × (s'.regs 0x2108 ≡ calc_ms_to_compar 10 0 100)
    × (s'.regs 0x20f0 ≡ 0)
    × (s'.regs 0x2010 % 2 ≡ 1)
    × (s'.regs 0x2010 / 2 ≡ rest.regs 0x2010 / 2)
set_periodic_lem_example = set_periodic_lem machine 8192 0 machine-IsHpet 10 100 rest

calc_ms_to_compar_bound_example :
    let ticks = calc_ms_to_compar (69841279 / 1000000) 0 100 in
    (100 * 1000000 * 1000000 < (ticks + 1) * 69841279)
    × (ticks * 69841279 ≤ 100 * 1000000 * 1000000 + ticks * (69841279 % 1000000))
calc_ms_to_compar_bound_example = calc_ms_to_compar_bound 69841279 100 (omega arith) (omega arith)
