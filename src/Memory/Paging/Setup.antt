-- ===== src/Memory/Paging/Setup.antt =====
-- The constructor of `Paging` and `set_cr3_register` of kernel/src/memory/paging.cpp, but for the
-- assembly: the routine that sets CR0 and CR4, and the move to CR3. What is moved is a value here.
use print_os.Base.{ℕ, Bool, Option, ◌>>=◌, ◌==◌, if◌then◌else◌}
use print_os.Mem.{Mem, read8, write8}
use print_os.Hardware.{Action, Hardware}
use print_os.Kutils.Bits.{set_bit}
use print_os.Memory.MMap.{MemoryMap}
use print_os.Memory.Paging.{Space, Regions, init, allocate_page, clear_table}

abbrev pub ia32_efer : ℕ
ia32_efer = 0xc000_0080

abbrev pub efer_lme : ℕ
efer_lme = 8

abbrev pub cr3_pwt : ℕ
cr3_pwt = 3

abbrev pub cr3_pcd : ℕ
cr3_pcd = 4

-- The value that is moved to CR3.
unfoldable pub set_cr3_register : (paddr : ℕ) (pwt pcd : Bool) → ℕ
set_cr3_register paddr pwt pcd =
    let cr3 = if pwt then set_bit paddr cr3_pwt else paddr in
    if pcd then set_bit cr3 cr3_pcd else cr3

-- The bit LME is set.
unfoldable pub set_efer : {S : Type 0} → Hardware S → Action S (Unit {0})
set_efer hw s =
    let msr = hw.read_msr ia32_efer s in hw.write_msr ia32_efer (set_bit msr.0 efer_lme) msr.1

abbrev pub test_addr : ℕ
test_addr = 0x999_9999_9999

-- The root is cleared, the memory is mapped, and so is the address of the test, to frame 0.
unfoldable pub create : (root : ℕ) → MemoryMap → Regions → Space → Option Space
create root mm r s = do
  s ← init root mm r (record s { tables = clear_table s.tables root })
  allocate_page root test_addr 0 s

-- The address that the processor makes of `test_addr` by that mapping: its offset in frame 0.
abbrev pub test_paddr : ℕ
test_paddr = 0x999

-- The byte of the test is written.
unfoldable pub write_test : Mem → Mem
write_test m = write8 m test_paddr 123

-- The byte is read back.
unfoldable pub test_passed : Mem → Bool
test_passed m = read8 m test_paddr == 123
