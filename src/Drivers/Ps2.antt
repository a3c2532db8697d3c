-- ===== src/Drivers/Ps2.antt =====
-- kernel/src/drivers/ps2.cpp and ps2.hpp: commands to the PS/2 controller by its ports.
use print_os.Base.{ℕ, Bool, ◌==◌}
use print_os.Hardware.{Action, Hardware, pure, ◌>>=◌, ◌>>◌}
use print_os.Kutils.Bits.{test_bit}

-- `Port`; the status is read at the port to which commands are written.
abbrev pub data_rw : ℕ
data_rw = 0x60

abbrev pub status_r : ℕ
status_r = 0x64

abbrev pub command_w : ℕ
command_w = 0x64

pub data Command : Type 0 where
  test_controller get_config cpy_low_to_stat cpy_high_to_stat : Command
  test_1_port disable_1_port enable_1_port : Command
  test_2_port disable_2_port enable_2_port : Command

abbrev pub code : Command → ℕ
code test_controller = 0xaa
code get_config = 0x20
code cpy_low_to_stat = 0xc1
code cpy_high_to_stat = 0xc2
code test_1_port = 0xab
code disable_1_port = 0xad
code enable_1_port = 0xae
code test_2_port = 0xa9
code disable_2_port = 0xa7
code enable_2_port = 0xa8

-- `CtrlTestResult::PASSED`.
abbrev pub passed : ℕ
passed = 0x55

module _ {S : Type 0} (hw : Hardware S) where
  -- `cpu::io_wait`.
  unfoldable pub io_wait : Action S (Unit {0})
  io_wait = hw.outb 0x80 0

  unfoldable pub read_data : Action S ℕ
  read_data = hw.inb data_rw

  unfoldable pub set_data : (val : ℕ) → Action S (Unit {0})
  set_data val = hw.outb data_rw val

  unfoldable pub send_cmd : Command → (val : ℕ) → Action S ℕ
  unfolding set_data io_wait read_data
  send_cmd cmd val = do set_data val; io_wait; hw.outb command_w (code cmd); io_wait; read_data

  unfoldable pub test : Action S Bool
  unfolding send_cmd
  test = do result ← send_cmd test_controller 0; pure (result == passed)

  unfoldable pub read_status : Action S ℕ
  read_status = hw.inb status_r

  unfoldable pub set_status : (val : ℕ) → Action S (Unit {0})
  unfolding send_cmd
  set_status val = do _ ← send_cmd cpy_low_to_stat val; _ ← send_cmd cpy_high_to_stat val; pure tt

  -- The result of the test of the first port: 0 is a pass.
  unfoldable pub port_1_test : Action S ℕ
  unfolding send_cmd
  port_1_test = send_cmd test_1_port 0

  unfoldable pub is_interrupt_enabled : Action S Bool
  unfolding send_cmd
  is_interrupt_enabled = do cfg ← send_cmd get_config 0; pure (test_bit cfg 0)

  unfoldable pub disable : Action S (Unit {0})
  unfolding send_cmd
  disable = do _ ← send_cmd disable_1_port 0; pure tt

  unfoldable pub enable : Action S (Unit {0})
  unfolding send_cmd
  enable = do _ ← send_cmd enable_1_port 0; pure tt
