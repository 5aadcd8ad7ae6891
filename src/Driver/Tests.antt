-- ===== src/Driver/Tests.antt =====
-- The theorems of the driver at one transfer.
use voodoo_i2c.Base.{ℕ, ◌+◌, ◌*◌, ◌≡◌, refl, arith, true, false, [], ◌∷◌, some, none}
use voodoo_i2c.Driver.Types.{on, success}
use voodoo_i2c.Driver.Samples.{
  quiet_chip, full_chip, abort_chip, port, port_IsMapped, driver, write_message,
}
use voodoo_i2c.Driver.Bus.{toggle_bus_state, wait_bus_not_busy_i2c}
use voodoo_i2c.Driver.Bus.Toggle.{Toggled, toggle_bus_state-Toggled}
use voodoo_i2c.Driver.Bus.Wait.{Waited, wait_bus_not_busy_i2c-Waited}
use voodoo_i2c.Driver.Transmit.{transfer_message_to_bus}
use voodoo_i2c.Driver.Transmit.Stream.{transfer_message_to_bus-stream}
use voodoo_i2c.Driver.Transmit.Begun.{stream}
use voodoo_i2c.Driver.Transmit.Bounds.{Within, transfer_message_to_bus-Within}
use voodoo_i2c.Driver.Receive.{read_from_bus}
use voodoo_i2c.Driver.Receive.Slots.{Moves}
use voodoo_i2c.Driver.Receive.Moves.{rx, read_from_bus-Moves}
use voodoo_i2c.Driver.Interrupt.{handle_interrupt}
use voodoo_i2c.Driver.Interrupt.Frame.{Quiet, handle_interrupt-Quiet}
use voodoo_i2c.Driver.Transfer.{Schedule, interrupt, transfer_i2c_gated, prepare_transfer_i2c}
use voodoo_i2c.Driver.Transfer.Result.{transfer_i2c_gated-once}
use voodoo_i2c.Driver.Abort.{handle_abort_i2c}
use voodoo_i2c.Driver.Abort.Laws.{source_bits, reported, handle_abort_i2c-reported}
use voodoo_i2c.Driver.Lifecycle.Stop.{stopped_in_turn}
use voodoo_i2c.Driver.Lifecycle.{no_lock, stop_all, stop, publish_nubs, Child, Service, System}
use mathlib.Core.List.{reverse, List}
use voodoo_i2c.Driver.Lifecycle.Stop.{started, stop-IsReleased}
use voodoo_i2c.Driver.Lifecycle.Start.{IsReleased}
use voodoo_i2c.Driver.Config.{Registry, Acpi, number, clk_rate, vi2c_scl_hcnt, vi2c_scl_lcnt}
use voodoo_i2c.Driver.Config.Rounding.{IsNearest, counts-IsNearest}

transfer_message_to_bus-stream_example :
    stream (transfer_message_to_bus full_chip driver) ≡ stream driver
transfer_message_to_bus-stream_example =
    transfer_message_to_bus-stream full_chip driver port_IsMapped

read_from_bus-Moves_example : Moves (rx driver) (rx (read_from_bus full_chip driver))
read_from_bus-Moves_example = read_from_bus-Moves full_chip driver port_IsMapped

transfer_message_to_bus-Within_example :
    Within quiet_chip 64
      (omega arith)
      (λ t. omega arith)
      (transfer_message_to_bus quiet_chip driver)
transfer_message_to_bus-Within_example =
    transfer_message_to_bus-Within quiet_chip 64 (omega arith) (λ t. omega arith) driver
      (record { fifo = refl; outstanding = omega arith })

toggle_bus_state-Toggled_example : Toggled on 1001 port (toggle_bus_state quiet_chip on port)
toggle_bus_state-Toggled_example = toggle_bus_state-Toggled quiet_chip on port port_IsMapped

wait_bus_not_busy_i2c-Waited_example : Waited 3001 port (wait_bus_not_busy_i2c quiet_chip port)
wait_bus_not_busy_i2c-Waited_example = wait_bus_not_busy_i2c-Waited quiet_chip port port_IsMapped

handle_interrupt-Quiet_example : Quiet driver (handle_interrupt abort_chip driver).1
handle_interrupt-Quiet_example = handle_interrupt-Quiet abort_chip driver

-- Two interrupts while the caller sleeps.
abbrev two_interrupts : ℕ → Schedule
two_interrupts tries = record {
  before_sleep = 0;
  during_sleep = interrupt ∷ interrupt ∷ [];
  after_sleep = 0;
}

transfer_i2c_gated-once_example :
    transfer_i2c_gated full_chip two_interrupts (write_message ∷ []) driver
    ≡ prepare_transfer_i2c full_chip (two_interrupts 5) (write_message ∷ []) driver
transfer_i2c_gated-once_example =
    transfer_i2c_gated-once full_chip two_interrupts (write_message ∷ []) driver

handle_abort_i2c-reported_example : handle_abort_i2c 0x1001 ≡ reported 0x1001 source_bits
handle_abort_i2c-reported_example = handle_abort_i2c-reported 0x1001

-- A clock of 133 MHz, and nothing else.
abbrev clock : Registry
clock key = elim key [ clk_rate ↦ some (number 133_000_000) | _ ↦ none ]

abbrev no_acpi : Acpi
no_acpi = record { sscn = none; fmcn = none }

abbrev service : Service
service = record {
  driver = record driver { line_enabled = false; is_interrupt_registered = false };
  i2c_bus_lock = no_lock;
  work_loop = false;
  command_gate = false;
  is_powered = false;
  properties = none;
  is_registered = false;
  device_nubs = some [];
}

abbrev system : System
system = record {
  is_started = true;
  has_lock = true;
  has_work_loop = true;
  has_gate = true;
  is_gate_added = true;
  registered = success;
  children = some (record { name = 7; is_attached = true; is_started = true } ∷ []);
}

counts-IsNearest_example :
    IsNearest (133_000 * (4000 + 300)) 1_000_000 (vi2c_scl_hcnt 133_000 4000 300 + 3)
    × IsNearest (133_000 * (4000 + 300)) 1_000_000 (vi2c_scl_lcnt 133_000 4000 300 + 1)
counts-IsNearest_example =
    counts-IsNearest 133_000 4000 300 (omega arith) (omega arith) (omega arith)

-- Two children with a nub, and one without.
abbrev children : List Child
children =
    record { name = 7; is_attached = true; is_started = true }
    ∷ record { name = 8; is_attached = true; is_started = false }
    ∷ record { name = 9; is_attached = true; is_started = true }
    ∷ []

stop-IsReleased_example :
    let published = (publish_nubs (some children) service).1 in
    ((stop quiet_chip published).0 ≡ stopped_in_turn (reverse (started children)))
    × ((stop_all published.device_nubs).1 ≡ [])
    × IsReleased (stop quiet_chip published).1
stop-IsReleased_example = stop-IsReleased quiet_chip children service refl
