-- ===== src/Driver/Interrupt/Frame.antt =====
-- What an interrupt leaves alone.
use voodoo_i2c.Base.{ℕ, ◌≡◌, refl, ◌∙◌, Bool, false, if◌then◌else◌, if_both, arith}
use voodoo_i2c.Base.Bits.{test_bit}
use voodoo_i2c.Registers.{Chip, Port}
use voodoo_i2c.Driver.Constants.{rx_full, tx_empty, tx_abrt}
use voodoo_i2c.Driver.Types.{Driver}
use voodoo_i2c.Driver.Same.{Untouched, Handled, Handled-refl, Handled-trans, Same-Handled}
use voodoo_i2c.Driver.Transmit.Frame.{transfer_message_to_bus-Untouched}
use voodoo_i2c.Driver.Receive.{read_from_bus}
use voodoo_i2c.Driver.Receive.Frame.{read_from_bus-Untouched}
use voodoo_i2c.Driver.Interrupt.{
  read_clear_interrupt_bits, abort_transfer, serve, wakeup, dispatch, is_spurious, is_complete,
  handle_awake, handle_interrupt,
}

-- Of the driver: the device as above, and whether an interrupt is registered.
pub record Quiet (d e : Driver) : Type 0 where
  pub device : Handled d.bus_device e.bus_device
  pub registered : e.is_interrupt_registered ≡ d.is_interrupt_registered

pub Quiet-refl : (d : Driver) → Quiet d d
Quiet-refl d = record { device = Handled-refl d.bus_device; registered = refl }

pub Quiet-trans : {c d e : Driver} → Quiet c d → Quiet d e → Quiet c e
Quiet-trans p q = record {
  device = Handled-trans p.device q.device;
  registered = q.registered ∙ p.registered;
}

Untouched-Quiet : {d e : Driver} → Untouched d e → Quiet d e
Untouched-Quiet u = record { device = Same-Handled u.device; registered = u.registered }

clear-Quiet : (chip : Chip) (d : Driver) → Quiet d (read_clear_interrupt_bits chip d).1
unfolding read_clear_interrupt_bits
clear-Quiet chip d = record {
  device = record {
    steady = record {
      acpi_config = refl;
      awake = refl;
      bus_config = refl;
      messages = refl;
      message_number = refl;
      receive_fifo_depth = refl;
      transaction_fifo_depth = refl;
      workaround = refl;
    };
    error_bit = λ e. e;
  };
  registered = refl;
}

abort-Quiet : (d : Driver) → Quiet d (abort_transfer d)
unfolding abort_transfer
abort-Quiet d = record {
  device = record {
    steady = record {
      acpi_config = refl;
      awake = refl;
      bus_config = refl;
      messages = refl;
      message_number = refl;
      receive_fifo_depth = refl;
      transaction_fifo_depth = refl;
      workaround = refl;
    };
    error_bit = λ e. ground arith;
  };
  registered = refl;
}

serve-Quiet : (chip : Chip) (status : ℕ) (d : Driver) → Quiet d (serve chip status d)
unfolding serve
serve-Quiet chip status d =
    let received = if test_bit status rx_full then read_from_bus chip d else d in
    let first =
      if_both {A = Driver} (Quiet d) (test_bit status rx_full)
        (Untouched-Quiet (read_from_bus-Untouched chip d)) (Quiet-refl d) in
    if_both {A = Driver} (Quiet d) (test_bit status tx_empty)
      (Quiet-trans first (Untouched-Quiet (transfer_message_to_bus-Untouched chip received))) first

wakeup-Quiet : (chip : Chip) (status : ℕ) (d : Driver) → Quiet d (wakeup chip status d).1
unfolding wakeup
wakeup-Quiet chip status d =
    if_both {A = Bool × Driver} (λ r. Quiet d r.1) (is_complete status d.bus_device) (Quiet-refl d)
      (if_both {A = Bool × Driver} (λ r. Quiet d r.1) d.bus_device.access_intr_mask_workaround
        (record { device = Handled-refl d.bus_device; registered = refl }) (Quiet-refl d))

dispatch-Quiet : (chip : Chip) (d : Driver) → Quiet d (dispatch chip d).1
unfolding dispatch
dispatch-Quiet chip d =
    let read = read_clear_interrupt_bits chip d in
    let first = clear-Quiet chip d in
    if_both {A = Bool × Driver} (λ r. Quiet d r.1) (test_bit read.0 tx_abrt)
      (Quiet-trans first
        (Quiet-trans (abort-Quiet read.1) (wakeup-Quiet chip read.0 (abort_transfer read.1))))
      (Quiet-trans first (
        Quiet-trans (serve-Quiet chip read.0 read.1)
          (wakeup-Quiet chip read.0 (serve chip read.0 read.1))))

port_only : (d : Driver) (p : Port) → Quiet d (record d { port = p })
port_only d p = record { device = Handled-refl d.bus_device; registered = refl }

handle_awake-Quiet : (chip : Chip) (d : Driver) → Quiet d (handle_awake chip d).1
unfolding handle_awake
handle_awake-Quiet chip d =
    if_both {A = Bool × Driver} (λ r. Quiet d r.1) (is_spurious _ _) (port_only d _)
      (Quiet-trans (port_only d _) (dispatch-Quiet chip _))

-- An interrupt never changes the power state, the configuration, the messages of the transfer or
-- the depths of the FIFOs, and leaves at most the abort bit in `command_error`.
pub handle_interrupt-Quiet : (chip : Chip) (d : Driver) → Quiet d (handle_interrupt chip d).1
unfolding handle_interrupt
handle_interrupt-Quiet chip d =
    let masked = record d { line_enabled = false } in
    let first : Quiet d masked = record { device = Handled-refl d.bus_device; registered = refl } in
    let handled = if d.bus_device.awake then handle_awake chip masked else (false, masked) in
    let kept =
      if_both {A = Bool × Driver} (λ r. Quiet d r.1) d.bus_device.awake
        (Quiet-trans first (handle_awake-Quiet chip masked)) first in
    record { device = kept.device; registered = kept.registered }
