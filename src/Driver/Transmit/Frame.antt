-- ===== src/Driver/Transmit/Frame.antt =====
-- What `transferMessageToBus` leaves alone.
use voodoo_i2c.Base.{ℕ, refl, Bool, not, ◌||◌, List, [], ◌∷◌, ◌==◌, ltb, if_both, drop, false}
use voodoo_i2c.Registers.{Chip}
use voodoo_i2c.Driver.Types.{Message, Driver}
use voodoo_i2c.Driver.Same.{Untouched, Untouched-refl, Untouched-trans}
use voodoo_i2c.Driver.Transmit.{
  begin_message, fill_message, send_messages, send_from, next_write, fail_message,
  transfer_message_to_bus,
}

one-Untouched :
    (chip : Chip) (m : Message) (r : Bool) (d : Driver)
    → Untouched d (fill_message chip m (begin_message m r d).1 (begin_message m r d).0).0
unfolding begin_message fill_message
one-Untouched chip m r d = record {
  device = record {
    abort_source = refl;
    acpi_config = refl;
    awake = refl;
    bus_config = refl;
    command_error = refl;
    messages = refl;
    message_number = refl;
    receive_fifo_depth = refl;
    transaction_fifo_depth = refl;
    workaround = refl;
  };
  line_enabled = refl;
  registered = refl;
}

next-Untouched : (d : Driver) → Untouched d (next_write d)
next-Untouched d = record {
  device = record {
    abort_source = refl;
    acpi_config = refl;
    awake = refl;
    bus_config = refl;
    command_error = refl;
    messages = refl;
    message_number = refl;
    receive_fifo_depth = refl;
    transaction_fifo_depth = refl;
    workaround = refl;
  };
  line_enabled = refl;
  registered = refl;
}

fail-Untouched : (d : Driver) → Untouched d (fail_message d)
fail-Untouched d = record {
  device = record {
    abort_source = refl;
    acpi_config = refl;
    awake = refl;
    bus_config = refl;
    command_error = refl;
    messages = refl;
    message_number = refl;
    receive_fifo_depth = refl;
    transaction_fifo_depth = refl;
    workaround = refl;
  };
  line_enabled = refl;
  registered = refl;
}

send_messages-Untouched :
    (chip : Chip) (address : ℕ) (ms : List Message) (r : Bool) (d : Driver)
    → Untouched d (send_messages chip address ms r d)
unfolding send_messages
send_messages-Untouched chip address [] r d = Untouched-refl d
send_messages-Untouched chip address (m ∷ ms) r d =
    let begun = begin_message m r d in
    let one = fill_message chip m begun.1 begun.0 in
    let first = one-Untouched chip m r d in
    let rest = Untouched-trans first (
      Untouched-trans (next-Untouched one.0)
        (send_messages-Untouched chip address ms one.1 (next_write one.0))) in
    if_both {A = Driver} (Untouched d) (not (m.address == address) || (m.length == 0))
      (fail-Untouched d)
      (if_both {A = Driver} (Untouched d) (ltb 0 one.0.bus_device.transaction_buffer_length) first
        rest)

send_from-Untouched :
    (chip : Chip) (ms : List Message) (d : Driver) → Untouched d (send_from chip ms d)
unfolding send_from
send_from-Untouched chip [] d = Untouched-refl d
send_from-Untouched chip (m ∷ ms) d = send_messages-Untouched chip m.address (m ∷ ms) false d

pub transfer_message_to_bus-Untouched :
    (chip : Chip) (d : Driver) → Untouched d (transfer_message_to_bus chip d)
unfolding transfer_message_to_bus
transfer_message_to_bus-Untouched chip d =
    let sent = send_from chip (drop d.bus_device.message_write_index d.bus_device.messages) d in
    let kept =
      send_from-Untouched chip (drop d.bus_device.message_write_index d.bus_device.messages) d in
    record { device = kept.device; line_enabled = kept.line_enabled; registered = kept.registered }
