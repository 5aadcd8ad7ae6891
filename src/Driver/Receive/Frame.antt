-- ===== src/Driver/Receive/Frame.antt =====
-- What `readFromBus` leaves alone.
use voodoo_i2c.Base.{refl, List, [], ◌∷◌, ltb, if_both}
use voodoo_i2c.Base.Bits.{test_bit}
use voodoo_i2c.Registers.{Chip}
use voodoo_i2c.Driver.Constants.{i2c_m_rd}
use voodoo_i2c.Driver.Types.{Message, Driver}
use voodoo_i2c.Driver.Same.{Untouched, Untouched-refl, Untouched-trans}
use voodoo_i2c.Driver.Receive.{next_read, drain_message, receive_messages, read_from_bus}

one-Untouched : (chip : Chip) (m : Message) (d : Driver) → Untouched d (drain_message chip m d).1
unfolding drain_message
one-Untouched chip m d = record {
  device = record {
    abort_source = refl;
    acpi_config = refl;
    awake = refl;
    bus_config = refl;
    command_error = refl;
    messages = refl;
    message_number = refl;
    receive_fifo_depth = refl;
    transaction_fifo_depth = refl;
    workaround = refl;
  };
  line_enabled = refl;
  registered = refl;
}

next-Untouched : (d : Driver) → Untouched d (next_read d)
next-Untouched d = record {
  device = record {
    abort_source = refl;
    acpi_config = refl;
    awake = refl;
    bus_config = refl;
    command_error = refl;
    messages = refl;
    message_number = refl;
    receive_fifo_depth = refl;
    transaction_fifo_depth = refl;
    workaround = refl;
  };
  line_enabled = refl;
  registered = refl;
}

receive_messages-Untouched :
    (chip : Chip) (ms : List Message) (d : Driver) → Untouched d (receive_messages chip ms d)
unfolding receive_messages
receive_messages-Untouched chip [] d = Untouched-refl d
receive_messages-Untouched chip (m ∷ ms) d =
    let one = drain_message chip m d in
    let first = one-Untouched chip m d in
    let rest = Untouched-trans first (
      Untouched-trans (next-Untouched one.1)
        (receive_messages-Untouched chip ms (next_read one.1))) in
    let skipped =
      Untouched-trans (next-Untouched d) (receive_messages-Untouched chip ms (next_read d)) in
    if_both {A = Driver} (Untouched d) (test_bit m.flags i2c_m_rd)
      (if_both {A = Driver} (Untouched d) (ltb 0 one.0) first rest) skipped

pub read_from_bus-Untouched : (chip : Chip) (d : Driver) → Untouched d (read_from_bus chip d)
unfolding read_from_bus
read_from_bus-Untouched chip d = receive_messages-Untouched chip _ d
