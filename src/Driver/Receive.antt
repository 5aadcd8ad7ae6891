-- ===== src/Driver/Receive.antt =====
-- `readFromBus`: the bytes of the receive FIFO, into the buffers of the messages that read.
pub mod Slots
pub mod Frame
pub mod Drained
pub mod Moves
pub mod Beside
pub mod Ranges
use voodoo_i2c.Base.{ℕ, zero, suc, ◌+◌, Bool, List, [], ◌∷◌, ltb, if◌then◌else◌, drop}
use voodoo_i2c.Base.Bits.{test_bit, set_bit, clear_bit}
use voodoo_i2c.Base.Int.{ℤ, pos, ◌-ℤ◌, pos_part}
use voodoo_i2c.Base.Words.{to_int}
use voodoo_i2c.Registers.{Chip, Port, read_register}
use voodoo_i2c.Driver.Constants.{dw_ic_data_cmd, dw_ic_rxflr, read_in_progress, i2c_m_rd}
use voodoo_i2c.Driver.Types.{Message, BusDevice, Driver, Memory, store_byte}

-- The variables of the loop that empties the FIFO.
pub record Drain : Type 0 where
  pub buffer : ℕ
  pub receive_outstanding : ℤ
  pub memory : Memory
  pub port : Port

-- `*buffer++ = readRegister(DW_IC_DATA_CMD); receive_outstanding--`
abbrev pub read_byte : Chip → Drain → Drain
read_byte chip s =
    let (value, port) = read_register chip dw_ic_data_cmd s.port in
    record {
      buffer = s.buffer + 1;
      receive_outstanding = s.receive_outstanding -ℤ pos 1;
      memory = store_byte s.memory s.buffer value;
      port = port;
    }

-- `for (; length > 0 && receive_valid > 0; length--, receive_valid--)`. A negative `receive_valid`
-- is as good as 0. The result is the length that is left.
unfoldable pub drain : Chip → ℕ → ℕ → Drain → ℕ × Drain
drain chip zero receive_valid s = (0, s)
drain chip (suc length) zero s = (suc length, s)
drain chip (suc length) (suc receive_valid) s = drain chip length receive_valid (read_byte chip s)

abbrev pub next_read : Driver → Driver
next_read d = record d {
  bus_device = record d.bus_device { message_read_index = d.bus_device.message_read_index + 1 };
}

-- The buffer and the length to go on with.
abbrev pub length_at : Message → BusDevice → ℕ
length_at m b = if test_bit b.status read_in_progress then b.receive_buffer_length else m.length

abbrev pub buffer_at : Message → BusDevice → ℕ
buffer_at m b = if test_bit b.status read_in_progress then b.receive_buffer else m.buffer

-- The level of the FIFO, and the loop that empties it.
unfoldable pub drain_loop : Chip → Message → Driver → ℕ × Drain
drain_loop chip m d =
    let (receive_valid, port) = read_register chip dw_ic_rxflr d.port in
    drain chip (length_at m d.bus_device) (pos_part (to_int receive_valid)) (record {
      buffer = buffer_at m d.bus_device;
      receive_outstanding = d.bus_device.receive_outstanding;
      memory = d.memory;
      port = port;
    })

-- The fields that are written behind the loop.
abbrev pub store_drain : Driver → ℕ × Drain → Driver
store_drain d (left, s) = record d {
  bus_device = record d.bus_device {
    receive_outstanding = s.receive_outstanding;
    status =
        if ltb 0 left
        then set_bit d.bus_device.status read_in_progress
        else clear_bit d.bus_device.status read_in_progress;
    receive_buffer_length = if ltb 0 left then left else d.bus_device.receive_buffer_length;
    receive_buffer = if ltb 0 left then s.buffer else d.bus_device.receive_buffer;
  };
  memory = s.memory;
  port = s.port;
}

-- One message that reads: the result is the length that is left.
unfoldable pub drain_message : Chip → Message → Driver → ℕ × Driver
drain_message chip m d = let drained = drain_loop chip m d in (drained.0, store_drain d drained)

-- The loop over the messages from `message_read_index` on.
unfoldable pub receive_messages : Chip → List Message → Driver → Driver
receive_messages chip [] d = d
receive_messages chip (m ∷ ms) d =
    let drained = drain_message chip m d in
    let skipped = receive_messages chip ms (next_read d) in
    let rest = receive_messages chip ms (next_read drained.1) in
    if test_bit m.flags i2c_m_rd then (if ltb 0 drained.0 then drained.1 else rest) else skipped

unfoldable pub read_from_bus : Chip → Driver → Driver
read_from_bus chip d =
    receive_messages chip (drop d.bus_device.message_read_index d.bus_device.messages) d
