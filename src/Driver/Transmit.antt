-- ===== src/Driver/Transmit.antt =====
-- `transferMessageToBus`: the commands of the messages, as far as the two FIFOs have room.
-- Between two rounds of the loop over the messages the locals `buffer` and `buffer_length` hold
-- what the fields `transaction_buffer` and `transaction_buffer_length` hold, so the model keeps
-- the fields alone. Indices and lengths are below 2 ^ 31, and counters are integers.
mod Tests
pub mod Words
pub mod Frame
pub mod Sent
pub mod Begun
pub mod Stream
pub mod Bounds
pub mod Restart
pub mod Progress
pub mod Beside
pub mod Sources
pub mod Shrinks
pub mod Refill
pub mod Complete
use Prim.Native.Nat.{bit_or}
use voodoo_i2c.Base.{
  ℕ, zero, suc, ◌+◌, ◌%◌, Bool, true, false, not, ◌&&◌, ◌||◌, List, [], ◌∷◌, ◌==◌, ltb,
  if◌then◌else◌, drop,
}
use voodoo_i2c.Base.Bits.{test_bit, set_bit, clear_bit}
use voodoo_i2c.Base.Int.{ℤ, pos, negsuc, ◌+ℤ◌, ◌-ℤ◌, ltb_ℤ}
use voodoo_i2c.Base.Words.{sub32, to_int}
use voodoo_i2c.Registers.{Chip, Port, read_register, write_register}
use voodoo_i2c.Driver.Constants.{
  dw_ic_data_cmd, dw_ic_txflr, dw_ic_rxflr, dw_ic_intr_mask, dw_ic_intr_default_mask, tx_empty,
  write_in_progress, i2c_m_rd, con_restart_en,
}
use voodoo_i2c.Driver.Types.{Message, BusDevice, Driver, Memory}

-- The variables of the loop over one message's bytes.
pub record Fill : Type 0 where
  pub buffer : ℕ
  pub transaction_limit : ℤ
  pub receive_limit : ℤ
  pub receive_outstanding : ℤ
  pub need_restart : Bool
  pub port : Port

-- `command`: the stop bit at the last byte of the last message, and the restart bit.
abbrev pub command_bits : Bool → ℕ → Bool → ℕ
command_bits last buffer_length need_restart =
    let command : ℕ = if last && (buffer_length == 1) then 0x200 else 0 in
    if need_restart then set_bit command 10 else command

abbrev pub request_byte : ℕ → Fill → Fill
request_byte command s = record s {
  transaction_limit = s.transaction_limit -ℤ pos 1;
  receive_limit = s.receive_limit -ℤ pos 1;
  receive_outstanding = s.receive_outstanding +ℤ pos 1;
  need_restart = false;
  port = (write_register (set_bit command 8) dw_ic_data_cmd s.port).1;
}

abbrev pub send_byte : Memory → ℕ → Fill → Fill
send_byte memory command s = record s {
  buffer = s.buffer + 1;
  transaction_limit = s.transaction_limit -ℤ pos 1;
  need_restart = false;
  port = (write_register (bit_or command (memory s.buffer % 256)) dw_ic_data_cmd s.port).1;
}

-- `transaction_limit > 0 && receive_limit > 0`
unfoldable pub has_room : Fill → Bool
has_room s = ltb_ℤ (pos 0) s.transaction_limit && ltb_ℤ (pos 0) s.receive_limit

-- `!(receive_limit - receive_outstanding <= 0)`
unfoldable pub may_request : Fill → Bool
may_request s = ltb_ℤ (pos 0) (s.receive_limit -ℤ s.receive_outstanding)

-- The loop over the bytes that are left; the result is how many are left behind it.
unfoldable pub fill_fifo : Memory → Bool → Bool → ℕ → Fill → ℕ × Fill
fill_fifo memory last reading zero s = (0, s)
fill_fifo memory last reading (suc n) s =
    let command = command_bits last (suc n) s.need_restart in
    let requested = fill_fifo memory last reading n (request_byte command s) in
    let sent = fill_fifo memory last reading n (send_byte memory command s) in
    if has_room s
    then (if reading
        then (if may_request s then requested else (suc n, record s { need_restart = false }))
        else sent)
    else (suc n, s)

-- A message that is not under way is begun, and may want a restart bit.
unfoldable pub begin_message : Message → Bool → Driver → Driver × Bool
begin_message m need_restart d =
    let b = d.bus_device in
    let going = test_bit b.status write_in_progress in
    let wanted = test_bit b.bus_config con_restart_en && ltb 0 b.message_write_index in
    (
      record d {
        bus_device = record b {
          transaction_buffer = if going then b.transaction_buffer else m.buffer;
          transaction_buffer_length = if going then b.transaction_buffer_length else m.length;
        };
      },
      if going then need_restart else wanted || need_restart,
    )

-- The two limits, from the levels of the FIFOs.
unfoldable pub fill_start : Chip → Bool → Driver → Fill
fill_start chip need_restart d =
    let b = d.bus_device in
    let (tx_level, port₁) = read_register chip dw_ic_txflr d.port in
    let (rx_level, port₂) = read_register chip dw_ic_rxflr port₁ in
    record {
      buffer = b.transaction_buffer;
      transaction_limit = to_int (sub32 b.transaction_fifo_depth tx_level);
      receive_limit = to_int (sub32 b.receive_fifo_depth rx_level);
      receive_outstanding = b.receive_outstanding;
      need_restart = need_restart;
      port = port₂;
    }

-- The loop over the bytes of the message under way.
unfoldable pub fill_loop : Chip → Message → Bool → Driver → ℕ × Fill
fill_loop chip m need_restart d =
    fill_fifo d.memory (d.bus_device.message_write_index + 1 == d.bus_device.message_number)
      (test_bit m.flags i2c_m_rd) d.bus_device.transaction_buffer_length
      (fill_start chip need_restart d)

-- The fields that are written behind the loop.
abbrev pub store_fill : Driver → ℕ × Fill → Driver
store_fill d (buffer_length, s) = record d {
  bus_device = record d.bus_device {
    receive_outstanding = s.receive_outstanding;
    transaction_buffer = s.buffer;
    transaction_buffer_length = buffer_length;
    status =
        if ltb 0 buffer_length
        then set_bit d.bus_device.status write_in_progress
        else clear_bit d.bus_device.status write_in_progress;
  };
  port = s.port;
}

unfoldable pub fill_message : Chip → Message → Bool → Driver → Driver × Bool
fill_message chip m need_restart d =
    let filled = fill_loop chip m need_restart d in (store_fill d filled, filled.1.need_restart)

abbrev pub fail_message : Driver → Driver
fail_message d = record d { bus_device = record d.bus_device { message_error = negsuc 0 } }

abbrev pub next_write : Driver → Driver
next_write d = record d {
  bus_device = record d.bus_device { message_write_index = d.bus_device.message_write_index + 1 };
}

-- The loop over the messages from `message_write_index` on; `address` is that of the first.
unfoldable pub send_messages : Chip → ℕ → List Message → Bool → Driver → Driver
send_messages chip address [] need_restart d = d
send_messages chip address (m ∷ ms) need_restart d =
    let begun = begin_message m need_restart d in
    let filled = fill_message chip m begun.1 begun.0 in
    let rest = send_messages chip address ms filled.1 (next_write filled.0) in
    if not (m.address == address) || (m.length == 0)
    then fail_message d
    else (if ltb 0 filled.0.bus_device.transaction_buffer_length then filled.0 else rest)

-- The interrupt mask that the handler leaves behind.
unfoldable pub mask_after : BusDevice → ℕ
mask_after b =
    let mask : ℕ =
      if b.message_write_index == b.message_number
      then clear_bit dw_ic_intr_default_mask tx_empty
      else dw_ic_intr_default_mask in
    elim b.message_error [ pos zero ↦ mask | _ ↦ 0 ]

-- The address of the message at hand is read also where there is none, and not used then.
unfoldable pub send_from : Chip → List Message → Driver → Driver
send_from chip [] d = d
send_from chip (m ∷ ms) d = send_messages chip m.address (m ∷ ms) false d

unfoldable pub transfer_message_to_bus : Chip → Driver → Driver
transfer_message_to_bus chip d =
    let sent = send_from chip (drop d.bus_device.message_write_index d.bus_device.messages) d in
    record sent { port = (write_register (mask_after sent.bus_device) dw_ic_intr_mask sent.port).1 }
