-- ===== src/Driver/Transmit/Beside.antt =====
-- `transferMessageToBus` does not touch the receiving side, but for the bytes that it asks for.
use voodoo_i2c.Base.{
  ℕ, zero, suc, ◌≡◌, refl, ◌∙◌, Bool, false, not, ◌||◌, List, [], ◌∷◌, ltb, if_both, if◌then◌else◌,
  Option-cases, inl, inr, arith, ◌==◌, drop,
}
use voodoo_i2c.Base.Bits.{test_bit, set_bit, clear_bit}
use voodoo_i2c.Registers.{Chip, Port, read_register, write_register}
use voodoo_i2c.Driver.Constants.{
  write_in_progress, read_in_progress, dw_ic_data_cmd, dw_ic_txflr, dw_ic_rxflr,
}
use voodoo_i2c.Driver.Types.{Message, Driver, Memory}
use voodoo_i2c.Driver.Receive.Slots.{received}
use voodoo_i2c.Driver.Transmit.{
  Fill, request_byte, send_byte, fill_fifo, has_room, may_request, command_bits, fill_start,
  fill_loop, begin_message, fill_message, send_messages, send_from, next_write, fail_message,
  transfer_message_to_bus,
}

-- What the receiving side reads of the driver, but for the count of the bytes asked for.
pub record ReadSide (d e : Driver) : Type 0 where
  pub bytes : received e.port.trace ≡ received d.port.trace
  pub memory : e.memory ≡ d.memory
  pub index : e.bus_device.message_read_index ≡ d.bus_device.message_read_index
  pub buffer : e.bus_device.receive_buffer ≡ d.bus_device.receive_buffer
  pub buffer_length : e.bus_device.receive_buffer_length ≡ d.bus_device.receive_buffer_length
  pub reading :
      test_bit e.bus_device.status read_in_progress ≡ test_bit d.bus_device.status read_in_progress

pub ReadSide-refl : (d : Driver) → ReadSide d d
ReadSide-refl d = record {
  bytes = refl;
  memory = refl;
  index = refl;
  buffer = refl;
  buffer_length = refl;
  reading = refl;
}

pub ReadSide-trans : {c d e : Driver} → ReadSide c d → ReadSide d e → ReadSide c e
ReadSide-trans p q = record {
  bytes = q.bytes ∙ p.bytes;
  memory = q.memory ∙ p.memory;
  index = q.index ∙ p.index;
  buffer = q.buffer ∙ p.buffer;
  buffer_length = q.buffer_length ∙ p.buffer_length;
  reading = q.reading ∙ p.reading;
}

received-write :
    (value offset : ℕ) (p : Port)
    → received (write_register value offset p).1.trace ≡ received p.trace
unfolding write_register
received-write value offset p = elim (Option-cases p.mmap) [
  | inl e ↦ rw (e, write_register) refl
  | inr (a, e) ↦
      rw (e, write_register)
        (if_both {A = Unit {0} × Port} (λ r. received r.1.trace ≡ received p.trace) (a == 0) refl
          refl)
]

received-read :
    (chip : Chip) (offset : ℕ) (p : Port)
    → (offset == dw_ic_data_cmd) ≡ false
    → received (read_register chip offset p).1.trace ≡ received p.trace
unfolding read_register
received-read chip offset p ne = elim (Option-cases p.mmap) [
  | inl e ↦ rw (e, read_register) refl
  | inr (a, e) ↦
      rw (e, read_register)
        (if_both {A = ℕ × Port} (λ r. received r.1.trace ≡ received p.trace) (a == 0) refl
          (rw (ne) refl))
]

received-fill_fifo :
    (memory : Memory) (last reading : Bool) (n : ℕ) (s : Fill)
    → received (fill_fifo memory last reading n s).1.port.trace ≡ received s.port.trace
unfolding fill_fifo
received-fill_fifo memory last reading zero s = refl
received-fill_fifo memory last reading (suc n) s =
    let command = command_bits last (suc n) s.need_restart in
    let requested =
      received-fill_fifo memory last reading n (request_byte command s)
      ∙ received-write _ _ s.port in
    let sent =
      received-fill_fifo memory last reading n (send_byte memory command s)
      ∙ received-write _ _ s.port in
    if_both {A = ℕ × Fill} (λ r. received r.1.port.trace ≡ received s.port.trace) (has_room s)
      (if_both {A = ℕ × Fill} (λ r. received r.1.port.trace ≡ received s.port.trace) reading
        (if_both {A = ℕ × Fill} (λ r. received r.1.port.trace ≡ received s.port.trace)
          (may_request s) requested refl)
        sent)
      refl

received-fill_loop :
    (chip : Chip) (m : Message) (r : Bool) (d : Driver)
    → received (fill_loop chip m r d).1.port.trace ≡ received d.port.trace
unfolding fill_loop fill_start
received-fill_loop chip m r d =
    received-fill_fifo d.memory _ _ _ _
    ∙ received-read chip dw_ic_rxflr _ refl
    ∙ received-read chip dw_ic_txflr d.port refl

other_bit :
    (status n : ℕ)
    → test_bit
        (if ltb 0 n then set_bit status write_in_progress else clear_bit status write_in_progress)
        read_in_progress
      ≡ test_bit status read_in_progress
other_bit status n = ground arith

one-ReadSide :
    (chip : Chip) (m : Message) (r : Bool) (d : Driver)
    → ReadSide d (fill_message chip m (begin_message m r d).1 (begin_message m r d).0).0
unfolding begin_message fill_message
one-ReadSide chip m r d = record {
  bytes = received-fill_loop chip m _ _;
  memory = refl;
  index = refl;
  buffer = refl;
  buffer_length = refl;
  reading = other_bit d.bus_device.status _;
}

next-ReadSide : (d : Driver) → ReadSide d (next_write d)
next-ReadSide d = record {
  bytes = refl;
  memory = refl;
  index = refl;
  buffer = refl;
  buffer_length = refl;
  reading = refl;
}

fail-ReadSide : (d : Driver) → ReadSide d (fail_message d)
fail-ReadSide d = record {
  bytes = refl;
  memory = refl;
  index = refl;
  buffer = refl;
  buffer_length = refl;
  reading = refl;
}

send_messages-ReadSide :
    (chip : Chip) (address : ℕ) (ms : List Message) (r : Bool) (d : Driver)
    → ReadSide d (send_messages chip address ms r d)
unfolding send_messages
send_messages-ReadSide chip address [] r d = ReadSide-refl d
send_messages-ReadSide chip address (m ∷ ms) r d =
    let begun = begin_message m r d in
    let one = fill_message chip m begun.1 begun.0 in
    let first = one-ReadSide chip m r d in
    let rest = ReadSide-trans first (
      ReadSide-trans (next-ReadSide one.0)
        (send_messages-ReadSide chip address ms one.1 (next_write one.0))) in
    if_both {A = Driver} (ReadSide d) (not (m.address == address) || (m.length == 0))
      (fail-ReadSide d)
      (if_both {A = Driver} (ReadSide d) (ltb 0 one.0.bus_device.transaction_buffer_length) first
        rest)

send_from-ReadSide :
    (chip : Chip) (ms : List Message) (d : Driver) → ReadSide d (send_from chip ms d)
unfolding send_from
send_from-ReadSide chip [] d = ReadSide-refl d
send_from-ReadSide chip (m ∷ ms) d = send_messages-ReadSide chip m.address (m ∷ ms) false d

pub transfer_message_to_bus-ReadSide :
    (chip : Chip) (d : Driver) → ReadSide d (transfer_message_to_bus chip d)
unfolding transfer_message_to_bus
transfer_message_to_bus-ReadSide chip d =
    let ms = drop d.bus_device.message_write_index d.bus_device.messages in
    let kept = send_from-ReadSide chip ms d in
    record {
      bytes = received-write _ _ (send_from chip ms d).port ∙ kept.bytes;
      memory = kept.memory;
      index = kept.index;
      buffer = kept.buffer;
      buffer_length = kept.buffer_length;
      reading = kept.reading;
    }
