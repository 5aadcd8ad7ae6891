-- ===== src/Driver/Receive/Beside.antt =====
-- `readFromBus` does not touch the transmit side.
use voodoo_i2c.Base.{
  ℕ, zero, suc, ◌≡◌, refl, ◌∙◌, List, [], ◌∷◌, ltb, if_both, if◌then◌else◌, Option-cases, inl, inr,
  arith, ◌==◌,
}
use voodoo_i2c.Base.Bits.{test_bit, set_bit, clear_bit}
use voodoo_i2c.Registers.{Chip, Port, read_register}
use voodoo_i2c.Driver.Constants.{i2c_m_rd, write_in_progress, read_in_progress}
use voodoo_i2c.Driver.Types.{Message, Driver}
use voodoo_i2c.Driver.Transmit.Words.{sent}
use voodoo_i2c.Driver.Receive.{
  Drain, read_byte, drain, drain_loop, next_read, drain_message, receive_messages, read_from_bus,
}

-- What the transmit side reads of the driver, but for memory.
pub record WriteSide (d e : Driver) : Type 0 where
  pub words : sent e.port.trace ≡ sent d.port.trace
  pub index : e.bus_device.message_write_index ≡ d.bus_device.message_write_index
  pub buffer : e.bus_device.transaction_buffer ≡ d.bus_device.transaction_buffer
  pub buffer_length :
      e.bus_device.transaction_buffer_length ≡ d.bus_device.transaction_buffer_length
  pub writing :
      test_bit e.bus_device.status write_in_progress
      ≡ test_bit d.bus_device.status write_in_progress

pub WriteSide-refl : (d : Driver) → WriteSide d d
WriteSide-refl d = record {
  words = refl;
  index = refl;
  buffer = refl;
  buffer_length = refl;
  writing = refl;
}

pub WriteSide-trans : {c d e : Driver} → WriteSide c d → WriteSide d e → WriteSide c e
WriteSide-trans p q = record {
  words = q.words ∙ p.words;
  index = q.index ∙ p.index;
  buffer = q.buffer ∙ p.buffer;
  buffer_length = q.buffer_length ∙ p.buffer_length;
  writing = q.writing ∙ p.writing;
}

sent-read :
    (chip : Chip) (offset : ℕ) (p : Port)
    → sent (read_register chip offset p).1.trace ≡ sent p.trace
unfolding read_register
sent-read chip offset p = elim (Option-cases p.mmap) [
  | inl e ↦ rw (e, read_register) refl
  | inr (a, e) ↦
      rw (e, read_register)
        (if_both {A = ℕ × Port} (λ r. sent r.1.trace ≡ sent p.trace) (a == 0) refl refl)
]

sent-drain :
    (chip : Chip) (n v : ℕ) (s : Drain) → sent (drain chip n v s).1.port.trace ≡ sent s.port.trace
unfolding drain
sent-drain chip zero v s = refl
sent-drain chip (suc n) zero s = refl
sent-drain chip (suc n) (suc v) s = sent-drain chip n v (read_byte chip s) ∙ sent-read chip _ s.port

sent-drain_loop :
    (chip : Chip) (m : Message) (d : Driver)
    → sent (drain_loop chip m d).1.port.trace ≡ sent d.port.trace
unfolding drain_loop
sent-drain_loop chip m d = sent-drain chip _ _ _ ∙ sent-read chip _ d.port

other_bit :
    (status n : ℕ)
    → test_bit
        (if ltb 0 n then set_bit status read_in_progress else clear_bit status read_in_progress)
        write_in_progress
      ≡ test_bit status write_in_progress
other_bit status n = ground arith

one-WriteSide : (chip : Chip) (m : Message) (d : Driver) → WriteSide d (drain_message chip m d).1
unfolding drain_message
one-WriteSide chip m d = record {
  words = sent-drain_loop chip m d;
  index = refl;
  buffer = refl;
  buffer_length = refl;
  writing = other_bit d.bus_device.status (drain_loop chip m d).0;
}

next-WriteSide : (d : Driver) → WriteSide d (next_read d)
next-WriteSide d = record {
  words = refl;
  index = refl;
  buffer = refl;
  buffer_length = refl;
  writing = refl;
}

receive_messages-WriteSide :
    (chip : Chip) (ms : List Message) (d : Driver) → WriteSide d (receive_messages chip ms d)
unfolding receive_messages
receive_messages-WriteSide chip [] d = WriteSide-refl d
receive_messages-WriteSide chip (m ∷ ms) d =
    let one = drain_message chip m d in
    let first = one-WriteSide chip m d in
    let rest = WriteSide-trans first (
      WriteSide-trans (next-WriteSide one.1)
        (receive_messages-WriteSide chip ms (next_read one.1))) in
    let skipped =
      WriteSide-trans (next-WriteSide d) (receive_messages-WriteSide chip ms (next_read d)) in
    if_both {A = Driver} (WriteSide d) (test_bit m.flags i2c_m_rd)
      (if_both {A = Driver} (WriteSide d) (ltb 0 one.0) first rest) skipped

pub read_from_bus-WriteSide : (chip : Chip) (d : Driver) → WriteSide d (read_from_bus chip d)
unfolding read_from_bus
read_from_bus-WriteSide chip d = receive_messages-WriteSide chip _ d
