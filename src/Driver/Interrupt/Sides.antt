-- ===== src/Driver/Interrupt/Sides.antt =====
-- The bytes to come of each side are determined by a few fields of the device.
use voodoo_i2c.Base.{◌≡◌, refl, ap, ◌∙◌, List, [], ◌∷◌, drop}
use voodoo_i2c.Base.Bits.{test_bit}
use voodoo_i2c.Driver.Constants.{write_in_progress, read_in_progress}
use voodoo_i2c.Driver.Types.{Message, BusDevice, Memory}
use voodoo_i2c.Driver.Transmit.Words as words
use voodoo_i2c.Driver.Transmit.Sources.{sources_resumed, sources_left, sources}
use voodoo_i2c.Driver.Receive.Slots as places

module _ (b c : BusDevice) where
  pub record SameWrite : Type 0 where
    pub writing : test_bit c.status write_in_progress ≡ test_bit b.status write_in_progress
    pub index : c.message_write_index ≡ b.message_write_index
    pub buffer : c.transaction_buffer ≡ b.transaction_buffer
    pub buffer_length : c.transaction_buffer_length ≡ b.transaction_buffer_length
    pub messages : c.messages ≡ b.messages
    pub number : c.message_number ≡ b.message_number
    pub config : c.bus_config ≡ b.bus_config

  pub record SameRead : Type 0 where
    pub reading : test_bit c.status read_in_progress ≡ test_bit b.status read_in_progress
    pub index : c.message_read_index ≡ b.message_read_index
    pub buffer : c.receive_buffer ≡ b.receive_buffer
    pub buffer_length : c.receive_buffer_length ≡ b.receive_buffer_length
    pub messages : c.messages ≡ b.messages

module _ {b c : BusDevice} (s : SameWrite b c) where
  sources_resumed-same : (ms : List Message) → sources_resumed c ms ≡ sources_resumed b ms
  sources_resumed-same [] = refl
  sources_resumed-same (m ∷ ms) = rw (s.buffer, s.buffer_length) refl

  resumed-same :
      (memory : Memory) (ms : List Message) → words.resumed memory c ms ≡ words.resumed memory b ms
  resumed-same memory [] = refl
  resumed-same memory (m ∷ ms) = rw (s.buffer, s.buffer_length, s.index, s.number, s.config) refl

  messages_left : drop c.message_write_index c.messages ≡ drop b.message_write_index b.messages
  messages_left = rw (s.index, s.messages) refl

  pub sources-same : sources c ≡ sources b
  sources-same =
      ap (sources_left c) messages_left
      ∙ rw (s.writing, sources_resumed-same (drop b.message_write_index b.messages)) refl

  pub pending-same : (memory : Memory) → words.pending memory c ≡ words.pending memory b
  pending-same memory =
      ap (words.pending_of memory c) messages_left
      ∙ rw
          (
            s.writing,
            resumed-same memory (drop b.message_write_index b.messages),
            s.index,
            s.number,
            s.config,
          )
          refl

module _ {b c : BusDevice} (s : SameRead b c) where
  slots_resumed-same : (ms : List Message) → places.resumed c ms ≡ places.resumed b ms
  slots_resumed-same [] = refl
  slots_resumed-same (m ∷ ms) = rw (s.buffer, s.buffer_length, slots_resumed-same ms) refl

  reads_left : drop c.message_read_index c.messages ≡ drop b.message_read_index b.messages
  reads_left = rw (s.index, s.messages) refl

  pub slots-same : places.slots c ≡ places.slots b
  slots-same =
      ap (places.slots_left c) reads_left
      ∙ rw (s.reading, slots_resumed-same (drop b.message_read_index b.messages)) refl
