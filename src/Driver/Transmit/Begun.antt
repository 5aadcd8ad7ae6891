-- ===== src/Driver/Transmit/Begun.antt =====
-- One message of the stream: begun, filled, left under way or done.
use mathlib.Core.List.{map-append}
use voodoo_i2c.Base.{
  ℕ, ◌+◌, ◌≡◌, refl, ap, sym, ◌∙◌, Bool, true, false, ◌&&◌, List, [], ◌∷◌, ◌++◌, map, ◌==◌, ltb,
  if◌then◌else◌, arith, append_assoc, Bool-cases, inl, inr, drop,
}
use voodoo_i2c.Base.Bits.{test_bit, set_bit, clear_bit}
use voodoo_i2c.Registers.{Chip, Port, read_register}
use voodoo_i2c.Registers.Laws.{IsMapped, read_mapped, read_IsMapped}
use voodoo_i2c.Driver.Constants.{write_in_progress, con_restart_en}
use voodoo_i2c.Driver.Types.{Memory, Message, Driver}
use voodoo_i2c.Driver.Transmit.{begin_message, fill_message, next_write, fill_start, fill_loop}
use voodoo_i2c.Driver.Transmit.Words.{
  sent, plain, with_stop, with_restart, bare, pending_of, words_from, resumed, is_read,
}
use voodoo_i2c.Driver.Transmit.Sent.{bare_stream, fill_fifo-bare_stream, map-bare-restart}

-- What has been sent, and what is to come of the messages `ms` from the index on.
abbrev pub stream_of : Driver → List Message → List ℕ
stream_of d ms = map bare (sent d.port.trace ++ pending_of d.memory d.bus_device ms)

-- The same where the first message is under way.
abbrev pub begun_stream : Driver → List Message → List ℕ
begun_stream d ms = map bare (sent d.port.trace ++ resumed d.memory d.bus_device ms)

abbrev last_message : Driver → Bool
last_message d = d.bus_device.message_write_index + 1 == d.bus_device.message_number

abbrev restart_wanted : Driver → Bool
restart_wanted d =
    test_bit d.bus_device.bus_config con_restart_en && ltb 0 d.bus_device.message_write_index

join_one :
    (r : Bool) (a b c : List ℕ)
    → map bare (a ++ (b ++ c)) ≡ map bare (a ++ with_restart r b) ++ map bare c
join_one r a b c =
    map-append bare a (b ++ c)
    ∙ ap (λ t. map bare a ++ t) (map-append bare b c)
    ∙ sym (append_assoc (map bare a) (map bare b) (map bare c))
    ∙ ap (λ t. t ++ map bare c)
        (ap (λ t. map bare a ++ t) (sym (map-bare-restart r b))
          ∙ sym (map-append bare a (with_restart r b)))

join :
    (r r' : Bool) (a a' b b' c : List ℕ)
    → map bare (a ++ with_restart r b) ≡ map bare (a' ++ with_restart r' b')
    → map bare (a ++ (b ++ c)) ≡ map bare (a' ++ (b' ++ c))
join r r' a a' b b' c e = join_one r a b c ∙ ap (λ t. t ++ map bare c) e ∙ sym (join_one r' a' b' c)

mark_restart :
    (r : Bool) (a b c : List ℕ) → map bare (a ++ (b ++ c)) ≡ map bare (a ++ (with_restart r b ++ c))
mark_restart r a b c = join_one r a b c ∙ sym (join_one false a (with_restart r b) c)

pub begin-stream :
    (m : Message) (ms : List Message) (r : Bool) (d : Driver)
    → begun_stream (begin_message m r d).0 (m ∷ ms) ≡ stream_of d (m ∷ ms)
unfolding begin_message
begin-stream m ms r d = elim (Bool-cases (test_bit d.bus_device.status write_in_progress)) [
  | inl busy ↦ rw busy refl
  | inr idle ↦ rw idle (
      mark_restart (restart_wanted d) (sent d.port.trace)
        (with_stop (last_message d) (plain d.memory (is_read m) m.buffer m.length))
        (words_from d.memory (test_bit d.bus_device.bus_config con_restart_en)
          (d.bus_device.message_write_index + 1) d.bus_device.message_number ms))
]

sent-read :
    (chip : Chip) (offset : ℕ) {p : Port} {address : ℕ}
    → IsMapped p address
    → sent (read_register chip offset p).1.trace ≡ sent p.trace
sent-read chip offset m = rw (read_mapped m chip offset)

pub start-IsMapped :
    (chip : Chip) (r : Bool) (d : Driver) {address : ℕ}
    → IsMapped d.port address
    → IsMapped (fill_start chip r d).port address
unfolding fill_start
start-IsMapped chip r d m = read_IsMapped (read_IsMapped m chip _) chip _

pub start-sent :
    (chip : Chip) (r : Bool) (d : Driver) {address : ℕ}
    → IsMapped d.port address
    → sent (fill_start chip r d).port.trace ≡ sent d.port.trace
unfolding fill_start
start-sent chip r d m = sent-read chip _ (read_IsMapped m chip _) ∙ sent-read chip _ m

fill_loop-stream :
    (chip : Chip) (m : Message) (r : Bool) (d : Driver) {address : ℕ}
    → IsMapped d.port address
    → bare_stream d.memory (last_message d) (is_read m) (fill_loop chip m r d)
      ≡ map bare (
          sent d.port.trace
          ++ with_restart r (
              with_stop (last_message d) (
                plain d.memory
                  (is_read m)
                  d.bus_device.transaction_buffer
                  d.bus_device.transaction_buffer_length)))
unfolding fill_loop fill_start
fill_loop-stream chip m r d mp =
    fill_fifo-bare_stream d.memory _ _ d.bus_device.transaction_buffer_length (fill_start chip r d)
      (start-IsMapped chip r d mp)
    ∙ ap
        (λ t. map bare (
          t
          ++ with_restart r (
              with_stop (last_message d) (
                plain d.memory (is_read m) d.bus_device.transaction_buffer
                  d.bus_device.transaction_buffer_length))))
        (start-sent chip r d mp)

abbrev later_words : Driver → List Message → List ℕ
later_words d ms =
    words_from d.memory (test_bit d.bus_device.bus_config con_restart_en)
      (d.bus_device.message_write_index + 1) d.bus_device.message_number ms

pub fill-stream :
    (chip : Chip) (m : Message) (ms : List Message) (r : Bool) (d : Driver) {address : ℕ}
    → IsMapped d.port address
    → begun_stream (fill_message chip m r d).0 (m ∷ ms) ≡ begun_stream d (m ∷ ms)
unfolding fill_message
fill-stream chip m ms r d mp =
    join (fill_loop chip m r d).1.need_restart r (sent (fill_loop chip m r d).1.port.trace)
      (sent d.port.trace)
      (with_stop (last_message d)
        (plain d.memory (is_read m) (fill_loop chip m r d).1.buffer (fill_loop chip m r d).0))
      (with_stop (last_message d) (
        plain d.memory (is_read m) d.bus_device.transaction_buffer
          d.bus_device.transaction_buffer_length))
      (later_words d ms) (fill_loop-stream chip m r d mp)

plain-zero :
    (last reading : Bool) (memory : Memory) (a : ℕ) → with_stop last (plain memory reading a 0) ≡ []
plain-zero last reading memory a = ground arith

-- Behind a message that is sent whole, the stream is that of the next.
pub done-stream :
    (m : Message) (ms : List Message) (d : Driver)
    → d.bus_device.transaction_buffer_length ≡ 0
    → test_bit d.bus_device.status write_in_progress ≡ false
    → stream_of (next_write d) ms ≡ begun_stream d (m ∷ ms)
done-stream m ms d e idle =
    rw (idle, e, plain-zero (last_message d) (is_read m) d.memory d.bus_device.transaction_buffer)
      refl

-- The stream of the messages from the index on.
abbrev pub stream : Driver → List ℕ
stream d = stream_of d (drop d.bus_device.message_write_index d.bus_device.messages)

pub set-clear :
    (status n : ℕ)
    → (ltb 0 n ≡ false)
    → test_bit
        (if ltb 0 n then set_bit status write_in_progress else clear_bit status write_in_progress)
        write_in_progress
      ≡ false
set-clear status n h = ground arith

pub set-set :
    (status n : ℕ)
    → (ltb 0 n ≡ true)
    → test_bit
        (if ltb 0 n then set_bit status write_in_progress else clear_bit status write_in_progress)
        write_in_progress
      ≡ true
set-set status n h = ground arith
