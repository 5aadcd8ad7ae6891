-- ===== src/Driver/Transmit/Stream.antt =====
-- `transferMessageToBus` keeps the stream of the whole transfer.
use voodoo_i2c.Base.Lemmas.{drop-suc, not-pos}
use voodoo_i2c.Base.{
  ℕ, ◌≡◌, refl, ap, ◌∙◌, Bool, true, false, List, [], ◌∷◌, ◌++◌, map, ◌==◌, ltb, if◌then◌else◌,
  ◌||◌, Bool-cases, inl, inr, drop, not,
}
use voodoo_i2c.Base.Bits.{set_bit, clear_bit}
use voodoo_i2c.Registers.{Chip, Port, write_register}
use voodoo_i2c.Registers.Laws.{IsMapped, write_mapped, write_IsMapped}
use voodoo_i2c.Driver.Constants.{write_in_progress, dw_ic_intr_mask}
use voodoo_i2c.Driver.Types.{Message, Driver}
use voodoo_i2c.Driver.Transmit.{
  begin_message, fill_message, send_messages, send_from, next_write, transfer_message_to_bus,
  fill_loop,
}
use voodoo_i2c.Driver.Transmit.Words.{sent, bare, pending}
use voodoo_i2c.Driver.Transmit.Sent.{fill_fifo-IsMapped}
use voodoo_i2c.Driver.Transmit.Begun.{
  stream_of, begun_stream, begin-stream, start-IsMapped, fill-stream, done-stream, stream,
  set-clear, set-set,
}

-- The message is begun and filled: whatever is left of it, the stream is as before.
sent_message : Chip → Message → Bool → Driver → Driver × Bool
sent_message chip m r d = fill_message chip m (begin_message m r d).1 (begin_message m r d).0

sent_message-stream :
    (chip : Chip) (m : Message) (ms : List Message) (r : Bool) (d : Driver) {address : ℕ}
    → IsMapped d.port address
    → begun_stream (sent_message chip m r d).0 (m ∷ ms) ≡ stream_of d (m ∷ ms)
unfolding sent_message begin_message
sent_message-stream chip m ms r d mp =
    fill-stream chip m ms (begin_message m r d).1 (begin_message m r d).0 mp ∙ begin-stream m ms r d

sent_message-index :
    (chip : Chip) (m : Message) (r : Bool) (d : Driver)
    → let b = (sent_message chip m r d).0.bus_device in
      (b.message_write_index ≡ d.bus_device.message_write_index)
      × (b.messages ≡ d.bus_device.messages)
unfolding sent_message begin_message fill_message
sent_message-index chip m r d = (refl, refl)

sent_message-status :
    (chip : Chip) (m : Message) (r : Bool) (d : Driver)
    → let n = (sent_message chip m r d).0.bus_device.transaction_buffer_length in
      (sent_message chip m r d).0.bus_device.status ≡ (
        if ltb 0 n
        then set_bit d.bus_device.status write_in_progress
        else clear_bit d.bus_device.status write_in_progress)
unfolding sent_message begin_message fill_message
sent_message-status chip m r d = refl

sent_message-IsMapped :
    (chip : Chip) (m : Message) (r : Bool) (d : Driver) {base : ℕ}
    → IsMapped d.port base
    → IsMapped (sent_message chip m r d).0.port base
unfolding sent_message begin_message fill_message fill_loop
sent_message-IsMapped chip m r d mp =
    fill_fifo-IsMapped d.memory _ _ _ _
      (start-IsMapped chip (begin_message m r d).1 (begin_message m r d).0 mp)

-- A message that is left under way is where the stream goes on.
going-stream :
    (chip : Chip) (m : Message) (ms : List Message) (r : Bool) (d : Driver) {base : ℕ}
    → IsMapped d.port base
    → drop d.bus_device.message_write_index d.bus_device.messages ≡ m ∷ ms
    → ltb 0 (sent_message chip m r d).0.bus_device.transaction_buffer_length ≡ true
    → stream (sent_message chip m r d).0 ≡ stream_of d (m ∷ ms)
going-stream chip m ms r d mp e more =
    let status = sent_message-status chip m r d in
    let same = sent_message-index chip m r d in
    rw
      (
        same.0,
        same.1,
        e,
        status,
        set-set d.bus_device.status (sent_message chip m r d).0.bus_device.transaction_buffer_length
            more,
      )
      (sent_message-stream chip m ms r d mp)

next-drop :
    (chip : Chip) (m : Message) (ms : List Message) (r : Bool) (d : Driver)
    → drop d.bus_device.message_write_index d.bus_device.messages ≡ m ∷ ms
    → let b = (next_write (sent_message chip m r d).0).bus_device in
      drop b.message_write_index b.messages ≡ ms
next-drop chip m ms r d e =
    let same = sent_message-index chip m r d in
    rw (same.0, same.1) (drop-suc d.bus_device.message_write_index d.bus_device.messages m ms e)

finished-stream :
    (chip : Chip) (m : Message) (ms : List Message) (r : Bool) (d : Driver) {base : ℕ}
    → IsMapped d.port base
    → ltb 0 (sent_message chip m r d).0.bus_device.transaction_buffer_length ≡ false
    → stream_of (next_write (sent_message chip m r d).0) ms ≡ stream_of d (m ∷ ms)
finished-stream chip m ms r d mp done =
    let n = (sent_message chip m r d).0.bus_device.transaction_buffer_length in
    done-stream m ms (sent_message chip m r d).0 (not-pos n done)
      (rw (sent_message-status chip m r d) (set-clear d.bus_device.status n done))
    ∙ sent_message-stream chip m ms r d mp

send_messages-stream :
    (chip : Chip) (address : ℕ) (ms : List Message) (r : Bool) (d : Driver) {base : ℕ}
    → IsMapped d.port base
    → drop d.bus_device.message_write_index d.bus_device.messages ≡ ms
    → stream (send_messages chip address ms r d) ≡ stream_of d ms
unfolding send_messages sent_message
send_messages-stream chip address [] r d mp e = rw e
send_messages-stream chip address (m ∷ ms) r d mp e =
    elim (Bool-cases (not (m.address == address) || (m.length == 0))) [
      | inl bad ↦ rw bad (rw e refl)
      | inr good ↦
          rw good
            (elim (Bool-cases
              (ltb 0 (sent_message chip m r d).0.bus_device.transaction_buffer_length)) [
                | inl more ↦ rw more (going-stream chip m ms r d mp e more)
                | inr done ↦ rw done (
                    send_messages-stream chip address ms (sent_message chip m r d).1
                      (next_write (sent_message chip m r d).0) (sent_message-IsMapped chip m r d mp)
                      (next-drop chip m ms r d e)
                    ∙ finished-stream chip m ms r d mp done)
              ])
    ]

send_messages-IsMapped :
    (chip : Chip) (address : ℕ) (ms : List Message) (r : Bool) (d : Driver) {base : ℕ}
    → IsMapped d.port base
    → IsMapped (send_messages chip address ms r d).port base
unfolding send_messages sent_message
send_messages-IsMapped chip address [] r d mp = mp
send_messages-IsMapped chip address (m ∷ ms) r d mp =
    elim (Bool-cases (not (m.address == address) || (m.length == 0))) [
      | inl bad ↦ rw bad mp
      | inr good ↦
          rw good
            (elim (Bool-cases
              (ltb 0 (sent_message chip m r d).0.bus_device.transaction_buffer_length)) [
                | inl more ↦ rw more (sent_message-IsMapped chip m r d mp)
                | inr done ↦ rw done (
                    send_messages-IsMapped chip address ms (sent_message chip m r d).1
                      (next_write (sent_message chip m r d).0)
                      (sent_message-IsMapped chip m r d mp))
              ])
    ]

send_from-stream :
    (chip : Chip) (ms : List Message) (d : Driver) {base : ℕ}
    → IsMapped d.port base
    → drop d.bus_device.message_write_index d.bus_device.messages ≡ ms
    → stream (send_from chip ms d) ≡ stream_of d ms
unfolding send_from
send_from-stream chip [] d mp e = rw e
send_from-stream chip (m ∷ ms) d mp e = send_messages-stream chip m.address (m ∷ ms) false d mp e

pub send_from-IsMapped :
    (chip : Chip) (ms : List Message) (d : Driver) {base : ℕ}
    → IsMapped d.port base
    → IsMapped (send_from chip ms d).port base
unfolding send_from
send_from-IsMapped chip [] d mp = mp
send_from-IsMapped chip (m ∷ ms) d mp = send_messages-IsMapped chip m.address (m ∷ ms) false d mp

sent-mask :
    (w : ℕ) {p : Port} {base : ℕ}
    → IsMapped p base
    → sent (write_register w dw_ic_intr_mask p).1.trace ≡ sent p.trace
sent-mask w m = rw (write_mapped m w dw_ic_intr_mask)

-- One call of the handler moves words from what is to come to what has been sent, in order, and
-- neither drops nor makes up one, whatever levels the chip reports: over a mapped window the words
-- sent so far, followed by the words to come, are the same before and after the call, but for the
-- restart bits.
pub transfer_message_to_bus-stream :
    (chip : Chip) (d : Driver) {base : ℕ}
    → IsMapped d.port base
    → stream (transfer_message_to_bus chip d) ≡ stream d
unfolding transfer_message_to_bus
transfer_message_to_bus-stream chip d mp =
    let ms = drop d.bus_device.message_write_index d.bus_device.messages in
    let sent_all = send_from chip ms d in
    ap (λ t. map bare (t ++ pending sent_all.memory sent_all.bus_device))
      (sent-mask _ (send_from-IsMapped chip ms d mp))
    ∙ send_from-stream chip ms d mp refl

pub transfer_message_to_bus-IsMapped :
    (chip : Chip) (d : Driver) {base : ℕ}
    → IsMapped d.port base
    → IsMapped (transfer_message_to_bus chip d).port base
unfolding transfer_message_to_bus
transfer_message_to_bus-IsMapped chip d mp =
    write_IsMapped (send_from-IsMapped chip _ d mp) _ dw_ic_intr_mask
