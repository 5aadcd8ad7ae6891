-- ===== src/Driver/Transmit/Shrinks.antt =====
-- `transferMessageToBus` only takes addresses off the front of those still to be sent.
use voodoo_i2c.Base.{
  ℕ, zero, suc, ◌+◌, ◌≡◌, refl, sym, ap, ◌∙◌, subst, Bool, true, false, not, ◌||◌, List, [], ◌∷◌,
  ◌++◌, append_assoc, ◌==◌, ltb, if◌then◌else◌, if_both, drop, Bool-cases, inl, inr,
}
use voodoo_i2c.Base.Lemmas.{drop-suc, not-pos}
use voodoo_i2c.Base.Bits.{test_bit}
use voodoo_i2c.Registers.{Chip}
use voodoo_i2c.Driver.Constants.{write_in_progress}
use voodoo_i2c.Driver.Types.{Message, Driver, Memory}
use voodoo_i2c.Driver.Receive.Slots.{addresses}
use voodoo_i2c.Driver.Transmit.{
  Fill, fill_fifo, has_room, fill_loop, fill_start, begin_message, fill_message, send_messages,
  send_from, next_write, transfer_message_to_bus, command_bits, send_byte,
}
use voodoo_i2c.Driver.Transmit.Words.{is_read}
use voodoo_i2c.Driver.Transmit.Begun.{set-clear, set-set}
use voodoo_i2c.Driver.Transmit.Sources.{span, sources_of, sources_left, sources}

pub record Shrinks (xs ys : List ℕ) : Type 0 where
  pub gone : List ℕ
  pub split : xs ≡ gone ++ ys

pub Shrinks-refl : (xs : List ℕ) → Shrinks xs xs
Shrinks-refl xs = record { gone = []; split = refl }

pub Shrinks-trans : {xs ys zs : List ℕ} → Shrinks xs ys → Shrinks ys zs → Shrinks xs zs
Shrinks-trans {zs = zs} p q = record {
  gone = p.gone ++ q.gone;
  split = p.split ∙ ap (λ t. p.gone ++ t) q.split ∙ sym (append_assoc p.gone q.gone zs);
}

fill_fifo-Shrinks :
    (memory : Memory) (last reading : Bool) (n : ℕ) (s : Fill)
    → Shrinks (span reading s.buffer n) (
        span reading
          (fill_fifo memory last reading n s).1.buffer
          (fill_fifo memory last reading n s).0)
unfolding fill_fifo
fill_fifo-Shrinks memory last true n s = Shrinks-refl []
fill_fifo-Shrinks memory last false zero s = Shrinks-refl []
fill_fifo-Shrinks memory last false (suc n) s =
    let after =
      fill_fifo-Shrinks memory last false n
        (send_byte memory (command_bits last (suc n) s.need_restart) s) in
    if_both {A = ℕ × Fill} (λ r. Shrinks (addresses s.buffer (suc n)) (addresses r.1.buffer r.0))
      (has_room s)
      (record { gone = s.buffer ∷ after.gone; split = ap (λ t. s.buffer ∷ t) after.split })
      (Shrinks-refl _)

-- What is left of the message under way, with the messages behind it.
abbrev left : Driver → Message → List Message → List ℕ
left d m ms =
    span (is_read m) d.bus_device.transaction_buffer d.bus_device.transaction_buffer_length
    ++ sources_of ms

one : Chip → Message → Bool → Driver → Driver × Bool
one chip m r d = fill_message chip m (begin_message m r d).1 (begin_message m r d).0

left-begin :
    (m : Message) (ms : List Message) (r : Bool) (d : Driver)
    → sources_left d.bus_device (m ∷ ms) ≡ left (begin_message m r d).0 m ms
unfolding begin_message
left-begin m ms r d = by_status (test_bit d.bus_device.status write_in_progress)
  where
    by_status :
        (going : Bool)
        → (if going
            then span
                (is_read m)
                d.bus_device.transaction_buffer
                d.bus_device.transaction_buffer_length
              ++ sources_of ms
            else span (is_read m) m.buffer m.length ++ sources_of ms)
          ≡ span
              (is_read m)
              (if going then d.bus_device.transaction_buffer else m.buffer)
              (if going then d.bus_device.transaction_buffer_length else m.length)
            ++ sources_of ms
    by_status true = refl
    by_status false = refl

left-one :
    (chip : Chip) (m : Message) (ms : List Message) (r : Bool) (d : Driver)
    → Shrinks (sources_left d.bus_device (m ∷ ms)) (left (one chip m r d).0 m ms)
unfolding one fill_message fill_loop fill_start
left-one chip m ms r d =
    let (begun, wants) = begin_message m r d in
    let filled =
      fill_fifo-Shrinks begun.memory
        (begun.bus_device.message_write_index + 1 == begun.bus_device.message_number) (is_read m)
        begun.bus_device.transaction_buffer_length (fill_start chip wants begun) in
    record {
      gone = filled.gone;
      split =
          left-begin m ms r d
          ∙ ap (λ t. t ++ sources_of ms) filled.split
          ∙ append_assoc filled.gone _ (sources_of ms);
    }

one-index :
    (chip : Chip) (m : Message) (r : Bool) (d : Driver)
    → ((one chip m r d).0.bus_device.message_write_index ≡ d.bus_device.message_write_index)
      × ((one chip m r d).0.bus_device.messages ≡ d.bus_device.messages)
unfolding one begin_message fill_message
one-index chip m r d = (refl, refl)

one-writing :
    (chip : Chip) (m : Message) (r : Bool) (d : Driver)
    → test_bit (one chip m r d).0.bus_device.status write_in_progress
      ≡ ltb 0 (one chip m r d).0.bus_device.transaction_buffer_length
unfolding one begin_message fill_message
one-writing chip m r d =
    elim (Bool-cases (ltb 0 (fill_loop chip m (begin_message m r d).1 (begin_message m r d).0).0)) [
      | inl more ↦ set-set d.bus_device.status _ more ∙ sym more
      | inr done ↦ set-clear d.bus_device.status _ done ∙ sym done
    ]

-- A message under way is where the addresses go on, and behind a finished one are the next messages.
left-going :
    (chip : Chip) (m : Message) (ms : List Message) (r : Bool) (d : Driver)
    → drop d.bus_device.message_write_index d.bus_device.messages ≡ m ∷ ms
    → ltb 0 (one chip m r d).0.bus_device.transaction_buffer_length ≡ true
    → sources (one chip m r d).0.bus_device ≡ left (one chip m r d).0 m ms
left-going chip m ms r d e more =
    let same = one-index chip m r d in
    let writing = one-writing chip m r d ∙ more in rw (same.0, same.1, e, writing) refl

left-finished :
    (chip : Chip) (m : Message) (ms : List Message) (r : Bool) (d : Driver)
    → ltb 0 (one chip m r d).0.bus_device.transaction_buffer_length ≡ false
    → left (one chip m r d).0 m ms ≡ sources_left (next_write (one chip m r d).0).bus_device ms
left-finished chip m ms r d done =
    let writing = one-writing chip m r d ∙ done in
    let none_left = not-pos (one chip m r d).0.bus_device.transaction_buffer_length done in
    rw (writing, none_left) (span_zero (is_read m))
  where
    span_zero :
        (reading : Bool)
        → span reading (one chip m r d).0.bus_device.transaction_buffer 0 ++ sources_of ms
          ≡ sources_of ms
    span_zero true = refl
    span_zero false = refl

send_messages-Shrinks :
    (chip : Chip) (address : ℕ) (ms : List Message) (r : Bool) (d : Driver)
    → drop d.bus_device.message_write_index d.bus_device.messages ≡ ms
    → Shrinks
        (sources_left d.bus_device ms)
        (sources (send_messages chip address ms r d).bus_device)
unfolding send_messages one
send_messages-Shrinks chip address [] r d e = rw (e) (Shrinks-refl _)
send_messages-Shrinks chip address (m ∷ ms) r d e =
    let same = one-index chip m r d in
    let next = next_write (one chip m r d).0 in
    let started = left-one chip m ms r d in
    let at_next : drop next.bus_device.message_write_index next.bus_device.messages ≡ ms =
      rw (same.0, same.1)
        (drop-suc d.bus_device.message_write_index d.bus_device.messages m ms e) in
    let rest = send_messages-Shrinks chip address ms (one chip m r d).1 next at_next in
    elim (Bool-cases (not (m.address == address) || (m.length == 0))) [
      | inl bad ↦ rw (bad, e) (Shrinks-refl _)
      | inr good ↦
          rw (good)
            (elim (Bool-cases (ltb 0 (one chip m r d).0.bus_device.transaction_buffer_length)) [
              | inl more ↦ rw (more) (
                  subst (λ t. Shrinks (sources_left d.bus_device (m ∷ ms)) t)
                    (sym (left-going chip m ms r d e more)) started)
              | inr done ↦ rw (done) (
                  Shrinks-trans started (
                    subst
                      (λ t. Shrinks t (
                        sources (send_messages chip address ms (one chip m r d).1 next).bus_device))
                      (sym (left-finished chip m ms r d done)) rest))
            ])
    ]

send_from-Shrinks :
    (chip : Chip) (ms : List Message) (d : Driver)
    → drop d.bus_device.message_write_index d.bus_device.messages ≡ ms
    → Shrinks (sources_left d.bus_device ms) (sources (send_from chip ms d).bus_device)
unfolding send_from
send_from-Shrinks chip [] d e = rw (e) (Shrinks-refl _)
send_from-Shrinks chip (m ∷ ms) d e = send_messages-Shrinks chip m.address (m ∷ ms) false d e

pub transfer_message_to_bus-Shrinks :
    (chip : Chip) (d : Driver)
    → Shrinks (sources d.bus_device) (sources (transfer_message_to_bus chip d).bus_device)
unfolding transfer_message_to_bus
transfer_message_to_bus-Shrinks chip d = send_from-Shrinks chip _ d refl
