-- ===== src/Driver/Receive/Moves.antt =====
-- `readFromBus` moves received bytes to their slots, in order.
use voodoo_i2c.Driver.Receive.{store_drain}
use voodoo_i2c.Base.Lemmas.{drop-suc}
use voodoo_i2c.Base.{
  ℕ, ◌≡◌, refl, ap, sym, ◌∙◌, Bool, true, false, List, [], ◌∷◌, ltb, if◌then◌else◌, drop,
  Bool-cases, inl, inr, if_both, subst,
}
use voodoo_i2c.Base.Bits.{test_bit}
use voodoo_i2c.Registers.{Chip}
use voodoo_i2c.Registers.Laws.{IsMapped}
use voodoo_i2c.Driver.Constants.{i2c_m_rd}
use voodoo_i2c.Driver.Types.{Message, Driver}
use voodoo_i2c.Driver.Receive.{
  Drain, next_read, drain_message, receive_messages, read_from_bus, drain_loop,
}
use voodoo_i2c.Driver.Receive.Slots.{received, slots_of, Rx, Moves, Moves-refl, Moves-trans}
use voodoo_i2c.Driver.Receive.Drained.{
  rx_drain, rx_of, drain_loop-IsMapped, slots_left-skip, drain_loop-Moves, slots_left-stored,
  slots_left-done,
}

-- The receiving side, with the messages from the index on.
abbrev pub rx : Driver → Rx
rx d = rx_of d (drop d.bus_device.message_read_index d.bus_device.messages)

-- Behind the loop: what is left of this message, and the messages that follow it.
store_drain-left :
    (m : Message) (ms : List Message) (d : Driver) (r : ℕ × Drain)
    → test_bit m.flags i2c_m_rd ≡ true
    → ltb 0 r.0 ≡ true
    → rx_of (store_drain d r) (m ∷ ms) ≡ rx_drain (slots_of ms) r
store_drain-left m ms d r takes more =
    ap
      (λ t. record {
        left = t;
        bytes = received r.1.port.trace;
        memory = r.1.memory;
        outstanding = r.1.receive_outstanding;
      })
      (slots_left-stored m ms d r takes more)

store_drain-done :
    (ms : List Message) (d : Driver) (r : ℕ × Drain)
    → ltb 0 r.0 ≡ false
    → rx_of (next_read (store_drain d r)) ms ≡ rx_drain (slots_of ms) r
store_drain-done ms d r done =
    ap
      (λ t. record {
        left = t;
        bytes = received r.1.port.trace;
        memory = r.1.memory;
        outstanding = r.1.receive_outstanding;
      })
      (slots_left-done ms d r done)

going-Moves :
    (chip : Chip) (m : Message) (ms : List Message) (d : Driver) {base : ℕ}
    → IsMapped d.port base
    → drop d.bus_device.message_read_index d.bus_device.messages ≡ m ∷ ms
    → test_bit m.flags i2c_m_rd ≡ true
    → ltb 0 (drain_message chip m d).0 ≡ true
    → Moves (rx_of d (m ∷ ms)) (rx (drain_message chip m d).1)
unfolding drain_message
going-Moves chip m ms d mp e takes more =
    let drained = drain_loop chip m d in
    let stored =
      ap (rx_of (store_drain d drained)) e ∙ store_drain-left m ms d drained takes more in
    subst (Moves (rx_of d (m ∷ ms))) (sym stored) (drain_loop-Moves chip m ms d mp takes)

done-Moves :
    (chip : Chip) (m : Message) (ms : List Message) (d : Driver) {base : ℕ}
    → IsMapped d.port base
    → test_bit m.flags i2c_m_rd ≡ true
    → ltb 0 (drain_message chip m d).0 ≡ false
    → Moves (rx_of d (m ∷ ms)) (rx_of (next_read (drain_message chip m d).1) ms)
unfolding drain_message
done-Moves chip m ms d mp takes done =
    let drained = drain_loop chip m d in
    subst (Moves (rx_of d (m ∷ ms))) (sym (store_drain-done ms d drained done))
      (drain_loop-Moves chip m ms d mp takes)

skip-Moves :
    (m : Message) (ms : List Message) (d : Driver)
    → test_bit m.flags i2c_m_rd ≡ false
    → Moves (rx_of d (m ∷ ms)) (rx_of (next_read d) ms)
skip-Moves m ms d skips =
    subst (Moves (rx_of d (m ∷ ms)))
      (ap
        (λ t. record {
          left = t;
          bytes = received d.port.trace;
          memory = d.memory;
          outstanding = d.bus_device.receive_outstanding;
        })
        (slots_left-skip d.bus_device m ms skips))
      (Moves-refl (rx_of d (m ∷ ms)))

drain_message-IsMapped :
    (chip : Chip) (m : Message) (d : Driver) {base : ℕ}
    → IsMapped d.port base
    → IsMapped (drain_message chip m d).1.port base
unfolding drain_message
drain_message-IsMapped chip m d mp = drain_loop-IsMapped chip m d mp

drain_message-index :
    (chip : Chip) (m : Message) (ms : List Message) (d : Driver)
    → drop d.bus_device.message_read_index d.bus_device.messages ≡ m ∷ ms
    → let b = (next_read (drain_message chip m d).1).bus_device in
      drop b.message_read_index b.messages ≡ ms
unfolding drain_message
drain_message-index chip m ms d e =
    drop-suc d.bus_device.message_read_index d.bus_device.messages m ms e

receive_messages-Moves :
    (chip : Chip) (ms : List Message) (d : Driver) {base : ℕ}
    → IsMapped d.port base
    → drop d.bus_device.message_read_index d.bus_device.messages ≡ ms
    → Moves (rx_of d ms) (rx (receive_messages chip ms d))
unfolding receive_messages
receive_messages-Moves chip [] d mp e = rw e (Moves-refl _)
receive_messages-Moves chip (m ∷ ms) d mp e = elim (Bool-cases (test_bit m.flags i2c_m_rd)) [
  | inl takes ↦
      subst (λ b. Moves (rx_of d (m ∷ ms)) (rx (branch b))) (sym takes)
        (elim (Bool-cases (ltb 0 (drain_message chip m d).0)) [
          | inl more ↦
              subst (λ b. Moves (rx_of d (m ∷ ms)) (rx (inner b))) (sym more)
                (going-Moves chip m ms d mp e takes more)
          | inr done ↦
              subst (λ b. Moves (rx_of d (m ∷ ms)) (rx (inner b))) (sym done)
                (Moves-trans (done-Moves chip m ms d mp takes done) (
                  receive_messages-Moves chip ms (next_read (drain_message chip m d).1)
                    (drain_message-IsMapped chip m d mp) (drain_message-index chip m ms d e)))
        ])
  | inr skips ↦
      subst (λ b. Moves (rx_of d (m ∷ ms)) (rx (branch b))) (sym skips)
        (Moves-trans (skip-Moves m ms d skips) (
          receive_messages-Moves chip ms (next_read d) mp
            (drop-suc d.bus_device.message_read_index d.bus_device.messages m ms e)))
]
  where
    inner : Bool → Driver
    inner b =
        if b
        then (drain_message chip m d).1
        else receive_messages chip ms (next_read (drain_message chip m d).1)

    branch : Bool → Driver
    branch b =
        if b
        then inner (ltb 0 (drain_message chip m d).0)
        else receive_messages chip ms (next_read d)

receive_messages-IsMapped :
    (chip : Chip) (ms : List Message) (d : Driver) {base : ℕ}
    → IsMapped d.port base
    → IsMapped (receive_messages chip ms d).port base
unfolding receive_messages
receive_messages-IsMapped chip [] d mp = mp
receive_messages-IsMapped chip (m ∷ ms) d {base} mp =
    let skipped = receive_messages-IsMapped chip ms (next_read d) mp in
    let kept = drain_message-IsMapped chip m d mp in
    let rest = receive_messages-IsMapped chip ms (next_read (drain_message chip m d).1) kept in
    if_both {A = Driver} (λ e. IsMapped e.port base) (test_bit m.flags i2c_m_rd)
      (if_both {A = Driver} (λ e. IsMapped e.port base) (ltb 0 (drain_message chip m d).0) kept
        rest)
      skipped

-- One call of `readFromBus` over a mapped window takes bytes from the receive FIFO and stores each
-- at the next address that the reading messages provide, in order and modulo 256, writes memory
-- nowhere else, and counts each byte once: the addresses left before the call are those used now
-- followed by those left after it.
pub read_from_bus-Moves :
    (chip : Chip) (d : Driver) {base : ℕ}
    → IsMapped d.port base
    → Moves (rx d) (rx (read_from_bus chip d))
unfolding read_from_bus
read_from_bus-Moves chip d mp =
    receive_messages-Moves chip (drop d.bus_device.message_read_index d.bus_device.messages) d mp
      refl

pub read_from_bus-IsMapped :
    (chip : Chip) (d : Driver) {base : ℕ}
    → IsMapped d.port base
    → IsMapped (read_from_bus chip d).port base
unfolding read_from_bus
read_from_bus-IsMapped chip d mp = receive_messages-IsMapped chip _ d mp
