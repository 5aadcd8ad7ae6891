-- ===== src/Driver/Transmit/Bounds.antt =====
-- The FIFOs do not overflow: the driver sends no more words than the transmit FIFO has room for,
-- and asks for no more bytes than the receive FIFO holds.
use voodoo_i2c.Base.{
  ℕ, zero, suc, ◌+◌, ◌^◌, ◌≤◌, ◌<◌, ◌≡◌, refl, Bool, true, false, ◌||◌, not, List, [], ◌∷◌, ◌==◌,
  ltb, arith, Bool-cases, inl, inr, drop,
}
use voodoo_i2c.Base.Int.{ℤ, pos, ◌+ℤ◌, ◌-ℤ◌, ◌≤ℤ◌, pos_part}
use voodoo_i2c.Base.Words.{sub32, to_int}
use voodoo_i2c.Registers.{Chip, Access}
use voodoo_i2c.Registers.Laws.{read_register-le}
use voodoo_i2c.Driver.Constants.{dw_ic_rxflr}
use voodoo_i2c.Driver.Types.{Memory, Message, Driver}
use voodoo_i2c.Driver.Transmit.{
  Fill, command_bits, request_byte, send_byte, has_room, may_request, fill_fifo, fill_start,
  fill_loop, begin_message, fill_message, send_messages, send_from, next_write,
  transfer_message_to_bus,
}

request-le :
    (command : ℕ) (s : Fill) (bound : ℤ)
    → may_request s ≡ true
    → s.receive_limit ≤ℤ bound
    → ((request_byte command s).receive_outstanding ≤ℤ bound)
      × ((request_byte command s).receive_limit ≤ℤ bound)
unfolding may_request ◌+ℤ◌ ◌-ℤ◌
request-le command s bound more limit = ground arith

-- The loop leaves the bytes asked for within any bound that holds of them and of the receive limit.
pub fill_fifo-outstanding :
    (memory : Memory) (last reading : Bool) (n : ℕ) (s : Fill) (bound : ℤ)
    → s.receive_outstanding ≤ℤ bound
    → s.receive_limit ≤ℤ bound
    → (fill_fifo memory last reading n s).1.receive_outstanding ≤ℤ bound
unfolding fill_fifo
fill_fifo-outstanding memory last reading zero s bound h limit = h
fill_fifo-outstanding memory last true (suc n) s bound h limit = elim (Bool-cases (has_room s)) [
  | inl room ↦ rw room (elim (Bool-cases (may_request s)) [
    | inl more ↦ rw more (
        let command = command_bits last (suc n) s.need_restart in
        let kept = request-le command s bound more limit in
        fill_fifo-outstanding memory last true n (request_byte command s) bound kept.0 kept.1)
    | inr full ↦ rw full h
  ])
  | inr full ↦ rw full h
]
fill_fifo-outstanding memory last false (suc n) s bound h limit = elim (Bool-cases (has_room s)) [
  | inl room ↦ rw room (
      fill_fifo-outstanding memory last false n
        (send_byte memory (command_bits last (suc n) s.need_restart) s) bound h limit)
  | inr full ↦ rw full h
]

room-pos :
    (s : Fill)
    → has_room s ≡ true
    → pos_part (s.transaction_limit -ℤ pos 1) + 1 ≡ pos_part s.transaction_limit
unfolding has_room ◌-ℤ◌
room-pos s room = ground arith

-- The loop sends at most as many words as the transmit FIFO has room for.
fill_fifo-room :
    (memory : Memory) (last reading : Bool) (n : ℕ) (s : Fill)
    → n ≤ (fill_fifo memory last reading n s).0 + pos_part s.transaction_limit
unfolding fill_fifo
fill_fifo-room memory last reading zero s = omega arith
fill_fifo-room memory last true (suc n) s = elim (Bool-cases (has_room s)) [
  | inl room ↦ rw room (elim (Bool-cases (may_request s)) [
    | inl more ↦ rw more (
        omega (
          arith,
          room-pos s room,
          fill_fifo-room memory last true n
              (request_byte (command_bits last (suc n) s.need_restart) s),
        ))
    | inr full ↦ rw full (omega arith)
  ])
  | inr full ↦ rw full (omega arith)
]
fill_fifo-room memory last false (suc n) s = elim (Bool-cases (has_room s)) [
  | inl room ↦ rw room (
      omega (
        arith,
        room-pos s room,
        fill_fifo-room memory last false n
            (send_byte memory (command_bits last (suc n) s.need_restart) s),
      ))
  | inr full ↦ rw full (omega arith)
]

limit-le :
    (depth level : ℕ) → depth < 2 ^ 31 → level ≤ depth → to_int (sub32 depth level) ≤ℤ pos depth
limit-le depth level small h = ground arith

module _ (chip : Chip) (depth : ℕ) (small : depth < 2 ^ 31)
    (levels : (t : List Access) → chip t dw_ic_rxflr ≤ depth) where
  -- The receive FIFO has this depth, and no more bytes than that are asked for.
  pub record Within (d : Driver) : Type 0 where
    pub fifo : d.bus_device.receive_fifo_depth ≡ depth
    pub outstanding : d.bus_device.receive_outstanding ≤ℤ pos depth

  start-outstanding :
      (r : Bool) (d : Driver)
      → (fill_start chip r d).receive_outstanding ≡ d.bus_device.receive_outstanding
  unfolding fill_start
  start-outstanding r d = refl

  fill_start-limit :
      (r : Bool) (d : Driver) → Within d → (fill_start chip r d).receive_limit ≤ℤ pos depth
  unfolding fill_start
  fill_start-limit r d w =
      rw w.fifo (limit-le depth _ small (read_register-le chip dw_ic_rxflr depth _ levels))

  begin-Within : (m : Message) (r : Bool) (d : Driver) → Within d → Within (begin_message m r d).0
  unfolding begin_message
  begin-Within m r d w = record { fifo = w.fifo; outstanding = w.outstanding }

  fill-Within :
      (m : Message) (r : Bool) (d : Driver) → Within d → Within (fill_message chip m r d).0
  unfolding fill_message fill_loop
  fill-Within m r d w = record {
    fifo = w.fifo;
    outstanding =
        fill_fifo-outstanding d.memory _ _ d.bus_device.transaction_buffer_length
          (fill_start chip r d) (pos depth) (rw (start-outstanding r d) w.outstanding)
          (fill_start-limit r d w);
  }

  send_messages-Within :
      (address : ℕ) (ms : List Message) (r : Bool) (d : Driver)
      → Within d
      → Within (send_messages chip address ms r d)
  unfolding send_messages
  send_messages-Within address [] r d w = w
  send_messages-Within address (m ∷ ms) r d w =
      let begun = begin_message m r d in
      let filled = fill-Within m begun.1 begun.0 (begin-Within m r d w) in
      elim (Bool-cases (not (m.address == address) || (m.length == 0))) [
        | inl bad ↦ rw bad (record { fifo = w.fifo; outstanding = w.outstanding })
        | inr good ↦
            rw good
              (elim (Bool-cases
                (ltb 0 (fill_message chip m begun.1 begun.0).0.bus_device.transaction_buffer_length)
                  ) [
                    | inl more ↦ rw more filled
                    | inr done ↦ rw done (
                        send_messages-Within address ms (fill_message chip m begun.1 begun.0).1
                          (next_write (fill_message chip m begun.1 begun.0).0)
                          (record { fifo = filled.fifo; outstanding = filled.outstanding }))
                  ])
      ]

  send_from-Within : (ms : List Message) (d : Driver) → Within d → Within (send_from chip ms d)
  unfolding send_from
  send_from-Within [] d w = w
  send_from-Within (m ∷ ms) d w = send_messages-Within m.address (m ∷ ms) false d w

  -- On a chip with a depth below 2^31 that never reports more bytes in its receive FIFO than that, the handler never
  -- has more bytes asked for and not yet read than that FIFO holds, if it had not before.
  pub transfer_message_to_bus-Within :
      (d : Driver) → Within d → Within (transfer_message_to_bus chip d)
  unfolding transfer_message_to_bus
  transfer_message_to_bus-Within d w =
      let kept =
        send_from-Within (drop d.bus_device.message_write_index d.bus_device.messages) d w in
      record { fifo = kept.fifo; outstanding = kept.outstanding }
