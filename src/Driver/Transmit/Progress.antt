-- ===== src/Driver/Transmit/Progress.antt =====
-- The loop over one message's bytes gets on.
use voodoo_i2c.Base.{refl, ℕ, zero, suc, ◌≤◌, Bool, true, false, Bool-cases, inl, inr, arith}
use voodoo_i2c.Driver.Types.{Memory}
use voodoo_i2c.Driver.Transmit.{
  Fill, fill_fifo, has_room, may_request, request_byte, send_byte, command_bits,
}
use voodoo_i2c.Driver.Transmit.Restart.{HasRoom}

fill_fifo-le :
    (memory : Memory) (last reading : Bool) (n : ℕ) (s : Fill)
    → (fill_fifo memory last reading n s).0 ≤ n
unfolding fill_fifo
fill_fifo-le memory last reading zero s = omega arith
fill_fifo-le memory last true (suc n) s =
    let rest =
      fill_fifo-le memory last true n (request_byte (command_bits last (suc n) s.need_restart) s) in
    elim (Bool-cases (has_room s)) [
      | inl room ↦ rw room (elim (Bool-cases (may_request s)) [
        | inl more ↦ rw more (omega (arith, rest))
        | inr full ↦ rw full (omega arith)
      ])
      | inr full ↦ rw full (omega arith)
    ]
fill_fifo-le memory last false (suc n) s =
    let rest =
      fill_fifo-le memory last false n
        (send_byte memory (command_bits last (suc n) s.need_restart) s) in
    elim (Bool-cases (has_room s)) [
      | inl room ↦ rw room (omega (arith, rest))
      | inr full ↦ rw full (omega arith)
    ]

-- With room for its first word, a message with bytes left gets on: fewer are left behind the loop.
pub fill_fifo-progress :
    (memory : Memory) (last reading : Bool) (n : ℕ) (s : Fill)
    → HasRoom reading s
    → (fill_fifo memory last reading (suc n) s).0 ≤ n
unfolding fill_fifo
fill_fifo-progress memory last true n s (room, more) =
    rw (room, more refl) (fill_fifo-le memory last true n _)
fill_fifo-progress memory last false n s (room, more) = rw room (fill_fifo-le memory last false n _)
