-- ===== src/Driver/Transmit/Refill.antt =====
-- One message of a transfer that writes, with both FIFOs empty: each call gets on with it.
use voodoo_i2c.Base.{
  ℕ, zero, suc, ◌+◌, ◌≤◌, ◌<◌, ◌^◌, ◌≡◌, refl, sym, ap, ◌∙◌, subst, Bool, true, false, not, ◌||◌,
  ◌&&◌, List, [], ◌∷◌, ◌==◌, ltb, if◌then◌else◌, drop, arith, if_both,
}
use mathlib.Core.Bool.{false≢true}
use voodoo_i2c.Base.Words.{u32}
use voodoo_i2c.Base.Bits.{test_bit, set_bit, clear_bit}
use voodoo_i2c.Registers.{Access, Chip}
use voodoo_i2c.Registers.Laws.{IsMapped, read_mapped, read_IsMapped}
use voodoo_i2c.Driver.Constants.{write_in_progress, dw_ic_txflr, dw_ic_rxflr}
use voodoo_i2c.Driver.Types.{Message, BusDevice, Driver}
use voodoo_i2c.Driver.Transmit.{
  Fill, fill_fifo, has_room, fill_loop, fill_start, begin_message, fill_message, next_write, ltb_ℤ,
  Memory, pos, to_int, sub32, Port, read_register,
}
use voodoo_i2c.Driver.Transmit.Words.{is_read}
use voodoo_i2c.Driver.Transmit.Begun.{set-clear, set-set, start-IsMapped}
use voodoo_i2c.Driver.Transmit.Sent.{fill_fifo-IsMapped}
use voodoo_i2c.Driver.Transmit.Progress.{fill_fifo-progress}

-- Messages that write to one address, none of them empty.
abbrev pub Writes : ℕ → List Message → Type 0
Writes address [] = Unit
Writes address (m ∷ ms) =
    (is_read m ≡ false) × (m.address ≡ address) × (0 < m.length) × Writes address ms

abbrev pub total_length : List Message → ℕ
total_length [] = 0
total_length (m ∷ ms) = m.length + total_length ms

-- The bytes that are still to be sent of the messages from the index on.
abbrev pub bytes_left : BusDevice → List Message → ℕ
bytes_left b [] = 0
bytes_left b (m ∷ ms) =
    (if test_bit b.status write_in_progress then b.transaction_buffer_length else m.length)
    + total_length ms

abbrev pub messages_left : BusDevice → List Message
messages_left b = drop b.message_write_index b.messages

-- Both FIFOs are empty, whenever the handler asks.
pub record IsDrained (chip : Chip) : Type 0 where
  pub nothing_to_send : (t : List Access) → chip t dw_ic_txflr ≡ 0
  pub nothing_received : (t : List Access) → chip t dw_ic_rxflr ≡ 0

-- Each FIFO has a place, and its depth is a positive int.
pub record HasDepths (b : BusDevice) : Type 0 where
  pub to_send : 0 < b.transaction_fifo_depth
  pub to_send_int : b.transaction_fifo_depth < 2 ^ 31
  pub to_receive : 0 < b.receive_fifo_depth
  pub to_receive_int : b.receive_fifo_depth < 2 ^ 31

module _ (chip : Chip) (drained : IsDrained chip) where
  level_zero :
      (offset : ℕ) {p : Port} {base : ℕ}
      → IsMapped p base
      → ((t : List Access) → chip t offset ≡ 0)
      → (read_register chip offset p).0 ≡ 0
  level_zero offset {p} mp zero_there =
      ap (λ r. r.0) (read_mapped mp chip offset) ∙ ap u32 (zero_there p.trace)

  has_room-start :
      (r : Bool) (d : Driver) {base : ℕ}
      → IsMapped d.port base
      → HasDepths d.bus_device
      → has_room (fill_start chip r d) ≡ true
  unfolding has_room fill_start
  has_room-start r d mp deep =
      let first = level_zero dw_ic_txflr mp drained.nothing_to_send in
      let second =
        level_zero dw_ic_rxflr (read_IsMapped mp chip dw_ic_txflr) drained.nothing_received in
      rw (first, second)
        (positive d.bus_device.transaction_fifo_depth d.bus_device.receive_fifo_depth deep.to_send
          deep.to_send_int deep.to_receive deep.to_receive_int)
    where
      positive :
          (a b : ℕ)
          → 0 < a
          → a < 2 ^ 31
          → 0 < b
          → b < 2 ^ 31
          → (ltb_ℤ (pos 0) (to_int (sub32 a 0)) && ltb_ℤ (pos 0) (to_int (sub32 b 0))) ≡ true
      positive a b h i j k = ground arith

-- The loop over the bytes of a message that writes leaves fewer than there were.
fill_fifo-fewer :
    (memory : Memory) (last : Bool) (n : ℕ) (s : Fill)
    → 0 < n
    → has_room s ≡ true
    → (fill_fifo memory last false n s).0 + 1 ≤ n
fill_fifo-fewer memory last zero s h room = absurd (omega arith)
fill_fifo-fewer memory last (suc n) s h room =
    omega (arith, fill_fifo-progress memory last false n s (room, λ e. absurd (false≢true e)))

-- The message is begun and filled.
unfoldable pub one : Chip → Message → Bool → Driver → Driver × Bool
one chip m r d = fill_message chip m (begin_message m r d).1 (begin_message m r d).0

-- What one message leaves.
pub record Sends (m : Message) (d e : Driver) (base : ℕ) : Type 0 where
  pub index : e.bus_device.message_write_index ≡ d.bus_device.message_write_index
  pub messages : e.bus_device.messages ≡ d.bus_device.messages
  pub error : e.bus_device.message_error ≡ d.bus_device.message_error
  pub outstanding : e.bus_device.receive_outstanding ≡ d.bus_device.receive_outstanding
  pub send_depth : e.bus_device.transaction_fifo_depth ≡ d.bus_device.transaction_fifo_depth
  pub receive_depth : e.bus_device.receive_fifo_depth ≡ d.bus_device.receive_fifo_depth
  pub mapped : IsMapped e.port base
  pub fewer : e.bus_device.transaction_buffer_length + 1 ≤ bytes_left d.bus_device (m ∷ [])
  pub status :
      test_bit e.bus_device.status write_in_progress ≡ ltb 0 e.bus_device.transaction_buffer_length

status-ltb :
    (status n : ℕ)
    → test_bit
        (if ltb 0 n then set_bit status write_in_progress else clear_bit status write_in_progress)
        write_in_progress
      ≡ ltb 0 n
status-ltb status n = ground (arith, set-clear status n, set-set status n)

pub either_pos : (b : Bool) (x y : ℕ) → (b ≡ true → 0 < x) → 0 < y → 0 < (if b then x else y)
either_pos true x y h k = h refl
either_pos false x y h k = k

fill_loop-fewer :
    (chip : Chip) (m : Message) (r : Bool) (d : Driver)
    → is_read m ≡ false
    → 0 < d.bus_device.transaction_buffer_length
    → has_room (fill_start chip r d) ≡ true
    → (fill_loop chip m r d).0 + 1 ≤ d.bus_device.transaction_buffer_length
unfolding fill_loop
fill_loop-fewer chip m r d writing h room =
    rw (writing) (fill_fifo-fewer d.memory _ d.bus_device.transaction_buffer_length _ h room)

pub ltb_pos : (n : ℕ) → ltb 0 n ≡ true → 0 < n
ltb_pos n h = ground arith

-- With no message under way all bytes of the messages are left.
pub bytes_left-idle :
    (b : BusDevice) (ms : List Message)
    → test_bit b.status write_in_progress ≡ false
    → bytes_left b ms ≡ total_length ms
bytes_left-idle b [] h = refl
bytes_left-idle b (m ∷ ms) h = rw h refl

pub deep_after :
    {m : Message} (d e : Driver) {base : ℕ}
    → Sends m d e base
    → HasDepths d.bus_device
    → HasDepths (next_write e).bus_device
deep_after d e sends deep =
    let s = sends.send_depth in
    let r = sends.receive_depth in
    record {
      to_send = subst (λ n. 0 < n) (sym s) deep.to_send;
      to_send_int = subst (λ n. n < 2 ^ 31) (sym s) deep.to_send_int;
      to_receive = subst (λ n. 0 < n) (sym r) deep.to_receive;
      to_receive_int = subst (λ n. n < 2 ^ 31) (sym r) deep.to_receive_int;
    }

pub good_test :
    (m : Message) (address : ℕ)
    → m.address ≡ address
    → 0 < m.length
    → (not (m.address == address) || (m.length == 0)) ≡ false
good_test m address e h = ground arith

-- A message that writes asks for no byte.
fill_fifo-outstanding :
    (memory : Memory) (last : Bool) (n : ℕ) (s : Fill)
    → (fill_fifo memory last false n s).1.receive_outstanding ≡ s.receive_outstanding
unfolding fill_fifo
fill_fifo-outstanding memory last zero s = refl
fill_fifo-outstanding memory last (suc n) s =
    if_both {A = ℕ × Fill} (λ r. r.1.receive_outstanding ≡ s.receive_outstanding) (has_room s)
      (fill_fifo-outstanding memory last n _) refl

fill_loop-outstanding :
    (chip : Chip) (m : Message) (r : Bool) (d : Driver)
    → is_read m ≡ false
    → (fill_loop chip m r d).1.receive_outstanding ≡ d.bus_device.receive_outstanding
unfolding fill_loop fill_start
fill_loop-outstanding chip m r d writing =
    rw (writing) (
      fill_fifo-outstanding d.memory _ d.bus_device.transaction_buffer_length (fill_start chip r d))

-- A message under way has bytes left.
abbrev pub IsUnderWay : BusDevice → Type 0
IsUnderWay b = test_bit b.status write_in_progress ≡ true → 0 < b.transaction_buffer_length

module _ (chip : Chip) (drained : IsDrained chip) where
  pub one-Sends :
      (m : Message) (r : Bool) (d : Driver) {base : ℕ}
      → IsMapped d.port base
      → HasDepths d.bus_device
      → is_read m ≡ false
      → 0 < m.length
      → IsUnderWay d.bus_device
      → Sends m d (one chip m r d).0 base
  unfolding one fill_message begin_message fill_loop
  one-Sends m r d mp deep writing some_bytes under_way =
      let (begun, wants) = begin_message m r d in
      let still : HasDepths begun.bus_device = record {
        to_send = deep.to_send;
        to_send_int = deep.to_send_int;
        to_receive = deep.to_receive;
        to_receive_int = deep.to_receive_int;
      } in
      record {
        index = refl;
        messages = refl;
        error = refl;
        outstanding = fill_loop-outstanding chip m wants begun writing;
        send_depth = refl;
        receive_depth = refl;
        mapped = fill_fifo-IsMapped d.memory _ _ _ _ (start-IsMapped chip wants begun mp);
        fewer = omega (
          arith,
          fill_loop-fewer chip m wants begun writing
              (either_pos (test_bit d.bus_device.status write_in_progress) _ m.length under_way
                some_bytes)
              (has_room-start chip drained wants begun mp still),
        );
        status = status-ltb d.bus_device.status _;
      }
