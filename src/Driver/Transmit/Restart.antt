-- ===== src/Driver/Transmit/Restart.antt =====
-- Where the restart bit between two messages is sent, and where it is lost.
use voodoo_i2c.Base.{
  ℕ, zero, suc, ◌+◌, ◌==◌, ◌≡◌, refl, sym, ap, ◌∙◌, Bool, true, false, ltb, arith, Bool-cases, inl,
  inr, List, if_both, ◌++◌,
}
use voodoo_i2c.Registers.{Chip}
use voodoo_i2c.Registers.Laws.{IsMapped, write_IsMapped}
use voodoo_i2c.Driver.Types.{Memory, Message, Driver}
use voodoo_i2c.Driver.Transmit.{
  Fill, command_bits, request_byte, send_byte, has_room, may_request, fill_fifo, fill_loop,
  begin_message, fill_start, fill_message, store_fill, test_bit,
}
use voodoo_i2c.Driver.Constants.{i2c_m_rd, write_in_progress}
use voodoo_i2c.Driver.Transmit.Words.{plain, with_restart, sent, with_stop}
use voodoo_i2c.Driver.Transmit.Begun.{start-IsMapped, start-sent}
use voodoo_i2c.Driver.Transmit.Sent.{stream, request-stream, send-stream}

-- Behind the first word of a message no restart bit is wanted, and none is lost.
fill_fifo-stream_plain :
    (memory : Memory) (last reading : Bool) (n : ℕ) (s : Fill) {base : ℕ}
    → IsMapped s.port base
    → s.need_restart ≡ false
    → stream memory last reading (fill_fifo memory last reading n s)
      ≡ stream memory last reading (n, s)
unfolding fill_fifo
fill_fifo-stream_plain memory last reading zero s m none = refl
fill_fifo-stream_plain memory last true (suc n) s m none = elim (Bool-cases (has_room s)) [
  | inl room ↦ rw room (elim (Bool-cases (may_request s)) [
    | inl more ↦ rw more (
        fill_fifo-stream_plain memory last true n
          (request_byte (command_bits last (suc n) s.need_restart) s) (write_IsMapped m _ _) refl
        ∙ request-stream memory last n s m)
    | inr full ↦ rw (full, none) refl
  ])
  | inr full ↦ rw full refl
]
fill_fifo-stream_plain memory last false (suc n) s m none = elim (Bool-cases (has_room s)) [
  | inl room ↦ rw room (
      fill_fifo-stream_plain memory last false n
        (send_byte memory (command_bits last (suc n) s.need_restart) s) (write_IsMapped m _ _) refl
      ∙ send-stream memory last n s m)
  | inr full ↦ rw full refl
]

-- There is room for the first word of a message.
abbrev pub HasRoom : Bool → Fill → Type 0
HasRoom reading s = (has_room s ≡ true) × ((reading ≡ true) → may_request s ≡ true)

-- With room for its first word a message goes out as the reference says, its restart bit included:
-- over a mapped window the words sent, followed by the words left, are those of before, bit for bit.
pub fill_fifo-stream :
    (memory : Memory) (last reading : Bool) (n : ℕ) (s : Fill) {base : ℕ}
    → IsMapped s.port base
    → HasRoom reading s
    → stream memory last reading (fill_fifo memory last reading (suc n) s)
      ≡ stream memory last reading (suc n, s)
unfolding fill_fifo
fill_fifo-stream memory last true n s m (room, more) =
    rw (room, more refl)
      (fill_fifo-stream_plain memory last true n
          (request_byte (command_bits last (suc n) s.need_restart) s) (write_IsMapped m _ _) refl
        ∙ request-stream memory last n s m)
fill_fifo-stream memory last false n s m (room, more) = rw room (
    fill_fifo-stream_plain memory last false n
      (send_byte memory (command_bits last (suc n) s.need_restart) s) (write_IsMapped m _ _) refl
    ∙ send-stream memory last n s m)

fill_fifo-full :
    (memory : Memory) (last reading : Bool) (n : ℕ) (s : Fill)
    → has_room s ≡ false
    → fill_fifo memory last reading n s ≡ (n, s)
unfolding fill_fifo
fill_fifo-full memory last reading zero s full = refl
fill_fifo-full memory last reading (suc n) s full = rw full refl

fill_loop-full :
    (chip : Chip) (m : Message) (r : Bool) (d : Driver)
    → has_room (fill_start chip r d) ≡ false
    → fill_loop chip m r d ≡ (d.bus_device.transaction_buffer_length, fill_start chip r d)
unfolding fill_loop
fill_loop-full chip m r d full =
    fill_fifo-full d.memory _ _ d.bus_device.transaction_buffer_length _ full

-- Without a restart bit wanted none is wanted behind the loop.
fill_fifo-need_restart :
    (memory : Memory) (last reading : Bool) (n : ℕ) (s : Fill)
    → s.need_restart ≡ false
    → (fill_fifo memory last reading n s).1.need_restart ≡ false
unfolding fill_fifo
fill_fifo-need_restart memory last reading zero s none = none
fill_fifo-need_restart memory last reading (suc n) s none =
    let command = command_bits last (suc n) s.need_restart in
    let unwanted = λ (r : ℕ × Fill). r.1.need_restart ≡ false in
    if_both {A = ℕ × Fill} unwanted (has_room s)
      (if_both {A = ℕ × Fill} unwanted reading
        (if_both {A = ℕ × Fill} unwanted (may_request s)
          (fill_fifo-need_restart memory last reading n (request_byte command s) refl) refl)
        (fill_fifo-need_restart memory last reading n (send_byte memory command s) refl))
      none

-- The words of the message under way, without a restart bit.
abbrev pub unmarked : Message → Driver → ℕ → ℕ → List ℕ
unmarked m d buffer n =
    with_stop (d.bus_device.message_write_index + 1 == d.bus_device.message_number)
      (plain d.memory (test_bit m.flags i2c_m_rd) buffer n)

-- What a visit of a message has sent and has left, where no restart bit is wanted.
visit-unmarked :
    (chip : Chip) (m : Message) (d : Driver) {base : ℕ}
    → IsMapped d.port base
    → let (n, s) = fill_loop chip m false d in
      sent s.port.trace ++ unmarked m d s.buffer n
      ≡ sent d.port.trace
        ++ unmarked m d d.bus_device.transaction_buffer d.bus_device.transaction_buffer_length
unfolding fill_loop fill_start
visit-unmarked chip m d mp =
    let last = d.bus_device.message_write_index + 1 == d.bus_device.message_number in
    let reading = test_bit m.flags i2c_m_rd in
    let start = fill_start chip false d in
    let n = d.bus_device.transaction_buffer_length in
    let (left, s) = fill_fifo d.memory last reading n start in
    ap (λ b. sent s.port.trace ++ with_restart b (unmarked m d s.buffer left))
      (sym (fill_fifo-need_restart d.memory last reading n start refl))
    ∙ fill_fifo-stream_plain d.memory last reading n start (start-IsMapped chip false d mp) refl
    ∙ ap (λ t. t ++ unmarked m d d.bus_device.transaction_buffer n) (start-sent chip false d mp)

-- A message that is under way is not begun again.
begin-going :
    (m : Message) (d : Driver)
    → test_bit d.bus_device.status write_in_progress ≡ true
    → begin_message m false d ≡ (d, false)
unfolding begin_message
begin-going m d going = rw going refl

-- A restart bit is lost. If, over a mapped window, there is no room in the FIFOs when a message with
-- bytes is begun, whether a restart bit is wanted or not, no word of it is sent, and the next visit of
-- it, whatever the block answers then, wants no restart bit: the words that it sends, with those left
-- behind it, are those of the message without one, bit for bit.
pub restart_lost :
    (chip chip' : Chip) (m : Message) (r : Bool) (d : Driver) {base : ℕ}
    → IsMapped d.port base
    → has_room (fill_start chip r d) ≡ false
    → ltb 0 d.bus_device.transaction_buffer_length ≡ true
    → let d' = (fill_message chip m r d).0 in
      let (begun, wanted) = begin_message m false d' in
      let (n, s) = fill_loop chip' m wanted begun in
      (sent d'.port.trace ≡ sent d.port.trace)
      × (wanted ≡ false)
      × (sent s.port.trace ++ unmarked m d s.buffer n
          ≡ sent d.port.trace
            ++ unmarked m d d.bus_device.transaction_buffer d.bus_device.transaction_buffer_length)
unfolding fill_message fill_start
restart_lost chip chip' m r d mp full some_left =
    let n = d.bus_device.transaction_buffer_length in
    let start = fill_start chip r d in
    let e = store_fill d (n, start) in
    let going : test_bit e.bus_device.status write_in_progress ≡ true =
      rw some_left (ground arith) in
    rw (fill_loop-full chip m r d full) (
      rw (begin-going m e going) (
        start-sent chip r d mp,
        refl,
        visit-unmarked chip' m e (start-IsMapped chip r d mp)
            ∙ ap (λ t. t ++ unmarked m d d.bus_device.transaction_buffer n)
                (start-sent chip r d mp),
      ))
