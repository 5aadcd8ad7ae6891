-- ===== src/Driver/Transfer/Delivery.antt =====
-- A whole transfer: what goes out and what comes in.

use voodoo_i2c.Base.{ℕ, ◌≡◌, ap, ◌∙◌, List, ◌++◌, length, map, if_both}
use voodoo_i2c.Base.Bits.{test_bit}
use voodoo_i2c.Registers.{Chip, Port}
use voodoo_i2c.Registers.Laws.{IsMapped}
use voodoo_i2c.Driver.Constants.{con_restart_en}
use voodoo_i2c.Driver.Types.{IoReturn, success, is_success, Message, Driver}
use voodoo_i2c.Driver.Bus.{wait_bus_not_busy_i2c}
use voodoo_i2c.Driver.Bus.Aside.{wait_bus_not_busy_i2c-KeepsAside}
use voodoo_i2c.Driver.Transmit.Words.{sent, bare, pending, words_from}
use voodoo_i2c.Driver.Transmit.Sources.{sources_of}
use voodoo_i2c.Driver.Receive.Slots.{received, slots, slots_of, store_all}
use voodoo_i2c.Driver.Interrupt.Aside.{IsAside}
use voodoo_i2c.Driver.Interrupt.Joined.{IsApart, Joined, Joined-trans}
use voodoo_i2c.Driver.Transfer.Steps.{
  port_only, request_port-IsAside, early-error_before, early-Joined, sleep-error_before,
  sleep-Joined, finish-no_error, finish-Joined,
}
use voodoo_i2c.Driver.Transfer.{
  Schedule, deliver_early, command_sleep, request_transfer_i2c, reset_transfer, run_transfer,
  prepare_transfer_i2c,
}
use mathlib.Core.List.{Memᴰ}

-- What a transfer of the messages has sent, and has still to send, is what they stand for, but for
-- the restart bits; what has come in stands in the buffers of the messages that read, in order, and
-- nothing else has changed in memory.
pub record IsDelivered (messages : List Message) (d e : Driver) : Type 0 where
  pub words :
      map bare (sent e.port.trace ++ pending e.memory e.bus_device)
      ≡ map bare (
          sent d.port.trace
          ++ words_from d.memory
              (test_bit d.bus_device.bus_config con_restart_en)
              0
              (length messages)
              messages)
  pub used : List ℕ
  pub came : List ℕ
  pub slots_split : slots_of messages ≡ used ++ slots e.bus_device
  pub bytes_grow : received e.port.trace ≡ received d.port.trace ++ came
  pub one_each : length used ≡ length came
  pub stored : e.memory ≡ store_all d.memory used came

-- The buffers of the messages that write and of those that read have no address in common.
abbrev pub HasApartBuffers : List Message → Type 0
HasApartBuffers messages = (a : ℕ) → Memᴰ a (slots_of messages) → Memᴰ a (sources_of messages) → ⊥

module _ (chip : Chip) (schedule : Schedule) (messages : List Message) where
  reset : Driver → Driver
  reset d = record d { bus_device = reset_transfer messages d.bus_device }

  Joined-IsDelivered : (d e : Driver) → Joined (reset d) e → IsDelivered messages d e
  unfolding reset reset_transfer
  Joined-IsDelivered d e j = record {
    words = j.words;
    used = j.used;
    came = j.came;
    slots_split = j.slots_split;
    bytes_grow = j.bytes_grow;
    one_each = j.one_each;
    stored = j.stored;
  }

  reset-IsApart : (d : Driver) → HasApartBuffers messages → IsApart (reset d).bus_device
  unfolding reset reset_transfer
  reset-IsApart d apart = apart

  run-Joined :
      (d : Driver) {base : ℕ}
      → IsMapped d.port base
      → HasApartBuffers messages
      → (run_transfer chip schedule messages d).0 ≡ success
      → Joined (reset d) (run_transfer chip schedule messages d).1
  unfolding run_transfer request_transfer_i2c reset
  run-Joined d {base} mp apart h =
      let requested = request_transfer_i2c chip (reset d) in
      let early = deliver_early chip schedule.before_sleep requested in
      let (slept, d₂) = command_sleep chip schedule.during_sleep early in
      let late = deliver_early chip schedule.after_sleep d₂ in
      let none_behind = finish-no_error chip slept late h in
      let none_between = early-error_before chip schedule.after_sleep d₂ none_behind in
      let none_before = sleep-error_before chip schedule.during_sleep early none_between in
      let asked =
        port_only (reset d) requested.port (request_port-IsAside chip (reset d) _)
          (reset-IsApart d apart) in
      let first =
        early-Joined chip schedule.before_sleep requested (asked.window base mp) asked.apart
          none_before in
      let second =
        sleep-Joined chip schedule.during_sleep early (first.window base (asked.window base mp))
          first.apart none_between in
      let third =
        early-Joined chip schedule.after_sleep d₂
          (second.window base (first.window base (asked.window base mp))) second.apart
          none_behind in
      Joined-trans asked (
        Joined-trans first
          (Joined-trans second (Joined-trans third (finish-Joined chip slept late third.apart))))

  -- The wait before the transfer sends and receives nothing.
  waited-IsDelivered :
      (d e : Driver) (p : Port)
      → IsAside d.port p
      → IsDelivered messages (record d { port = p }) e
      → IsDelivered messages d e
  waited-IsDelivered d e p aside f = record {
    words =
        f.words
        ∙ ap
            (λ t. map bare (
              t
              ++ words_from d.memory (test_bit d.bus_device.bus_config con_restart_en) 0
                  (length messages) messages))
            aside.words;
    used = f.used;
    came = f.came;
    slots_split = f.slots_split;
    bytes_grow = f.bytes_grow ∙ ap (λ t. t ++ f.came) aside.bytes;
    one_each = f.one_each;
    stored = f.stored;
  }

-- A transfer that reports success, whatever the chip answers and whatever interrupts come: over a
-- mapped window, and with the buffers to write apart from those to read, the words sent and those
-- still to be sent are those of the messages, in order and but for the restart bits, and the bytes
-- that came in were stored at the first addresses of the buffers to read, one each, and memory is
-- otherwise as before.
pub prepare_transfer_i2c-IsDelivered :
    (chip : Chip) (schedule : Schedule) (messages : List Message) (d : Driver) {base : ℕ}
    → IsMapped d.port base
    → HasApartBuffers messages
    → (prepare_transfer_i2c chip schedule messages d).0 ≡ success
    → IsDelivered messages d (prepare_transfer_i2c chip schedule messages d).1
unfolding prepare_transfer_i2c
prepare_transfer_i2c-IsDelivered chip schedule messages d {base} mp apart =
    let aside = wait_bus_not_busy_i2c-KeepsAside chip d.port in
    let waited = record d { port = (wait_bus_not_busy_i2c chip d.port).1 } in
    let still : IsMapped waited.port base = record {
      mapped = aside.window ∙ mp.mapped;
      nonzero = mp.nonzero;
    } in
    if_both {A = IoReturn × Driver} (λ r. r.0 ≡ success → IsDelivered messages d r.1)
      d.bus_device.awake
      (if_both {A = IoReturn × Driver} (λ r. r.0 ≡ success → IsDelivered messages d r.1)
        (is_success (wait_bus_not_busy_i2c chip d.port).0)
        (λ h. waited-IsDelivered chip schedule messages d _ waited.port aside (
          Joined-IsDelivered chip schedule messages waited _
            (run-Joined chip schedule messages waited still apart h)))
        (λ h. cc))
      (λ h. cc)
