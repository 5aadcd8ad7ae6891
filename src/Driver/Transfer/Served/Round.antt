-- ===== src/Driver/Transfer/Served/Round.antt =====
-- Interrupt after interrupt, such a transfer comes to its end, and the caller is woken.
use voodoo_i2c.Base.{
  ℕ, zero, suc, ◌+◌, ◌-◌, ◌≤◌, ◌<◌, ◌≡◌, refl, sym, ap, ◌∙◌, subst, true, false, List, [], ◌∷◌,
  ◌++◌, map, arith, replicate, length, ◌==◌, if◌then◌else◌,
}
use voodoo_i2c.Base.Words.{u32}
use voodoo_i2c.Base.Bits.{test_bit}
use voodoo_i2c.Base.Int.{pos}
use voodoo_i2c.Registers.{Chip, Port}
use voodoo_i2c.Registers.Laws.{IsMapped}
use voodoo_i2c.Driver.Constants.{write_in_progress, dw_ic_intr_mask}
use voodoo_i2c.Driver.Types.{Message, BusDevice, Driver, Memory}
use voodoo_i2c.Driver.Transmit.{transfer_message_to_bus, mask_after, send_from}
use voodoo_i2c.Driver.Transmit.Words.{sent, pending, pending_of, bare}
use voodoo_i2c.Driver.Transmit.Frame.{transfer_message_to_bus-Untouched}
use voodoo_i2c.Driver.Transmit.Stream.{
  transfer_message_to_bus-stream, transfer_message_to_bus-IsMapped,
}
use voodoo_i2c.Driver.Transmit.Refill.{bytes_left, messages_left, either_pos, HasDepths}
use voodoo_i2c.Driver.Transmit.Complete.{Advances, transfer-Advances, transfer-deep}
use voodoo_i2c.Driver.Interrupt.{wakeup}
use voodoo_i2c.Driver.Interrupt.Aside.{IsAside, write_register-KeepsAside}
use voodoo_i2c.Driver.Transfer.{Event, interrupt, awakened, deliver, deliver_early, command_sleep}
use voodoo_i2c.Driver.Transfer.Served.{
  stops, stops_since, mask_of, IsServing, HasSettings, IsWriting, HasStopped,
}
use voodoo_i2c.Driver.Transfer.Served.Trace.{last-write, since-write}
use voodoo_i2c.Driver.Transfer.Served.Calm.{IsCalm, calm-IsMapped, send_from-IsCalm}
use voodoo_i2c.Driver.Transfer.Served.Stops.{stops-append, stops-bare, stop_of, stops-pending}
use voodoo_i2c.Driver.Transfer.Served.Status.{handed, wakeup-sending}
use voodoo_i2c.Driver.Transfer.Served.Interrupts.{
  calm-HasSettings, calm-since, deliver-Fed, deliver-stop, deliver-idle,
}

-- The abort source is no part of what is left.
bytes_left-source :
    (source : ℕ) (b : BusDevice) (ms : List Message)
    → bytes_left (record b { abort_source = source }) ms ≡ bytes_left b ms
bytes_left-source source b [] = refl
bytes_left-source source b (m ∷ ms) = refl

pending-source :
    (memory : Memory) (source : ℕ) (b : BusDevice) (ms : List Message)
    → pending_of memory (record b { abort_source = source }) ms ≡ pending_of memory b ms
pending-source memory source b [] = refl
pending-source memory source b (m ∷ ms) = refl

stops-bare_append : (xs ys : List ℕ) → stops (map bare (xs ++ ys)) ≡ stops xs + stops ys
stops-bare_append xs ys = stops-bare (xs ++ ys) ∙ stops-append xs ys

-- The mask that is left with no error, and so many messages to come.
mask-left :
    (b : BusDevice) (ms : List Message)
    → b.message_error ≡ pos 0
    → b.message_write_index + length ms ≡ b.message_number
    → u32 (mask_after b) ≡ mask_of ms
unfolding mask_after
mask-left b ms no_error count = rw no_error (by_messages ms count)
  where
    by_messages :
        (ms : List Message)
        → b.message_write_index + length ms ≡ b.message_number
        → u32 (if b.message_write_index == b.message_number then 0x244 else 0x254) ≡ mask_of ms
    by_messages [] h = ground arith
    by_messages (m ∷ ms) h = ground arith

module _ (chip : Chip) where
  -- The mask is the last that the transmit handler writes; the other settings it keeps.
  transfer-HasSettings :
      (d : Driver) {base target mask : ℕ} (rest : List Message)
      → IsMapped d.port base
      → HasSettings target mask d.port
      → let e = transfer_message_to_bus chip d in
        e.bus_device.message_error ≡ pos 0
        → e.bus_device.message_write_index + length rest ≡ e.bus_device.message_number
        → HasSettings target (mask_of rest) e.port
  unfolding transfer_message_to_bus
  transfer-HasSettings d rest mp s no_error count =
      let ms = messages_left d.bus_device in
      let calm = send_from-IsCalm chip ms d mp in
      let kept = calm-HasSettings calm s in
      let m = calm-IsMapped mp calm in
      record {
        enabled = last-write m _ dw_ic_intr_mask _ ∙ kept.enabled;
        target_set = last-write m _ dw_ic_intr_mask _ ∙ kept.target_set;
        mask_set =
            last-write m _ dw_ic_intr_mask dw_ic_intr_mask
            ∙ mask-left (send_from chip ms d).bus_device rest no_error count;
      }

  transfer-balance :
      (d : Driver) {base : ℕ}
      → IsMapped d.port base
      → let e = transfer_message_to_bus chip d in
        stops_since e.port.trace + stops (sent d.port.trace)
        ≡ stops_since d.port.trace + stops (sent e.port.trace)
  unfolding transfer_message_to_bus
  transfer-balance d mp =
      let ms = messages_left d.bus_device in
      let calm = send_from-IsCalm chip ms d mp in
      let p = (send_from chip ms d).port in
      let mask = mask_after (send_from chip ms d).bus_device in
      omega (
        arith,
        calm.balance,
        since-write (calm-IsMapped mp calm) mask dw_ic_intr_mask refl,
        ap stops (write_register-KeepsAside mask dw_ic_intr_mask refl p).words,
      )

module _ {chip : Chip} (serving : IsServing chip) (base address target : ℕ) where
  -- An interrupt keeps the transfer going, with less to send.
  record Continues (m : Message) (ms : List Message) (d e : Driver) : Type 0 where
    rest : List Message
    writing : IsWriting base address target rest e
    line : e.line_enabled ≡ true
    fewer : bytes_left e.bus_device rest ≤ bytes_left d.bus_device (m ∷ ms) - 1

  -- The stops that are out, and one to come where a message is left.
  stops-left :
      (d : Driver) (ms : List Message)
      → IsWriting base address target ms d
      → stops_since d.port.trace + stop_of ms ≡ 1
  stops-left d ms w =
      let to_come =
        ap (λ l. stops (pending_of d.memory d.bus_device l)) w.left
        ∙ stops-pending address d.memory d.bus_device ms w.writes w.under_way w.count in
      ap (λ k. stops_since d.port.trace + k) (sym to_come) ∙ w.one_stop

  module _ (d : Driver) {m : Message} {ms : List Message}
      (w : IsWriting base address target (m ∷ ms) d) (p : Port) (calm : IsCalm d.port p)
      (aside : IsAside d.port p) where
    abbrev start : Driver
    start = handed d p d.bus_device.abort_source

    abbrev fed : Driver
    fed = transfer_message_to_bus chip start

    fed-depths : HasDepths start.bus_device
    fed-depths = record {
      to_send = w.depths.to_send;
      to_send_int = w.depths.to_send_int;
      to_receive = w.depths.to_receive;
      to_receive_int = w.depths.to_receive_int;
    }

    fed-Advances : Advances chip serving.drained address (m ∷ ms) start fed
    fed-Advances =
        transfer-Advances chip serving.drained address (m ∷ ms) start
          (calm-IsMapped w.clean.mapped calm) fed-depths w.under_way w.left w.writes

    fed-one_stop : stops_since fed.port.trace + stops (pending fed.memory fed.bus_device) ≡ 1
    fed-one_stop =
        let mp = calm-IsMapped w.clean.mapped calm in
        let stream =
          sym (stops-bare_append (sent fed.port.trace) (pending fed.memory fed.bus_device))
          ∙ ap stops (transfer_message_to_bus-stream chip start mp)
          ∙ stops-bare_append (sent p.trace) _ in
        let same = ap stops (
          pending-source d.memory d.bus_device.abort_source d.bus_device
            (messages_left d.bus_device)) in
        omega
          (arith, stream, same, transfer-balance chip start mp, calm-since calm aside, w.one_stop)

    fed-Continues : Continues m ms d (record fed { line_enabled = true })
    fed-Continues =
        let kept = transfer_message_to_bus-Untouched chip start in
        let mp = calm-IsMapped w.clean.mapped calm in
        let a = fed-Advances in
        let count = a.count ∙ w.count ∙ sym kept.device.message_number in
        let no_error = a.error ∙ w.clean.message_error in
        record {
          rest = a.rest;
          writing = record {
            clean = record {
              mapped = transfer_message_to_bus-IsMapped chip start mp;
              awake = kept.device.awake ∙ w.clean.awake;
              no_workaround = kept.device.workaround ∙ w.clean.no_workaround;
              registered = kept.registered ∙ w.clean.registered;
              message_error = no_error;
              command_error = kept.device.command_error ∙ w.clean.command_error;
              outstanding = a.outstanding ∙ w.clean.outstanding;
            };
            settings =
                transfer-HasSettings chip start a.rest mp (calm-HasSettings calm w.settings)
                  no_error count;
            depths = transfer-deep chip serving.drained start fed-depths;
            under_way = a.under_way;
            left = a.at;
            writes = a.writes;
            count = count;
            one_stop = fed-one_stop;
          };
          line = refl;
          fewer =
              omega
                (arith, a.fewer, bytes_left-source d.bus_device.abort_source d.bus_device (m ∷ ms));
        }

    fed-asleep : wakeup chip 0x10 fed ≡ (false, fed)
    fed-asleep =
        wakeup-sending chip fed (fed-Advances.error ∙ w.clean.message_error)
          ((transfer_message_to_bus-Untouched chip start).device.workaround ∙ w.clean.no_workaround)

  -- With a message left, an interrupt lets the caller sleep.
  deliver-Continues :
      (d : Driver) (m : Message) (ms : List Message)
      → IsWriting base address target (m ∷ ms) d
      → d.line_enabled ≡ true
      → ((deliver chip d).0 ≡ false) × Continues m ms d (deliver chip d).1
  deliver-Continues d m ms w line =
      let none_out : stops_since d.port.trace ≡ 0 = omega (arith, stops-left d (m ∷ ms) w) in
      let came = deliver-Fed serving d w.clean line w.settings none_out in
      let all : deliver chip d
          ≡ (false, record (fed d w came.port came.calm came.aside) { line_enabled = true }) =
        came.outcome
        ∙ ap (λ r. (r.0, record r.1 { line_enabled = true }))
            (fed-asleep d w came.port came.calm came.aside) in
      (
        ap (λ r. r.0) all,
        subst (λ r. Continues m ms d r.1) (sym all)
            (fed-Continues d w came.port came.calm came.aside),
      )

  -- The end of the transfer.
  abbrev pub Ended : Driver → Type 0
  Ended d = HasStopped base target d × (d.line_enabled ≡ true)

  pub early-Ended : (k : ℕ) (d : Driver) → Ended d → Ended (deliver_early chip k d)
  unfolding deliver_early
  early-Ended zero d ended = ended
  early-Ended (suc k) d (stopped, line) =
      early-Ended k (deliver chip d).1 (deliver-idle serving d stopped line)

  -- More interrupts than there are bytes wake the caller, with nothing left.
  pub sleep-Ended :
      (n : ℕ) (es : List Event) (d : Driver) (ms : List Message)
      → IsWriting base address target ms d
      → d.line_enabled ≡ true
      → bytes_left d.bus_device ms < n
      → let r = command_sleep chip (replicate n interrupt ++ es) d in (r.0 ≡ awakened) × Ended r.1
  unfolding command_sleep
  sleep-Ended zero es d ms w line h = absurd (omega (arith, h))
  sleep-Ended (suc n) es d [] w line h =
      let one_out : stops_since d.port.trace ≡ 1 = omega (arith, stops-left d [] w) in
      let (woken, stopped, on) = deliver-stop serving d w.clean line w.settings one_out w.left in
      rw (woken) (refl, (stopped, on))
  sleep-Ended (suc n) es d (m ∷ ms) w line h =
      let (asleep, next) = deliver-Continues d m ms w line in
      let some_left =
        either_pos (test_bit d.bus_device.status write_in_progress) _ m.length w.under_way
          w.writes.2 in
      rw asleep (
        sleep-Ended n es (deliver chip d).1 next.rest next.writing next.line
          (omega (arith, h, next.fewer, some_left)))
