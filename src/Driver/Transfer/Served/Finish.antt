-- ===== src/Driver/Transfer/Served/Finish.antt =====
-- The whole of a transfer that the block serves, from the wait for the bus to the result.
use voodoo_i2c.Base.{
  ℕ, ◌<◌, ◌≡◌, refl, sym, ap, ◌∙◌, subst, Bool, true, List, [], ◌∷◌, ◌++◌, map, if◌then◌else◌,
  length, append-nil,
}
use voodoo_i2c.Base.Bits.{test_bit}
use voodoo_i2c.Base.Int.{pos}
use voodoo_i2c.Registers.{Chip, Port}
use voodoo_i2c.Registers.Laws.{IsMapped}
use voodoo_i2c.Driver.Constants.{con_restart_en, dw_ic_tar}
use voodoo_i2c.Driver.Types.{IoReturn, BusState, success, is_success, Message, BusDevice, Driver}
use voodoo_i2c.Driver.Bus.{wait_bus_not_busy_i2c}
use voodoo_i2c.Driver.Bus.Wait.{wait_loop-suc}
use voodoo_i2c.Driver.Bus.Aside.{wait_bus_not_busy_i2c-KeepsAside}
use voodoo_i2c.Driver.Transmit.Words.{sent, bare, words_from}
use voodoo_i2c.Driver.Transmit.Complete.{nothing_pending}
use voodoo_i2c.Driver.Receive.Slots.{slots_of}
use voodoo_i2c.Driver.Transfer.Delivery.{HasApartBuffers, prepare_transfer_i2c-IsDelivered}
use mathlib.Core.List.{Memᴰ}
use mathlib.Core.List.Memᴰ.{not-nil}
use voodoo_i2c.Driver.Transmit.Refill.{Writes, total_length, messages_left}
use voodoo_i2c.Driver.Transfer.{
  Event, deliver_early, transfer_result, finish_transfer, run_transfer, prepare_transfer_i2c,
}
use voodoo_i2c.Driver.Transfer.Served.{last_write, IsServing}
use voodoo_i2c.Driver.Transfer.Served.Settings.{target_of, toggle_bus_state-target}
use voodoo_i2c.Driver.Transfer.Served.Calm.{aside-IsMapped}
use voodoo_i2c.Driver.Transfer.Served.Round.{early-Ended, sleep-Ended}
use voodoo_i2c.Driver.Transfer.Served.Request.{
  IsStarted, served_schedule, requested, requested-IsWriting, line_kept, all_left,
}

-- The wait over a block that is not active.
waited-success :
    (chip : Chip) (p : Port) {base : ℕ}
    → IsMapped p base
    → IsServing chip
    → (wait_bus_not_busy_i2c chip p).0 ≡ success
unfolding wait_bus_not_busy_i2c
waited-success chip p mp serving =
    ap (λ r. r.0) (wait_loop-suc chip 2999 mp) ∙ (rw (serving.no_activity p.trace) refl)

no_failure :
    (b : BusDevice) → b.message_error ≡ pos 0 → b.command_error ≡ 0 → transfer_result b ≡ success
unfolding transfer_result
no_failure b no_message_error no_command_error = rw (no_message_error, no_command_error) refl

-- Of messages that write no byte is stored.
Writes-slots : (address : ℕ) (ms : List Message) → Writes address ms → slots_of ms ≡ []
Writes-slots address [] w = refl
Writes-slots address (m ∷ ms) w = rw (w.0) (Writes-slots address ms w.3)

-- Success, with no message left, and the address of the message in the block.
abbrev HasEnded : Message → IoReturn × Driver → Type 0
HasEnded m r =
    (r.0 ≡ success)
    × (messages_left r.1.bus_device ≡ [])
    × (last_write dw_ic_tar r.1.port.trace ≡ target_of m)

-- What the then-branch has, the whole has.
if_true :
    {A : Type 0} (P : A → Type 0) (b : Bool) {x : A} (y : A)
    → b ≡ true
    → P x
    → P (if b then x else y)
if_true P b {x} y e h = subst (λ c. P (if c then x else y)) (sym e) h

module _ (chip : Chip) (address base : ℕ) (m : Message) (ms : List Message) where
  -- Behind the request, the sleep and what comes after it.
  run-Ended :
      (n k : ℕ) (es : List Event) (d : Driver)
      → IsStarted base d
      → IsServing chip
      → Writes address (m ∷ ms)
      → total_length (m ∷ ms) < n
      → let r = run_transfer chip (served_schedule n k es) (m ∷ ms) d in
        (r.0 ≡ success)
        × (messages_left r.1.bus_device ≡ [])
        × (last_write dw_ic_tar r.1.port.trace ≡ target_of m)
  unfolding run_transfer deliver_early finish_transfer
  run-Ended n k es d started serving w h =
      let (slept, ended) =
        sleep-Ended serving base address (target_of m) n es (requested chip m ms d) (m ∷ ms)
          (requested-IsWriting chip m ms address base d started w)
          (line_kept chip m ms d started.line) (all_left chip m ms d h) in
      let (stopped, line) = early-Ended serving base address (target_of m) k _ ended in
      rw slept (
        no_failure _ stopped.clean.message_error stopped.clean.command_error,
        stopped.left,
        toggle_bus_state-target chip BusState.off _ stopped.clean.mapped
            ∙ stopped.settings.target_set,
      )

  prepare-Ended :
      (n k : ℕ) (es : List Event) (d : Driver)
      → IsStarted base d
      → IsServing chip
      → Writes address (m ∷ ms)
      → total_length (m ∷ ms) < n
      → let r = prepare_transfer_i2c chip (served_schedule n k es) (m ∷ ms) d in
        (r.0 ≡ success)
        × (messages_left r.1.bus_device ≡ [])
        × (last_write dw_ic_tar r.1.port.trace ≡ target_of m)
  unfolding prepare_transfer_i2c
  prepare-Ended n k es d started serving w h =
      let (waited, p) = wait_bus_not_busy_i2c chip d.port in
      let aside = wait_bus_not_busy_i2c-KeepsAside chip d.port in
      let after : Driver = record d { port = p } in
      let ran = run_transfer chip (served_schedule n k es) (m ∷ ms) after in
      if_true (HasEnded m) d.bus_device.awake _ started.awake (
        if_true (HasEnded m) (is_success waited) _
          (ap is_success (waited-success chip d.port started.mapped serving))
          (run-Ended n k es after
            (record {
              mapped = aside-IsMapped started.mapped aside;
              depths = started.depths;
              awake = started.awake;
              no_workaround = started.no_workaround;
              registered = started.registered;
              line = started.line;
            })
            serving w h))

  Writes-HasApartBuffers : Writes address (m ∷ ms) → HasApartBuffers (m ∷ ms)
  Writes-HasApartBuffers w a in_slots in_sources =
      absurd (not-nil (subst (λ l. Memᴰ a l) (Writes-slots address (m ∷ ms) w) in_slots))

  -- On a block that serves it and is idle, with no workaround needed, a transfer that writes to one
  -- address, no message empty, ends well if more interrupts come during the sleep than there are bytes,
  -- and none before it: it returns success, no message is left, the target address of the block is that
  -- of the messages, and their words were sent, in order and but for restart bits, and no others.
  pub prepare_transfer_i2c-served :
      (n k : ℕ) (es : List Event) (d : Driver)
      → IsStarted base d
      → IsServing chip
      → Writes address (m ∷ ms)
      → total_length (m ∷ ms) < n
      → let r = prepare_transfer_i2c chip (served_schedule n k es) (m ∷ ms) d in
        (r.0 ≡ success)
        × (messages_left r.1.bus_device ≡ [])
        × (last_write dw_ic_tar r.1.port.trace ≡ target_of m)
        × (map bare (sent r.1.port.trace)
            ≡ map bare (
                sent d.port.trace
                ++ words_from d.memory
                    (test_bit d.bus_device.bus_config con_restart_en)
                    0
                    (length (m ∷ ms))
                    (m ∷ ms)))
  prepare_transfer_i2c-served n k es d started serving w h =
      let (succeeded, none_left, addressed) = prepare-Ended n k es d started serving w h in
      let r = prepare_transfer_i2c chip (served_schedule n k es) (m ∷ ms) d in
      let delivered =
        prepare_transfer_i2c-IsDelivered chip (served_schedule n k es) (m ∷ ms) d started.mapped
          (Writes-HasApartBuffers w) succeeded in
      (
        succeeded,
        none_left,
        addressed,
        ap (map bare) (
              sym (append-nil (sent r.1.port.trace))
              ∙ ap (λ t. sent r.1.port.trace ++ t)
                  (sym (nothing_pending chip serving.drained r.1 none_left)))
            ∙ delivered.words,
      )
