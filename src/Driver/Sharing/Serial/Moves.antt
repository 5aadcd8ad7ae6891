-- ===== src/Driver/Sharing/Serial/Moves.antt =====
-- One part of a call, and the calls that are over behind it.
use voodoo_i2c.Base.{ℕ, ◌≡◌, refl, sym, ap, ◌∙◌, true, List, [], ◌∷◌, arith}
use mathlib.Core.List.{Memᴰ}
use voodoo_i2c.Registers.{Chip}
use voodoo_i2c.Driver.Types.{IoReturn, success, Message, Driver}
use voodoo_i2c.Driver.Lifecycle.{set_power_state}
use voodoo_i2c.Driver.Transfer.{
  Schedule, Sleep, deliver_early, command_sleep, finish_transfer, prepare_transfer_i2c,
  is_not_ready,
}
use voodoo_i2c.Driver.Transfer.Result.{transfer_i2c_gated-once, prepare-ready}
use voodoo_i2c.Driver.Sharing.{
  Stage, roused, tried, leaving, Job, transfer, power, Shared, Move, call, lock_bus, enter_gate,
  request, refuse, sleep, pass_deadline, get_signal, go_on, try_again, leave_gate, run_out,
  switch_power, unlock_bus, use_result, is_inside,
}
use voodoo_i2c.Driver.Sharing.Parts.{
  prepare_transfer_i2c-begun, Early-refl, prepare_transfer_i2c-refused, Sleeping-refl,
  Ended-timed_out, Ended-interrupted,
}
use voodoo_i2c.Driver.Sharing.Serial.{
  Done, Serial, transferred, switched, At, at_locked, at_trying, at_requested, at_asleep, at_roused,
  at_tried, at_leaving, HasResult, Logged,
}

module _ (chip : Chip) (d₀ : Driver) where
  pub record Moved (i : ℕ) (log : List Done) (p : Stage) (e : Driver) : Type 0 where
    pub new_log : List Done
    pub driver : Driver
    pub serial : Serial chip d₀ new_log driver
    pub at : At chip driver p e
    pub result :
        (job : Job) (ret : IoReturn)
        → HasResult p job ret
        → Memᴰ (record { caller = i; job = job; ret = ret }) new_log
    pub kept : (x : Done) → Memᴰ x log → Memᴰ x new_log

  module _ (i : ℕ) {log : List Done} {d : Driver} (serial : Serial chip d₀ log d) where
    -- A part that ends no call.
    pub going_on :
        {p : Stage} {e : Driver}
        → At chip d p e
        → ((job : Job) (ret : IoReturn)
            → HasResult p job ret
            → Memᴰ (record { caller = i; job = job; ret = ret }) log)
        → Moved i log p e
    going_on at result = record {
      new_log = log;
      driver = d;
      serial = serial;
      at = at;
      result = result;
      kept = λ x m. m;
    }

    -- A transfer that ends here.
    ending :
        (schedule : Schedule) (ms : List Message) {e : Driver} {ret : IoReturn}
        → prepare_transfer_i2c chip schedule ms d ≡ (ret, e)
        → Moved i log (tried ms 5 ret) e
    ending schedule ms {e} {ret} done = record {
      new_log = record { caller = i; job = transfer ms; ret = ret } ∷ log;
      driver = e;
      serial =
          transferred i ms (λ n. schedule) serial
            (transfer_i2c_gated-once chip (λ n. schedule) ms d ∙ done);
      at = at_tried (ap (λ r. is_not_ready r.0) (sym done) ∙ prepare-ready chip schedule ms d);
      result = λ job r h. Memᴰ.head (λ j. record { caller = i; job = sym h.0 j; ret = sym h.1 j });
      kept = λ x m. Memᴰ.tail m;
    }

    -- A change of power, which is over at once.
    switching :
        (registered : IoReturn) (which_state : ℕ)
        → Moved i log
            (leaving (power registered which_state) success)
            (set_power_state chip registered which_state true d)
    switching registered which_state = record {
      new_log = record { caller = i; job = power registered which_state; ret = success } ∷ log;
      driver = set_power_state chip registered which_state true d;
      serial = switched i registered which_state serial;
      at = at_leaving;
      result = λ job r h. Memᴰ.head (λ j. record { caller = i; job = sym h.0 j; ret = sym h.1 j });
      kept = λ x m. Memᴰ.tail m;
    }

    -- The part that follows the sleep ends the transfer under the schedule of what has come.
    finishing :
        {ms : List Message} {slept : Sleep} {e : Driver}
        → At chip d (roused ms 5 slept) e
        → Moved i log (tried ms 5 (finish_transfer chip slept e).0) (finish_transfer chip slept e).1
    finishing {ms} {slept} {e} (at_roused begun early ended late) =
        let schedule : Schedule = record {
          before_sleep = early.count;
          during_sleep = ended.events;
          after_sleep = late.count;
        } in
        ending schedule ms (
          prepare_transfer_i2c-begun chip schedule ms d begun
          ∙ ap
              (λ f.
                (let (s, f₁) = command_sleep chip ended.events f in
                  finish_transfer chip s (deliver_early chip late.count f₁)))
              (sym early.led)
          ∙ ap (λ r. finish_transfer chip r.0 (deliver_early chip late.count r.1)) ended.ended
          ∙ ap (finish_transfer chip slept) (sym late.led))

  -- Nothing happens during the sleep.
  abbrev quiet : Schedule
  quiet = record { before_sleep = 0; during_sleep = []; after_sleep = 0 }

  no_zero :
      {d e : Driver} {ms : List Message} {n : ℕ} {ret : IoReturn}
      → At chip d (tried ms n ret) e
      → n ≡ 5
  no_zero (at_tried ready) = refl

  pub Move-Moved :
      (i : ℕ) {log : List Done} {d : Driver} {s s' : Shared} {p p' : Stage}
      → Serial chip d₀ log d
      → At chip d p s.driver
      → Logged i p log
      → is_inside p ≡ true
      → is_inside p' ≡ true
      → Move chip i s p s' p'
      → Moved i log p' s'.driver
  Move-Moved i serial at_locked own h k (enter_gate free) =
      going_on i serial at_trying (λ _ _ r. absurd r)
  Move-Moved i {s} serial at_trying own h k (request b) =
      going_on i serial (at_requested b (Early-refl chip _)) (λ _ _ r. absurd r)
  Move-Moved i {s} serial at_trying own h k (refuse {ms} b) =
      ending i serial quiet ms (prepare_transfer_i2c-refused chip quiet ms s.driver b)
  Move-Moved i serial (at_requested b early) own h k sleep =
      going_on i serial (at_asleep b early (Sleeping-refl chip _)) (λ _ _ r. absurd r)
  Move-Moved i serial (at_asleep b early sleeping) own h k pass_deadline =
      going_on i serial (at_roused b early (Ended-timed_out chip sleeping) (Early-refl chip _))
        (λ _ _ r. absurd r)
  Move-Moved i serial (at_asleep b early sleeping) own h k get_signal =
      going_on i serial (at_roused b early (Ended-interrupted chip sleeping) (Early-refl chip _))
        (λ _ _ r. absurd r)
  Move-Moved i serial (at_roused b early ended late) own h k (go_on free) =
      finishing i serial (at_roused b early ended late)
  Move-Moved i serial (at_tried ready) own h k (try_again b) = absurd cc
  Move-Moved i serial (at_tried ready) own h k (leave_gate b) = going_on i serial at_leaving own
  Move-Moved i serial at own h k run_out = absurd (omega (arith, no_zero at))
  Move-Moved i serial at_locked own h k (switch_power {registered} {which_state}) =
      switching i serial registered which_state
  Move-Moved i serial at own h k unlock_bus = absurd cc
  Move-Moved i serial at own h k (call job) = absurd cc
  Move-Moved i serial at own h k (lock_bus free) = absurd cc
  Move-Moved i serial at own h k use_result = absurd cc
