-- ===== src/Driver/Sharing/Parts.antt =====
-- The parts of a transfer, put together again.
use voodoo_i2c.Base.{
  ℕ, zero, suc, ◌≡◌, refl, sym, ap, ◌∙◌, true, false, List, [], ◌∷◌, ◌++◌, append_assoc, arith,
}
use voodoo_i2c.Registers.{Chip}
use voodoo_i2c.Driver.Types.{IoReturn, busy, Message, Driver}
use voodoo_i2c.Driver.Transfer.{
  Event, interrupt, signal, Schedule, Sleep, awakened, timed_out, interrupted, deliver,
  deliver_early, command_sleep, finish_transfer, run_transfer, prepare_transfer_i2c,
}
use voodoo_i2c.Driver.Sharing.{begin_transfer}

module _ (chip : Chip) where
  -- What follows the request, under a schedule.
  abbrev pub sleep_transfer : Schedule → Driver → IoReturn × Driver
  sleep_transfer schedule d =
      let (slept, d₁) =
        command_sleep chip schedule.during_sleep (deliver_early chip schedule.before_sleep d) in
      finish_transfer chip slept (deliver_early chip schedule.after_sleep d₁)

  pub prepare_transfer_i2c-begun :
      (schedule : Schedule) (ms : List Message) (d : Driver)
      → (begin_transfer chip ms d).0 ≡ true
      → prepare_transfer_i2c chip schedule ms d
        ≡ sleep_transfer schedule (begin_transfer chip ms d).1
  unfolding prepare_transfer_i2c begin_transfer run_transfer
  prepare_transfer_i2c-begun schedule ms d h = ground arith

  pub prepare_transfer_i2c-refused :
      (schedule : Schedule) (ms : List Message) (d : Driver)
      → (begin_transfer chip ms d).0 ≡ false
      → prepare_transfer_i2c chip schedule ms d ≡ (busy, (begin_transfer chip ms d).1)
  unfolding prepare_transfer_i2c begin_transfer run_transfer
  prepare_transfer_i2c-refused schedule ms d h = ground arith

  deliver_early-suc :
      (n : ℕ) (d : Driver)
      → deliver_early chip (suc n) d ≡ (deliver chip (deliver_early chip n d)).1
  unfolding deliver_early
  deliver_early-suc zero d = refl
  deliver_early-suc (suc n) d = deliver_early-suc n (deliver chip d).1

  -- A driver that some interrupts have led from one state to another.
  pub record Early (d e : Driver) : Type 0 where
    pub count : ℕ
    pub led : e ≡ deliver_early chip count d

  pub Early-refl : (d : Driver) → Early d d
  unfolding deliver_early
  Early-refl d = record { count = 0; led = refl }

  pub Early-deliver : {d e : Driver} → Early d e → Early d (deliver chip e).1
  Early-deliver {d} early = record {
    count = suc early.count;
    led = ap (λ f. (deliver chip f).1) early.led ∙ sym (deliver_early-suc early.count d);
  }

  -- A thread that went to sleep in one state and sleeps on in the other.
  pub record Sleeping (d e : Driver) : Type 0 where
    pub past : List Event
    pub sleeps_on :
        (rest : List Event) → command_sleep chip (past ++ rest) d ≡ command_sleep chip rest e

  pub Sleeping-refl : (d : Driver) → Sleeping d d
  Sleeping-refl d = record { past = []; sleeps_on = λ rest. refl }

  command_sleep-deliver :
      (rest : List Event) (e : Driver)
      → (deliver chip e).0 ≡ false
      → command_sleep chip (interrupt ∷ rest) e ≡ command_sleep chip rest (deliver chip e).1
  unfolding command_sleep
  command_sleep-deliver rest e h = rw (h) refl

  pub Sleeping-deliver :
      {d e : Driver} → Sleeping d e → (deliver chip e).0 ≡ false → Sleeping d (deliver chip e).1
  Sleeping-deliver {d} {e} sleeping h = record {
    past = sleeping.past ++ interrupt ∷ [];
    sleeps_on = λ rest.
        ap (λ es. command_sleep chip es d) (append_assoc sleeping.past (interrupt ∷ []) rest)
        ∙ sleeping.sleeps_on (interrupt ∷ rest)
        ∙ command_sleep-deliver rest e h;
  }

  -- A sleep that began in one state and ended, with its result, in the other.
  pub record Ended (d : Driver) (slept : Sleep) (e : Driver) : Type 0 where
    pub events : List Event
    pub ended : command_sleep chip events d ≡ (slept, e)

  module _ {d e : Driver} (sleeping : Sleeping d e) where
    pub Ended-timed_out : Ended d timed_out e
    unfolding command_sleep
    Ended-timed_out = record { events = sleeping.past ++ []; ended = sleeping.sleeps_on [] }

    pub Ended-interrupted : Ended d interrupted e
    unfolding command_sleep
    Ended-interrupted = record {
      events = sleeping.past ++ signal ∷ [];
      ended = sleeping.sleeps_on (signal ∷ []);
    }

    pub Ended-awakened : (deliver chip e).0 ≡ true → Ended d awakened (deliver chip e).1
    unfolding command_sleep
    Ended-awakened h = record {
      events = sleeping.past ++ interrupt ∷ [];
      ended = sleeping.sleeps_on (interrupt ∷ []) ∙ rw (h) refl;
    }
