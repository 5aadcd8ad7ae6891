-- ===== src/Driver/Sharing/Serial/Reached.antt =====
-- The calls of all threads have the results of whole calls, one after another.
use voodoo_i2c.Base.{ℕ, ◌≡◌, refl, sym, subst, Bool, true, false, Option, none, some, List, []}
use voodoo_i2c.Registers.{Chip}
use voodoo_i2c.Driver.Types.{IoReturn, Driver}
use voodoo_i2c.Driver.Transfer.{deliver}
use voodoo_i2c.Driver.Sharing.{
  System, Stage, idle, waiting, locked, trying, requested, asleep, roused, tried, leaving, returned,
  Job, rouse, Step, thread, hardware, Reach, begin, further,
}
use voodoo_i2c.Driver.Sharing.Owners.{Reach-IsOwned, IsOwned}
use voodoo_i2c.Driver.Sharing.Parts.{Early-deliver, Early-refl, Sleeping-deliver, Ended-awakened}
use voodoo_i2c.Driver.Sharing.Serial.{
  Done, Serial, unused, interrupted_by, At, at_idle, at_waiting, at_locked, at_trying, at_requested,
  at_asleep, at_roused, at_tried, at_leaving, at_returned, in_hand, HasResult, IsSerial,
}
use voodoo_i2c.Driver.Sharing.Serial.Steps.{thread-IsSerial}

module _ (chip : Chip) (d₀ : Driver) where
  -- The calls that are over, and what the call in hand has done, behind an interrupt.
  record Delivered (log : List Done) (p : Stage) (e : Driver) : Type 0 where
    driver : Driver
    serial : Serial chip d₀ log driver
    at : At chip driver p e

  module _ {log : List Done} {d : Driver} (serial : Serial chip d₀ log d) where
    -- An interrupt that no call meets.
    between : {p : Stage} {e : Driver} → At chip (deliver chip d).1 p e → Delivered log p e
    between at = record { driver = (deliver chip d).1; serial = interrupted_by serial; at = at }

    within : {p : Stage} {e : Driver} → At chip d p e → Delivered log p e
    within at = record { driver = d; serial = serial; at = at }

  deliver-Delivered :
      {log : List Done} {d e : Driver} (p : Stage) (woken : Bool)
      → (deliver chip e).0 ≡ woken
      → Serial chip d₀ log d
      → At chip d p e
      → Delivered log (rouse woken p) (deliver chip e).1
  deliver-Delivered idle true h serial at_idle = between serial at_idle
  deliver-Delivered idle false h serial at_idle = between serial at_idle
  deliver-Delivered (waiting job) true h serial at_waiting = between serial at_waiting
  deliver-Delivered (waiting job) false h serial at_waiting = between serial at_waiting
  deliver-Delivered (locked job) true h serial at_locked = between serial at_locked
  deliver-Delivered (locked job) false h serial at_locked = between serial at_locked
  deliver-Delivered (trying ms n) true h serial at_trying = between serial at_trying
  deliver-Delivered (trying ms n) false h serial at_trying = between serial at_trying
  deliver-Delivered (requested ms n) true h serial (at_requested b early) =
      within serial (at_requested b (Early-deliver chip early))
  deliver-Delivered (requested ms n) false h serial (at_requested b early) =
      within serial (at_requested b (Early-deliver chip early))
  deliver-Delivered (asleep ms n) true h serial (at_asleep b early sleeping) =
      within serial (at_roused b early (Ended-awakened chip sleeping h) (Early-refl chip _))
  deliver-Delivered (asleep ms n) false h serial (at_asleep b early sleeping) =
      within serial (at_asleep b early (Sleeping-deliver chip sleeping h))
  deliver-Delivered (roused ms n slept) true h serial (at_roused b early ended late) =
      within serial (at_roused b early ended (Early-deliver chip late))
  deliver-Delivered (roused ms n slept) false h serial (at_roused b early ended late) =
      within serial (at_roused b early ended (Early-deliver chip late))
  deliver-Delivered (tried ms n ret) true h serial (at_tried r) = between serial (at_tried r)
  deliver-Delivered (tried ms n ret) false h serial (at_tried r) = between serial (at_tried r)
  deliver-Delivered (leaving job ret) true h serial at_leaving = between serial at_leaving
  deliver-Delivered (leaving job ret) false h serial at_leaving = between serial at_leaving
  deliver-Delivered (returned job ret) true h serial at_returned = between serial at_returned
  deliver-Delivered (returned job ret) false h serial at_returned = between serial at_returned

result-rouse :
    (woken : Bool) (p : Stage) (job : Job) (ret : IoReturn)
    → HasResult (rouse woken p) job ret
    → HasResult p job ret
result-rouse true (asleep ms n) job ret h = absurd h
result-rouse true (idle) job ret h = h
result-rouse true (waiting j) job ret h = h
result-rouse true (locked j) job ret h = h
result-rouse true (trying ms n) job ret h = h
result-rouse true (requested ms n) job ret h = h
result-rouse true (roused ms n slept) job ret h = h
result-rouse true (tried ms n r) job ret h = h
result-rouse true (leaving j r) job ret h = h
result-rouse true (returned j r) job ret h = h
result-rouse false p job ret h = h

rouse-idle : (woken : Bool) → rouse woken idle ≡ idle
rouse-idle true = refl
rouse-idle false = refl

in_hand-rouse :
    (l : Option ℕ) (woken : Bool) (stage : ℕ → Stage)
    → elim l as (λ _. Stage) [ none ↦ idle | some i ↦ rouse woken (stage i) ]
      ≡ rouse woken (elim l as (λ _. Stage) [ none ↦ idle | some i ↦ stage i ])
in_hand-rouse none woken stage = sym (rouse-idle woken)
in_hand-rouse (some i) woken stage = refl

Step-IsSerial :
    {chip : Chip} {d₀ : Driver} {s t : System}
    → IsOwned s
    → Step chip s t
    → IsSerial chip d₀ s
    → IsSerial chip d₀ t
Step-IsSerial owned (thread i e mv) v = thread-IsSerial owned v i e mv
Step-IsSerial {chip} {d₀} {s} owned hardware v =
    let woken = (deliver chip s.shared.driver).0 in
    let after = deliver-Delivered chip d₀ (in_hand s) woken refl v.serial v.at in
    record {
      log = v.log;
      driver = after.driver;
      serial = after.serial;
      at =
          subst (λ p. At chip after.driver p (deliver chip s.shared.driver).1)
            (sym (in_hand-rouse s.shared.lock woken s.stage)) after.at;
      results = λ i job ret h. v.results i job ret (result-rouse woken (s.stage i) job ret h);
    }

-- Whatever the threads call, and in whatever order they and the interrupts step, what has happened is
-- the same as if the calls had been made whole, one after another, each under a schedule of its own
-- and with interrupts in between: the driver is that of those calls, and of the part of the call that
-- has the lock, and each thread got what its call got there.
pub Reach-IsSerial : {chip : Chip} {d : Driver} {s : System} → Reach chip d s → IsSerial chip d s
Reach-IsSerial begin = record {
  log = [];
  driver = _;
  serial = unused;
  at = at_idle;
  results = λ i job ret h. absurd h;
}
Reach-IsSerial (further path st) = Step-IsSerial (Reach-IsOwned path) st (Reach-IsSerial path)
