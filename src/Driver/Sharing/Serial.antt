-- ===== src/Driver/Sharing/Serial.antt =====
-- The calls of all threads one after another.
pub mod Moves
pub mod Steps
pub mod Reached
use voodoo_i2c.Base.{
  ℕ, zero, suc, ◌≡◌, refl, sym, ap, ◌∙◌, subst, Bool, true, false, Option, none, some, List, [],
  ◌∷◌, arith, Bool-cases, inl, inr,
}
use mathlib.Core.List.{Memᴰ}
use voodoo_i2c.Registers.{Chip}
use voodoo_i2c.Driver.Types.{IoReturn, success, busy, Message, Driver}
use voodoo_i2c.Driver.Lifecycle.{set_power_state}
use voodoo_i2c.Driver.Transfer.{
  Schedule, Sleep, deliver, deliver_early, command_sleep, finish_transfer, prepare_transfer_i2c,
  is_not_ready, transfer_i2c_gated,
}
use voodoo_i2c.Driver.Transfer.Result.{transfer_i2c_gated-once, prepare-ready}
use voodoo_i2c.Driver.Sharing.{
  System, Stage, idle, waiting, locked, trying, requested, asleep, roused, tried, leaving, returned,
  Job, transfer, power, Shared, Move, call, lock_bus, enter_gate, request, refuse, sleep,
  pass_deadline, get_signal, go_on, try_again, leave_gate, run_out, switch_power, unlock_bus,
  use_result, is_inside, set_stage, rouse, Step, thread, hardware, Reach, begin, further,
  begin_transfer,
}
use voodoo_i2c.Driver.Sharing.Owners.{IsOwned, Reach-IsOwned}
use voodoo_i2c.Driver.Sharing.Parts.{
  Early, Sleeping, Ended, prepare_transfer_i2c-begun, Early-refl, prepare_transfer_i2c-refused,
  Sleeping-refl, Ended-timed_out, Ended-interrupted,
}

-- A call that is over: the thread, what it called, and what it got.
pub record Done : Type 0 where
  pub caller : ℕ
  pub job : Job
  pub ret : IoReturn

-- The driver behind whole calls, one after another, the latest first, and interrupts between them.
pub data Serial (chip : Chip) (d₀ : Driver) : List Done → Driver → Type 0 where
  unused : Serial chip d₀ [] d₀
  interrupted_by :
      {log : List Done} {d : Driver} → Serial chip d₀ log d → Serial chip d₀ log (deliver chip d).1
  transferred :
      {log : List Done} {d e : Driver} (i : ℕ) (ms : List Message) (schedules : ℕ → Schedule)
      {ret : IoReturn}
      → Serial chip d₀ log d
      → transfer_i2c_gated chip schedules ms d ≡ (ret, e)
      → Serial chip d₀ (record { caller = i; job = transfer ms; ret = ret } ∷ log) e
  switched :
      {log : List Done} {d : Driver} (i : ℕ) (registered : IoReturn) (which_state : ℕ)
      → Serial chip d₀ log d
      → Serial chip d₀
          (record { caller = i; job = power registered which_state; ret = success } ∷ log)
          (set_power_state chip registered which_state true d)

-- How far the call of a thread has taken the driver, from the state in which it found it. What is not
-- begun, or is over, has taken it nowhere.
pub data At (chip : Chip) (d : Driver) : Stage → Driver → Type 0 where
  at_idle : At chip d idle d
  at_waiting : {job : Job} → At chip d (waiting job) d
  at_locked : {job : Job} → At chip d (locked job) d
  at_trying : {ms : List Message} → At chip d (trying ms 5) d
  at_requested :
      {ms : List Message} {e : Driver}
      → (begin_transfer chip ms d).0 ≡ true
      → Early chip (begin_transfer chip ms d).1 e
      → At chip d (requested ms 5) e
  at_asleep :
      {ms : List Message} {e₁ e : Driver}
      → (begin_transfer chip ms d).0 ≡ true
      → Early chip (begin_transfer chip ms d).1 e₁
      → Sleeping chip e₁ e
      → At chip d (asleep ms 5) e
  at_roused :
      {ms : List Message} {slept : Sleep} {e₁ e₂ e : Driver}
      → (begin_transfer chip ms d).0 ≡ true
      → Early chip (begin_transfer chip ms d).1 e₁
      → Ended chip e₁ slept e₂
      → Early chip e₂ e
      → At chip d (roused ms 5 slept) e
  at_tried :
      {ms : List Message} {ret : IoReturn} → is_not_ready ret ≡ false → At chip d (tried ms 5 ret) d
  at_leaving : {job : Job} {ret : IoReturn} → At chip d (leaving job ret) d
  at_returned : {job : Job} {ret : IoReturn} → At chip d (returned job ret) d

-- The stage of the thread that has the lock.
abbrev pub in_hand : System → Stage
in_hand s = elim s.shared.lock [ none ↦ idle | some i ↦ s.stage i ]

-- The result that a thread has, before it uses it.
abbrev pub HasResult : Stage → Job → IoReturn → Type 0
HasResult (tried ms n ret) job r = (transfer ms ≡ job) × (ret ≡ r)
HasResult (leaving job' ret) job r = (job' ≡ job) × (ret ≡ r)
HasResult (returned job' ret) job r = (job' ≡ job) × (ret ≡ r)
HasResult _ job r = ⊥

-- The results that a stage of thread `i` has are in the log.
abbrev pub Logged : ℕ → Stage → List Done → Type 0
Logged i p log =
    (job : Job) (ret : IoReturn)
    → HasResult p job ret
    → Memᴰ (record { caller = i; job = job; ret = ret }) log

-- The driver is that of whole calls one after another, and of the part of the call in hand; and what
-- each thread got is what its call got there.
pub record IsSerial (chip : Chip) (d₀ : Driver) (s : System) : Type 0 where
  pub log : List Done
  pub driver : Driver
  pub serial : Serial chip d₀ log driver
  pub at : At chip driver (in_hand s) s.shared.driver
  pub results : (i : ℕ) → Logged i (s.stage i) log
