-- ===== src/Driver/Sharing.antt =====
-- Threads that share the driver: `transferI2C` and `setPowerState` take the bus lock, a transfer runs
-- behind the command gate, opens it while it sleeps, and interrupts come at any time. A step is a
-- part of one thread's call, or an interrupt; the parts of `prepareTransferI2C` are what stands before
-- the sleep and what stands behind it.
pub mod Owners
pub mod Parts
pub mod Serial
pub mod Live
pub mod Paired
mod Tests
use voodoo_i2c.Base.{
  ℕ, zero, suc, ◌≡◌, Bool, true, false, Option, none, some, List, ◌==◌, if◌then◌else◌,
}
use voodoo_i2c.Base.State.{Cmd}
use voodoo_i2c.Registers.{Chip}
use voodoo_i2c.Driver.Types.{IoReturn, success, is_success, busy, Message, Driver}
use voodoo_i2c.Driver.Bus.{wait_bus_not_busy_i2c}
use voodoo_i2c.Driver.Lifecycle.{set_power_state}
use voodoo_i2c.Driver.Transfer.{
  Sleep, awakened, timed_out, interrupted, on_port, deliver, request_transfer_i2c, reset_transfer,
  finish_transfer, is_not_ready,
}

-- A call that takes the bus lock: a transfer of messages, or a change to a power state of this
-- service, with the answer of `registerInterrupt`.
pub data Job : Type 0 where
  transfer : List Message → Job
  power : IoReturn → ℕ → Job

-- Where a thread stands. A transfer carries its messages and the number of tries left.
pub data Stage : Type 0 where
  idle : Stage
  waiting : Job → Stage
  locked : Job → Stage
  trying : List Message → ℕ → Stage
  requested : List Message → ℕ → Stage
  asleep : List Message → ℕ → Stage
  roused : List Message → ℕ → Sleep → Stage
  tried : List Message → ℕ → IoReturn → Stage
  leaving : Job → IoReturn → Stage
  returned : Job → IoReturn → Stage

abbrev pub set_stage : (ℕ → Stage) → ℕ → Stage → ℕ → Stage
set_stage stage i p j = if j == i then p else stage j

-- Between `IOLockLock` and `IOLockUnlock`.
abbrev pub is_inside : Stage → Bool
is_inside (locked job) = true
is_inside (trying ms n) = true
is_inside (requested ms n) = true
is_inside (asleep ms n) = true
is_inside (roused ms n slept) = true
is_inside (tried ms n ret) = true
is_inside (leaving job ret) = true
is_inside _ = false

-- Where the thread keeps the command gate closed.
abbrev pub is_gated : Stage → Bool
is_gated (trying ms n) = true
is_gated (requested ms n) = true
is_gated (tried ms n ret) = true
is_gated _ = false

-- The driver with its lock and its gate, and the thread that has each.
pub record Shared : Type 0 where
  pub driver : Driver
  pub lock : Option ℕ
  pub gate : Option ℕ

pub record System : Type 0 where
  pub shared : Shared
  pub stage : ℕ → Stage

-- `prepareTransferI2C` up to the sleep: whether the transfer was requested.
unfoldable pub begin_transfer : Chip → List Message → Cmd Driver Bool
begin_transfer chip messages d =
    let (waited, d₁) = on_port (wait_bus_not_busy_i2c chip) d in
    if d.bus_device.awake
    then (if is_success waited
        then (
          true,
          request_transfer_i2c chip
              (record d₁ { bus_device = reset_transfer messages d₁.bus_device }),
        )
        else (false, d₁))
    else (false, d)

-- A part of the call that thread `i` makes.
pub data Move (chip : Chip) (i : ℕ) (s : Shared) : Stage → Shared → Stage → Type 0 where
  call : (job : Job) → Move chip i s idle s (waiting job)
  lock_bus :
      {job : Job}
      → s.lock ≡ none
      → Move chip i s (waiting job) (record s { lock = some i }) (locked job)
  enter_gate :
      {ms : List Message}
      → s.gate ≡ none
      → Move chip i s (locked (transfer ms)) (record s { gate = some i }) (trying ms 5)
  request :
      {ms : List Message} {n : ℕ}
      → (begin_transfer chip ms s.driver).0 ≡ true
      → Move chip i s
          (trying ms n)
          (record s { driver = (begin_transfer chip ms s.driver).1 })
          (requested ms n)
  refuse :
      {ms : List Message} {n : ℕ}
      → (begin_transfer chip ms s.driver).0 ≡ false
      → Move chip i s
          (trying ms n)
          (record s { driver = (begin_transfer chip ms s.driver).1 })
          (tried ms n busy)
  sleep :
      {ms : List Message} {n : ℕ}
      → Move chip i s (requested ms n) (record s { gate = none }) (asleep ms n)
  pass_deadline :
      {ms : List Message} {n : ℕ} → Move chip i s (asleep ms n) s (roused ms n timed_out)
  get_signal : {ms : List Message} {n : ℕ} → Move chip i s (asleep ms n) s (roused ms n interrupted)
  go_on :
      {ms : List Message} {n : ℕ} {slept : Sleep}
      → s.gate ≡ none
      → Move chip i s
          (roused ms n slept)
          (record s { gate = some i; driver = (finish_transfer chip slept s.driver).1 })
          (tried ms n (finish_transfer chip slept s.driver).0)
  try_again :
      {ms : List Message} {n : ℕ} {ret : IoReturn}
      → is_not_ready ret ≡ true
      → Move chip i s (tried ms (suc n) ret) s (trying ms n)
  leave_gate :
      {ms : List Message} {n : ℕ} {ret : IoReturn}
      → is_not_ready ret ≡ false
      → Move chip i s (tried ms n ret) (record s { gate = none }) (leaving (transfer ms) ret)
  run_out :
      {ms : List Message} {ret : IoReturn}
      → Move chip i s (tried ms zero ret) (record s { gate = none }) (leaving (transfer ms) ret)
  switch_power :
      {registered : IoReturn} {which_state : ℕ}
      → Move chip i s
          (locked (power registered which_state))
          (record s { driver = set_power_state chip registered which_state true s.driver })
          (leaving (power registered which_state) success)
  unlock_bus :
      {job : Job} {ret : IoReturn}
      → Move chip i s (leaving job ret) (record s { lock = none }) (returned job ret)
  use_result : {job : Job} {ret : IoReturn} → Move chip i s (returned job ret) s idle

-- `commandWakeup` rouses the thread that sleeps.
abbrev pub rouse : Bool → Stage → Stage
rouse true (asleep ms n) = roused ms n awakened
rouse true p = p
rouse false p = p

pub data Step (chip : Chip) (s : System) : System → Type 0 where
  thread :
      (i : ℕ) {p p' : Stage} {shared : Shared}
      → s.stage i ≡ p
      → Move chip i s.shared p shared p'
      → Step chip s (record { shared = shared; stage = set_stage s.stage i p' })
  hardware : Step chip s (record {
    shared = record s.shared { driver = (deliver chip s.shared.driver).1 };
    stage = λ j. rouse (deliver chip s.shared.driver).0 (s.stage j);
  })

-- Nobody has called yet.
abbrev pub fresh : Driver → System
fresh d = record { shared = record { driver = d; lock = none; gate = none }; stage = λ i. idle }

pub data Reach (chip : Chip) (d : Driver) : System → Type 0 where
  begin : Reach chip d (fresh d)
  further : {s t : System} → Reach chip d s → Step chip s t → Reach chip d t
