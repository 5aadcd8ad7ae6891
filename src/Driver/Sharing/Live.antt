-- ===== src/Driver/Sharing/Live.antt =====
-- Some thread can always go on.
use voodoo_i2c.Base.{
  ℕ, zero, suc, ◌≡◌, refl, sym, Bool, true, false, Option, none, some, ◌⊎◌, inl, inr, List, arith,
  Bool-cases, subst, ◌*◌, ◌<◌, ◌+◌,
}
use voodoo_i2c.Registers.{Chip}
use voodoo_i2c.Driver.Types.{Driver, Message, IoReturn}
use voodoo_i2c.Driver.Transfer.{is_not_ready}
use voodoo_i2c.Driver.Sharing.{
  System, Stage, idle, waiting, locked, trying, requested, asleep, roused, tried, leaving, returned,
  Job, transfer, power, Shared, Move, call, lock_bus, enter_gate, request, refuse, sleep,
  pass_deadline, get_signal, go_on, try_again, leave_gate, run_out, switch_power, unlock_bus,
  use_result, is_inside, is_gated, Reach, begin_transfer,
}
use voodoo_i2c.Driver.Sharing.Owners.{IsOwned, Reach-IsOwned}

-- A thread in the middle of a call.
abbrev pub is_calling : Stage → Bool
is_calling idle = false
is_calling (returned job ret) = false
is_calling _ = true

-- How many parts a call can still have: up to five for each try.
abbrev pub rank : Stage → ℕ
rank idle = 0
rank (returned job ret) = 0
rank (leaving job ret) = 1
rank (tried ms n ret) = 5 * n + 2
rank (roused ms n slept) = 5 * n + 3
rank (asleep ms n) = 5 * n + 4
rank (requested ms n) = 5 * n + 5
rank (trying ms n) = 5 * n + 6
rank (locked job) = 32
rank (waiting job) = 33

Move-rank :
    {chip : Chip} {i : ℕ} {s s' : Shared} {p p' : Stage}
    → Move chip i s p s' p'
    → is_calling p ≡ true
    → rank p' < rank p
Move-rank (call job) h = absurd cc
Move-rank (lock_bus free) h = omega arith
Move-rank (enter_gate free) h = omega arith
Move-rank (request b) h = omega arith
Move-rank (refuse b) h = omega arith
Move-rank sleep h = omega arith
Move-rank pass_deadline h = omega arith
Move-rank get_signal h = omega arith
Move-rank (go_on free) h = omega arith
Move-rank (try_again b) h = omega arith
Move-rank (leave_gate b) h = omega arith
Move-rank run_out h = omega arith
Move-rank switch_power h = omega arith
Move-rank unlock_bus h = omega arith
Move-rank use_result h = absurd cc

-- Thread `i` is in the middle of a call, and its next part, which it can make now, brings it nearer
-- to the end.
pub record CanMove (chip : Chip) (s : System) (i : ℕ) : Type 0 where
  pub shared : Shared
  pub stage : Stage
  pub calling : is_calling (s.stage i) ≡ true
  pub move : Move chip i s.shared (s.stage i) shared stage
  pub nearer : rank stage < rank (s.stage i)

to_CanMove :
    {chip : Chip} {s : System} (i : ℕ) {shared : Shared} {p : Stage}
    → is_calling (s.stage i) ≡ true
    → Move chip i s.shared (s.stage i) shared p
    → CanMove chip s i
to_CanMove i {shared} {p} calling mv = record {
  shared = shared;
  stage = p;
  calling = calling;
  move = mv;
  nearer = Move-rank mv calling;
}

module _ (chip : Chip) (i : ℕ) (s : Shared) where
  abbrev Next : Stage → Type 0
  Next p = (s' : Shared) × (p' : Stage) × Move chip i s p s' p'

  after_try : (ms : List Message) (n : ℕ) (ret : IoReturn) → Next (tried ms n ret)
  after_try ms n ret = elim (Bool-cases (is_not_ready ret)) [
    | inl again ↦ elim n as (λ k. Next (tried ms k ret)) [
      | zero ↦ (_, _, run_out)
      | suc k ↦ (_, _, try_again again)
    ]
    | inr done ↦ (_, _, leave_gate done)
  ]

  -- A thread inside goes on if it has the gate, or the gate is free.
  inside-Next : (p : Stage) → is_inside p ≡ true → (is_gated p ≡ true) ⊎ (s.gate ≡ none) → Next p
  inside-Next (locked (transfer ms)) h (inr free) = (_, _, enter_gate free)
  inside-Next (locked (transfer ms)) h (inl e) = absurd cc
  inside-Next (locked (power r w)) h free = (_, _, switch_power)
  inside-Next (trying ms n) h free = elim (Bool-cases (begin_transfer chip ms s.driver).0) [
    | inl b ↦ (_, _, request b)
    | inr b ↦ (_, _, refuse b)
  ]
  inside-Next (requested ms n) h free = (_, _, sleep)
  inside-Next (asleep ms n) h free = (_, _, pass_deadline)
  inside-Next (roused ms n slept) h (inr free) = (_, _, go_on free)
  inside-Next (roused ms n slept) h (inl e) = absurd cc
  inside-Next (tried ms n ret) h free = after_try ms n ret
  inside-Next (leaving job ret) h free = (_, _, unlock_bus)
  inside-Next idle h free = absurd cc
  inside-Next (waiting job) h free = absurd cc
  inside-Next (returned job ret) h free = absurd cc

module _ {s : System} (owned : IsOwned s) where
  -- The thread that has the lock has the gate too, unless the gate is free.
  gate_for :
      (i : ℕ) → s.shared.lock ≡ some i → (is_gated (s.stage i) ≡ true) ⊎ (s.shared.gate ≡ none)
  gate_for i has_lock = by_gate s.shared.gate refl
    where
      inside_of : (p : Stage) → is_gated p ≡ true → is_inside p ≡ true
      inside_of p h = ground arith

      by_gate :
          (g : Option ℕ)
          → s.shared.gate ≡ g
          → (is_gated (s.stage i) ≡ true) ⊎ (s.shared.gate ≡ none)
      by_gate none e = inr e
      by_gate (some j) e =
          let gated = owned.gate.holder j e in
          let same : j ≡ i = ground (arith, owned.lock.held j (inside_of (s.stage j) gated)) in
          inl (subst (λ k. is_gated (s.stage k) ≡ true) same gated)

  -- The thread that has the lock can go on.
  locker_moves : (chip : Chip) (i : ℕ) → s.shared.lock ≡ some i → CanMove chip s i
  locker_moves chip i has_lock =
      let inside = owned.lock.holder i has_lock in
      let (s', p', mv) = inside-Next chip i s.shared (s.stage i) inside (gate_for i has_lock) in
      to_CanMove i (calling_of (s.stage i) inside) mv
    where
      calling_of : (p : Stage) → is_inside p ≡ true → is_calling p ≡ true
      calling_of p h = ground arith

  -- With the lock free, a thread that calls is waiting, and can take the lock.
  waiter_moves :
      (chip : Chip) (i : ℕ)
      → is_calling (s.stage i) ≡ true
      → s.shared.lock ≡ none
      → CanMove chip s i
  waiter_moves chip i calling free =
      let outside : is_inside (s.stage i) ≡ false = ground (arith, owned.lock.held i) in
      let (job, e) = waiting_of (s.stage i) calling outside in
      to_CanMove i calling (
        subst (λ p. Move chip i s.shared p (record s.shared { lock = some i }) (locked job)) (sym e)
          (lock_bus free))
    where
      waiting_of :
          (p : Stage) → is_calling p ≡ true → is_inside p ≡ false → (job : Job) × (p ≡ waiting job)
      waiting_of (waiting job) h k = (job, refl)
      waiting_of idle h k = absurd cc
      waiting_of (returned job ret) h k = absurd cc
      waiting_of (locked job) h k = absurd cc
      waiting_of (trying ms n) h k = absurd cc
      waiting_of (requested ms n) h k = absurd cc
      waiting_of (asleep ms n) h k = absurd cc
      waiting_of (roused ms n slept) h k = absurd cc
      waiting_of (tried ms n ret) h k = absurd cc
      waiting_of (leaving job ret) h k = absurd cc

-- No deadlock: whatever has happened, while a thread is in the middle of a call, some thread that is
-- in the middle of one can go on, without an interrupt, and is then nearer to the end of its call,
-- of which the rank bounds the parts that are left.
pub Reach-CanMove :
    {chip : Chip} {d : Driver} {s : System}
    → Reach chip d s
    → (i : ℕ) → is_calling (s.stage i) ≡ true
    → (j : ℕ) × CanMove chip s j
Reach-CanMove {chip} {d} {s} path i calling = by_lock s.shared.lock refl
  where
    owned : IsOwned s
    owned = Reach-IsOwned path

    by_lock : (l : Option ℕ) → s.shared.lock ≡ l → (j : ℕ) × CanMove chip s j
    by_lock none e = (i, waiter_moves owned chip i calling e)
    by_lock (some j) e = (j, locker_moves owned chip j e)
