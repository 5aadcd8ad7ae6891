-- ===== src/Driver/Sharing/Serial/Steps.antt =====
-- The calls of all threads have the results of whole calls, one after another.
use voodoo_i2c.Base.{
  ℕ, ◌≡◌, refl, sym, ap, ◌∙◌, ◌==◌, ==_iff, if◌then◌else◌, subst, true, false, Option, none, some,
  List, arith, Bool-cases, inl, inr,
}
use mathlib.Core.List.{Memᴰ}
use voodoo_i2c.Registers.{Chip}
use voodoo_i2c.Driver.Types.{IoReturn, Driver}
use voodoo_i2c.Driver.Sharing.{
  System, Stage, idle, waiting, locked, leaving, returned, Job, Shared, Move, call, lock_bus,
  unlock_bus, use_result, is_inside, set_stage, thread,
}
use voodoo_i2c.Driver.Sharing.Owners.{IsOwned}
use voodoo_i2c.Driver.Sharing.Serial.{
  Done, At, at_idle, at_locked, at_leaving, in_hand, HasResult, IsSerial, Logged,
}
use voodoo_i2c.Driver.Sharing.Serial.Moves.{Moved, Move-Moved, going_on}
use voodoo_i2c.Driver.Sharing.Owners.{Step-IsOwned}

set_stage_self : (stage : ℕ → Stage) (i : ℕ) (p : Stage) → set_stage stage i p i ≡ p
set_stage_self stage i p = ground arith

in_hand-mine : (s : System) (i : ℕ) → s.shared.lock ≡ some i → in_hand s ≡ s.stage i
in_hand-mine s i e = rw (e) refl

-- The thread that moved has its results, the others keep theirs.
results-set_stage :
    (stage : ℕ → Stage) (i : ℕ) (p' : Stage) {log new_log : List Done}
    → ((x : Done) → Memᴰ x log → Memᴰ x new_log)
    → Logged i p' new_log
    → ((j : ℕ) → Logged j (stage j) log)
    → (j : ℕ) → Logged j (set_stage stage i p' j) new_log
results-set_stage stage i p' {log} {new_log} kept own old j job ret h = elim (Bool-cases (j == i)) [
  | inl same ↦
      let mine = subst (λ b. HasResult (if b then p' else stage j) job ret) same h in
      subst (λ k. Memᴰ (record { caller = k; job = job; ret = ret }) new_log)
        (sym ((==_iff j i).0 same)) (own job ret mine)
  | inr other ↦
      kept _ (old j job ret (subst (λ b. HasResult (if b then p' else stage j) job ret) other h))
]

-- A part that neither takes nor gives the lock, of a thread that does not have it.
in_hand-other :
    (s : System) (i : ℕ) (p' : Stage)
    → IsOwned s
    → is_inside (s.stage i) ≡ false
    → in_hand (record s { stage = set_stage s.stage i p' }) ≡ in_hand s
in_hand-other s i p' owned outside = by_lock s.shared.lock refl
  where
    by_lock :
        (l : Option ℕ)
        → s.shared.lock ≡ l
        → elim l as (λ _. Stage) [ none ↦ idle | some k ↦ set_stage s.stage i p' k ]
          ≡ elim l as (λ _. Stage) [ none ↦ idle | some k ↦ s.stage k ]
    by_lock none e = refl
    by_lock (some k) e = ground (arith, owned.lock.holder k e)

module _ {chip : Chip} {d₀ : Driver} (s : System) (i : ℕ) {log : List Done} where
  -- A thread that has the lock behind its part.
  assemble :
      {p' : Stage} {shared : Shared}
      → Moved chip d₀ i log p' shared.driver
      → shared.lock ≡ some i
      → ((j : ℕ) → Logged j (s.stage j) log)
      → IsSerial chip d₀ (record { shared = shared; stage = set_stage s.stage i p' })
  assemble {p'} {shared} moved has_lock old = record {
    log = moved.new_log;
    driver = moved.driver;
    serial = moved.serial;
    at =
        subst (λ p. At chip moved.driver p shared.driver)
          (sym (
            in_hand-mine (record { shared = shared; stage = set_stage s.stage i p' }) i has_lock
            ∙ set_stage_self s.stage i p'))
          moved.at;
    results = results-set_stage s.stage i p' moved.kept moved.result old;
  }

module _ {chip : Chip} {d₀ : Driver} {s : System} (owned : IsOwned s) (v : IsSerial chip d₀ s) where
  -- Neither before nor behind its part does the thread have the lock.
  outside_step :
      (i : ℕ) (p' : Stage)
      → is_inside (s.stage i) ≡ false
      → ((job : Job) (ret : IoReturn) → ¬ HasResult p' job ret)
      → IsSerial chip d₀ (record s { stage = set_stage s.stage i p' })
  outside_step i p' outside none_yet = record {
    log = v.log;
    driver = v.driver;
    serial = v.serial;
    at =
        subst (λ p. At chip v.driver p s.shared.driver) (sym (in_hand-other s i p' owned outside))
          v.at;
    results =
        results-set_stage s.stage i p' (λ x m. m) (λ job ret r. absurd (none_yet job ret r))
          v.results;
  }

  -- The thread has the lock before its part and behind it.
  inside_step :
      (i : ℕ) {p p' : Stage} {shared : Shared} (e : s.stage i ≡ p)
      (mv : Move chip i s.shared p shared p')
      → is_inside p ≡ true
      → is_inside p' ≡ true
      → IsSerial chip d₀ (record { shared = shared; stage = set_stage s.stage i p' })
  inside_step i {p} {p'} e mv k k' =
      let has_lock = owned.lock.held i (ap is_inside e ∙ k) in
      let at_p =
        subst (λ q. At chip v.driver q s.shared.driver) (in_hand-mine s i has_lock ∙ e) v.at in
      let own = subst (λ q. Logged i q v.log) e (v.results i) in
      let still =
        (Step-IsOwned (thread i e mv) owned).lock.held i
          (ap is_inside (set_stage_self s.stage i p') ∙ k') in
      assemble s i (Move-Moved chip d₀ i v.serial at_p own k k' mv) still v.results

  At-free : s.shared.lock ≡ none → At chip v.driver idle s.shared.driver
  At-free free =
      subst (λ p. At chip v.driver p s.shared.driver)
        (ap (λ (l : Option ℕ). elim l as (λ _. Stage) [ none ↦ idle | some k ↦ s.stage k ]) free)
        v.at

  lock_step :
      (i : ℕ) (job : Job)
      → s.shared.lock ≡ none
      → IsSerial chip d₀ (record {
        shared = record s.shared { lock = some i };
        stage = set_stage s.stage i (locked job);
      })
  lock_step i job free =
      assemble s i (going_on chip d₀ i v.serial (to_locked (At-free free)) (λ job ret r. absurd r))
        refl v.results
    where
      to_locked : {d e : Driver} → At chip d idle e → At chip d (locked job) e
      to_locked at_idle = at_locked

  unlock_step :
      (i : ℕ) {job : Job} {ret : IoReturn}
      → s.stage i ≡ leaving job ret
      → IsSerial chip d₀ (record {
        shared = record s.shared { lock = none };
        stage = set_stage s.stage i (returned job ret);
      })
  unlock_step i {job} {ret} e =
      let has_lock = owned.lock.held i (ap is_inside e) in
      record {
        log = v.log;
        driver = v.driver;
        serial = v.serial;
        at =
            to_idle (
              subst (λ q. At chip v.driver q s.shared.driver) (in_hand-mine s i has_lock ∙ e) v.at);
        results =
            results-set_stage s.stage i (returned job ret) (λ x m. m)
              (subst (λ q. Logged i q v.log) e (v.results i)) v.results;
      }
    where
      to_idle : {d e : Driver} → At chip d (leaving job ret) e → At chip d idle e
      to_idle at_leaving = at_idle

  pub thread-IsSerial :
      (i : ℕ) {p p' : Stage} {shared : Shared}
      → s.stage i ≡ p
      → Move chip i s.shared p shared p'
      → IsSerial chip d₀ (record { shared = shared; stage = set_stage s.stage i p' })
  thread-IsSerial i e (call job) = outside_step i (waiting job) (ap is_inside e) (λ job ret r. r)
  thread-IsSerial i e (use_result) = outside_step i idle (ap is_inside e) (λ job ret r. r)
  thread-IsSerial i e (lock_bus {job} free) = lock_step i job free
  thread-IsSerial i e unlock_bus = unlock_step i e
  thread-IsSerial i e mv = inside_step i e mv refl refl
