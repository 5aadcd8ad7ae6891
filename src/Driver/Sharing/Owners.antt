-- ===== src/Driver/Sharing/Owners.antt =====
-- Who has the bus lock and who has the command gate.
use voodoo_i2c.Base.{
  ℕ, ◌≡◌, refl, ap, sym, ◌∙◌, Bool, true, false, Option, none, some, arith, subst,
}
use voodoo_i2c.Registers.{Chip}
use voodoo_i2c.Driver.Types.{Driver}
use voodoo_i2c.Driver.Transfer.{deliver}
use voodoo_i2c.Driver.Sharing.{
  System, Stage, Shared, Move, call, lock_bus, enter_gate, request, refuse, sleep, pass_deadline,
  get_signal, go_on, try_again, leave_gate, run_out, switch_power, unlock_bus, use_result,
  is_inside, is_gated, set_stage, rouse, Step, thread, hardware, Reach, begin, further,
}

-- A thread keeps what it has of a token, takes it while it is free, or gives it back.
data Handover (i : ℕ) : Bool → Option ℕ → Bool → Option ℕ → Type 0 where
  keep : {b : Bool} {token : Option ℕ} → Handover i b token b token
  take : Handover i false none true (some i)
  give : {token : Option ℕ} → Handover i true token false none

-- The threads that stand where `holds` says so are those that have the token.
pub record Has (holds : Stage → Bool) (stage : ℕ → Stage) (token : Option ℕ) : Type 0 where
  pub held : (i : ℕ) → holds (stage i) ≡ true → token ≡ some i
  pub holder : (i : ℕ) → token ≡ some i → holds (stage i) ≡ true

module _ (holds : Stage → Bool) {stage : ℕ → Stage} where
  Handover-Has :
      {i : ℕ} {b b' : Bool} {token token' : Option ℕ} (p' : Stage)
      → Handover i b token b' token'
      → b ≡ holds (stage i)
      → b' ≡ holds p'
      → Has holds stage token
      → Has holds (set_stage stage i p') token'
  Handover-Has {i} p' keep e e' h = record {
    held = λ j k. ground (arith, h.held j, h.held i);
    holder = λ j k. ground (arith, h.holder j, h.holder i);
  }
  Handover-Has {i} p' take e e' h = record {
    held = λ j k. ground (arith, h.held j);
    holder = λ j k. ground arith;
  }
  Handover-Has {i} p' give e e' h = record {
    held = λ j k. ground (arith, h.held j, h.held i);
    holder = λ j k. cc;
  }

  rouse-Has :
      {token : Option ℕ} (woken : Bool)
      → ((p : Stage) → holds (rouse woken p) ≡ holds p)
      → Has holds stage token
      → Has holds (λ j. rouse woken (stage j)) token
  rouse-Has woken same h = record {
    held = λ j k. h.held j (sym (same (stage j)) ∙ k);
    holder = λ j k. same (stage j) ∙ h.holder j k;
  }

module _ {chip : Chip} {i : ℕ} {s : Shared} where
  Move-lock :
      {p p' : Stage} {s' : Shared}
      → Move chip i s p s' p'
      → Handover i (is_inside p) s.lock (is_inside p') s'.lock
  Move-lock (call job) = keep
  Move-lock (lock_bus free) = subst (λ t. Handover i false t true (some i)) (sym free) take
  Move-lock (enter_gate free) = keep
  Move-lock (request b) = keep
  Move-lock (refuse b) = keep
  Move-lock sleep = keep
  Move-lock pass_deadline = keep
  Move-lock get_signal = keep
  Move-lock (go_on free) = keep
  Move-lock (try_again b) = keep
  Move-lock (leave_gate b) = keep
  Move-lock run_out = keep
  Move-lock switch_power = keep
  Move-lock unlock_bus = give
  Move-lock use_result = keep

  Move-gate :
      {p p' : Stage} {s' : Shared}
      → Move chip i s p s' p'
      → Handover i (is_gated p) s.gate (is_gated p') s'.gate
  Move-gate (call job) = keep
  Move-gate (lock_bus free) = keep
  Move-gate (enter_gate free) = subst (λ t. Handover i false t true (some i)) (sym free) take
  Move-gate (request b) = keep
  Move-gate (refuse b) = keep
  Move-gate sleep = give
  Move-gate pass_deadline = keep
  Move-gate get_signal = keep
  Move-gate (go_on free) = subst (λ t. Handover i false t true (some i)) (sym free) take
  Move-gate (try_again b) = keep
  Move-gate (leave_gate b) = give
  Move-gate run_out = give
  Move-gate switch_power = keep
  Move-gate unlock_bus = keep
  Move-gate use_result = keep

-- The thread between the lock and the unlock has the lock, the thread behind the gate has the gate.
pub record IsOwned (s : System) : Type 0 where
  pub lock : Has is_inside s.stage s.shared.lock
  pub gate : Has is_gated s.stage s.shared.gate

inside-rouse : (woken : Bool) (p : Stage) → is_inside (rouse woken p) ≡ is_inside p
inside-rouse woken p = ground arith

gated-rouse : (woken : Bool) (p : Stage) → is_gated (rouse woken p) ≡ is_gated p
gated-rouse woken p = ground arith

pub Step-IsOwned : {chip : Chip} {s t : System} → Step chip s t → IsOwned s → IsOwned t
Step-IsOwned (thread i {p' = p'} e mv) owned = record {
  lock = Handover-Has is_inside p' (Move-lock mv) (ap is_inside (sym e)) refl owned.lock;
  gate = Handover-Has is_gated p' (Move-gate mv) (ap is_gated (sym e)) refl owned.gate;
}
Step-IsOwned {chip} {s} hardware owned =
    let woken = (deliver chip s.shared.driver).0 in
    record {
      lock = rouse-Has is_inside woken (inside-rouse woken) owned.lock;
      gate = rouse-Has is_gated woken (gated-rouse woken) owned.gate;
    }

pub Reach-IsOwned : {chip : Chip} {d : Driver} {s : System} → Reach chip d s → IsOwned s
Reach-IsOwned begin = record {
  lock = record { held = λ i. cc; holder = λ i. cc };
  gate = record { held = λ i. cc; holder = λ i. cc };
}
Reach-IsOwned (further path st) = Step-IsOwned st (Reach-IsOwned path)

-- Whatever the threads call, and in whatever order they and the interrupts step, two threads are
-- never between the lock and the unlock together.
pub Reach-exclusive :
    {chip : Chip} {d : Driver} {s : System}
    → Reach chip d s
    → (i j : ℕ) → is_inside (s.stage i) ≡ true
    → is_inside (s.stage j) ≡ true
    → i ≡ j
Reach-exclusive path i j p q =
    let owned = Reach-IsOwned path in ground (arith, owned.lock.held i, owned.lock.held j)
