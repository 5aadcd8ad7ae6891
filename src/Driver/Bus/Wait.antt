-- ===== src/Driver/Bus/Wait.antt =====
-- `waitBusNotBusyI2C` reads the status at most 3001 times.
use voodoo_i2c.Base.{
  ℕ, zero, suc, ◌≤◌, ◌≡◌, refl, ◌⊎◌, inl, inr, true, false, List, [], ◌∷◌, if◌then◌else◌, length,
  arith, Bool-cases,
}
use voodoo_i2c.Base.Bits.{test_bit}
use voodoo_i2c.Base.Words.{u32}
use voodoo_i2c.Registers.{Chip, Access, reads, Port}
use voodoo_i2c.Registers.Laws.{IsMapped, read_mapped, extend}
use voodoo_i2c.Driver.Constants.{dw_ic_status, status_activity}
use voodoo_i2c.Driver.Types.{IoReturn, success, busy}
use voodoo_i2c.Driver.Bus.{wait_loop, wait_bus_not_busy_i2c}

-- The accesses of a row of reads with these answers, the first answer first.
abbrev pub read_all : List ℕ → List Access → List Access
read_all [] t = t
read_all (v ∷ vs) t = read_all vs (reads dw_ic_status v ∷ t)

abbrev pub AllActive : List ℕ → Type 0
AllActive [] = Unit {0}
AllActive (v ∷ vs) = (test_bit v status_activity ≡ true) × AllActive vs

-- What the wait returns: the answers are some active ones, and one that is not if it succeeds.
pub record Waited (most : ℕ) (p : Port) (r : IoReturn × Port) : Type 0 where
  pub answers : List ℕ
  pub active : AllActive answers
  pub outcome :
      ((r.0 ≡ busy)
        × (length answers ≡ most)
        × (r.1 ≡ record p { trace = read_all answers p.trace }))
      ⊎ ((v : ℕ) × (r.0 ≡ success)
          × (test_bit v status_activity ≡ false)
          × (suc (length answers) ≤ most)
          × (r.1 ≡ record p { trace = reads dw_ic_status v ∷ read_all answers p.trace }))

Waited-again :
    (most v : ℕ) (p : Port) (r : IoReturn × Port)
    → test_bit v status_activity ≡ true
    → Waited most (record p { trace = reads dw_ic_status v ∷ p.trace }) r
    → Waited (suc most) p r
Waited-again most v p r active w = record {
  answers = v ∷ w.answers;
  active = (active, w.active);
  outcome = elim w.outcome [
    | inl (e, n, t) ↦ inl (e, omega arith, t)
    | inr (v, e, idle, n, t) ↦ inr (v, e, idle, omega arith, t)
  ];
}

abbrev answer : Chip → Port → ℕ
answer chip p = u32 (chip p.trace dw_ic_status)

abbrev read_once : Chip → Port → Port
read_once chip p = record p { trace = reads dw_ic_status (answer chip p) ∷ p.trace }

wait_loop-zero :
    (chip : Chip) {p : Port} {base : ℕ}
    → IsMapped p base
    → wait_loop chip 0 p ≡ (
        if test_bit (answer chip p) status_activity
        then (busy, read_once chip p)
        else (success, read_once chip p))
unfolding wait_loop
wait_loop-zero chip m = rw (read_mapped m chip dw_ic_status) refl

pub wait_loop-suc :
    (chip : Chip) (n : ℕ) {p : Port} {base : ℕ}
    → IsMapped p base
    → wait_loop chip (suc n) p ≡ (
        if test_bit (answer chip p) status_activity
        then wait_loop chip n (read_once chip p)
        else (success, read_once chip p))
unfolding wait_loop
wait_loop-suc chip n {p} m = rw (read_mapped m chip dw_ic_status) refl

wait_loop-Waited :
    (chip : Chip) (n : ℕ) (p : Port) {base : ℕ}
    → IsMapped p base
    → Waited (suc n) p (wait_loop chip n p)
wait_loop-Waited chip zero p m =
    rw (wait_loop-zero chip m) (elim (Bool-cases (test_bit (answer chip p) status_activity)) [
      | inl e ↦ rw e (record {
        answers = answer chip p ∷ [];
        active = (e, tt);
        outcome = inl (refl, refl, refl);
      })
      | inr e ↦ rw e (record {
        answers = [];
        active = tt;
        outcome = inr (answer chip p, refl, e, omega arith, refl);
      })
    ])
wait_loop-Waited chip (suc n) p m =
    rw (wait_loop-suc chip n m) (elim (Bool-cases (test_bit (answer chip p) status_activity)) [
      | inl e ↦ rw e (
          Waited-again (suc n) (answer chip p) p _ e
            (wait_loop-Waited chip n (read_once chip p) (extend m _)))
      | inr e ↦ rw e (record {
        answers = [];
        active = tt;
        outcome = inr (answer chip p, refl, e, omega arith, refl);
      })
    ])

-- The wait for the bus ends. Over a mapped window it reads the status at most 3001 times: it
-- succeeds at the first answer without the activity bit, and gives up as busy behind 3001 answers
-- that all have it; it writes nothing.
pub wait_bus_not_busy_i2c-Waited :
    (chip : Chip) (p : Port) {base : ℕ}
    → IsMapped p base
    → Waited 3001 p (wait_bus_not_busy_i2c chip p)
unfolding wait_bus_not_busy_i2c
wait_bus_not_busy_i2c-Waited chip p m = wait_loop-Waited chip 3000 p m
