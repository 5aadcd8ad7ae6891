-- ===== src/Driver/Bus/Toggle.antt =====
-- `toggleBusState` polls at most 1001 times, and tells whether the block followed.
use voodoo_i2c.Base.{
  if◌then◌else◌, ℕ, zero, suc, ◌%◌, ◌≤◌, ◌≡◌, refl, ◌⊎◌, inl, inr, Bool, true, false, List, [], ◌∷◌,
  ◌==◌, length, arith, Bool-cases,
}
use voodoo_i2c.Base.Words.{u32}
use voodoo_i2c.Registers.{Chip, Access, reads, writes, Port, write_register}
use voodoo_i2c.Registers.Laws.{IsMapped, read_mapped, write_mapped, extend}
use voodoo_i2c.Driver.Constants.{dw_ic_enable, dw_ic_enable_status}
use voodoo_i2c.Driver.Types.{IoReturn, success, timeout, BusState, to_word}
use voodoo_i2c.Driver.Bus.{toggle_loop, toggle_bus_state}

abbrev pub agrees : BusState → ℕ → Bool
agrees enabled v = v % 2 == to_word enabled

-- The accesses of a row of polls with these answers, the first answer first.
abbrev pub polled : BusState → List ℕ → List Access → List Access
polled enabled [] t = t
polled enabled (v ∷ vs) t =
    polled enabled vs (reads dw_ic_enable_status v ∷ writes dw_ic_enable (to_word enabled) ∷ t)

-- Each answer disagrees.
abbrev pub Refuses : BusState → List ℕ → Type 0
Refuses enabled [] = Unit {0}
Refuses enabled (v ∷ vs) = (agrees enabled v ≡ false) × Refuses enabled vs

-- The last answer agrees, and no other.
abbrev pub Settles : BusState → List ℕ → Type 0
Settles enabled [] = ⊥
Settles enabled (v ∷ []) = agrees enabled v ≡ true
Settles enabled (v ∷ w ∷ vs) = (agrees enabled v ≡ false) × Settles enabled (w ∷ vs)

pub record Toggled (enabled : BusState) (most : ℕ) (p : Port) (r : IoReturn × Port) : Type 0 where
  pub answers : List ℕ
  pub accesses : r.1 ≡ record p { trace = polled enabled answers p.trace }
  pub outcome :
      ((r.0 ≡ success) × Settles enabled answers × (length answers ≤ most))
      ⊎ ((r.0 ≡ timeout) × Refuses enabled answers × (length answers ≡ most))

Toggled-again :
    (enabled : BusState) (most v : ℕ) (p : Port) (r : IoReturn × Port)
    → agrees enabled v ≡ false
    → Toggled enabled most
        (record p {
          trace = reads dw_ic_enable_status v ∷ writes dw_ic_enable (to_word enabled) ∷ p.trace;
        })
        r
    → Toggled enabled (suc most) p r
Toggled-again enabled most v p r no_match t = record {
  answers = v ∷ t.answers;
  accesses = t.accesses;
  outcome = again t.answers t.outcome;
}
  where
    again :
        (vs : List ℕ)
        → ((r.0 ≡ success) × Settles enabled vs × (length vs ≤ most))
          ⊎ ((r.0 ≡ timeout) × Refuses enabled vs × (length vs ≡ most))
        → ((r.0 ≡ success) × Settles enabled (v ∷ vs) × (length (v ∷ vs) ≤ suc most))
          ⊎ ((r.0 ≡ timeout) × Refuses enabled (v ∷ vs) × (length (v ∷ vs) ≡ suc most))
    again [] (inl (e, s, n)) = absurd s
    again (w ∷ ws) (inl (e, s, n)) = inl (e, (no_match, s), omega arith)
    again vs (inr (e, s, n)) = inr (e, (no_match, s), omega arith)

-- The answer to one poll, and the state behind it.
abbrev answer : Chip → BusState → Port → ℕ
answer chip enabled p =
    u32 (chip (writes dw_ic_enable (to_word enabled) ∷ p.trace) dw_ic_enable_status)

abbrev polled_once : Chip → BusState → Port → Port
polled_once chip enabled p = record p {
  trace =
      reads dw_ic_enable_status (answer chip enabled p)
      ∷ writes dw_ic_enable (to_word enabled)
      ∷ p.trace;
}

write_enable :
    (enabled : BusState) {p : Port} {base : ℕ}
    → IsMapped p base
    → write_register (to_word enabled) dw_ic_enable p
      ≡ (tt, record p { trace = writes dw_ic_enable (to_word enabled) ∷ p.trace })
write_enable BusState.off m = write_mapped m 0 dw_ic_enable
write_enable BusState.on m = write_mapped m 1 dw_ic_enable

toggle_loop-zero :
    (chip : Chip) (enabled : BusState) {p : Port} {base : ℕ}
    → IsMapped p base
    → toggle_loop chip enabled 0 p ≡ (
        if agrees enabled (answer chip enabled p)
        then (success, polled_once chip enabled p)
        else (IoReturn.timeout, polled_once chip enabled p))
unfolding toggle_loop
toggle_loop-zero chip enabled {p} m =
    rw
      (
        write_enable enabled m,
        read_mapped (extend m (writes dw_ic_enable (to_word enabled) ∷ p.trace)) chip
            dw_ic_enable_status,
      )
      refl

toggle_loop-suc :
    (chip : Chip) (enabled : BusState) (n : ℕ) {p : Port} {base : ℕ}
    → IsMapped p base
    → toggle_loop chip enabled (suc n) p ≡ (
        if agrees enabled (answer chip enabled p)
        then (success, polled_once chip enabled p)
        else toggle_loop chip enabled n (polled_once chip enabled p))
unfolding toggle_loop
toggle_loop-suc chip enabled n {p} m =
    rw
      (
        write_enable enabled m,
        read_mapped (extend m (writes dw_ic_enable (to_word enabled) ∷ p.trace)) chip
            dw_ic_enable_status,
      )
      refl

toggle_loop-Toggled :
    (chip : Chip) (enabled : BusState) (n : ℕ) (p : Port) {base : ℕ}
    → IsMapped p base
    → Toggled enabled (suc n) p (toggle_loop chip enabled n p)
toggle_loop-Toggled chip enabled zero p m =
    rw (toggle_loop-zero chip enabled m)
      (elim (Bool-cases (agrees enabled (answer chip enabled p))) [
        | inl e ↦ rw e (record {
          answers = answer chip enabled p ∷ [];
          accesses = refl;
          outcome = inl (refl, e, omega arith);
        })
        | inr e ↦ rw e (record {
          answers = answer chip enabled p ∷ [];
          accesses = refl;
          outcome = inr (refl, (e, tt), refl);
        })
      ])
toggle_loop-Toggled chip enabled (suc n) p m =
    rw (toggle_loop-suc chip enabled n m)
      (elim (Bool-cases (agrees enabled (answer chip enabled p))) [
        | inl e ↦ rw e (record {
          answers = answer chip enabled p ∷ [];
          accesses = refl;
          outcome = inl (refl, e, omega arith);
        })
        | inr e ↦ rw e (
            Toggled-again enabled (suc n) (answer chip enabled p) p _ e
              (toggle_loop-Toggled chip enabled n (polled_once chip enabled p) (extend m _)))
      ])

-- `toggleBusState` ends. Over a mapped window it writes the enable register and reads the status in
-- turn, at most 1001 times: it succeeds at the first answer that agrees with the state asked for,
-- and times out behind 1001 answers that all disagree.
pub toggle_bus_state-Toggled :
    (chip : Chip) (enabled : BusState) (p : Port) {base : ℕ}
    → IsMapped p base
    → Toggled enabled 1001 p (toggle_bus_state chip enabled p)
unfolding toggle_bus_state
toggle_bus_state-Toggled chip enabled p m = toggle_loop-Toggled chip enabled 1000 p m
