-- ===== src/Device/Life/Release.antt =====
-- What a device nub holds after it is started and stopped.
use mathlib.Core.Bool.{false≢true}
use voodoo_i2c.Base.{
  sym, ◌∙◌, Bool, true, false, not, ◌≡◌, ◌⊎◌, refl, if_both, Bool-cases, inl, inr,
}
use voodoo_i2c.Driver.Types.{is_success}
use voodoo_i2c.Device.Life.{Held, Answers, release_resources, open_gate, start, stop}

pub record IsHeld (h : Held) : Type 0 where
  pub work_loop : h.has_work_loop ≡ true
  pub command_gate : h.has_command_gate ≡ true
  pub in_loop : h.gate_in_loop ≡ true
  pub enabled : h.gate_enabled ≡ true

pub record IsFree (h : Held) : Type 0 where
  pub work_loop : h.has_work_loop ≡ false
  pub command_gate : h.has_command_gate ≡ false
  pub in_loop : h.gate_in_loop ≡ false
  pub enabled : h.gate_enabled ≡ false

-- A gate that is gone is in no loop, and is not enabled.
abbrev HasNoStray : Held → Type 0
HasNoStray h = h.has_command_gate ≡ false → (h.gate_in_loop ≡ false) × (h.gate_enabled ≡ false)

release_resources-IsFree : (h : Held) → HasNoStray h → IsFree (release_resources h)
unfolding release_resources
release_resources-IsFree h stray = elim (Bool-cases h.has_command_gate) [
  | inl e ↦ record {
    work_loop = refl;
    command_gate = rw (e) refl;
    in_loop = rw (e) refl;
    enabled = rw (e) refl;
  }
  | inr e ↦
      let (in_loop, enabled) = stray e in
      record {
        work_loop = refl;
        command_gate = rw (e) refl;
        in_loop = rw (e) in_loop;
        enabled = rw (e) enabled;
      }
]

-- The nub that a start leaves: one that holds all and is registered, or one that holds nothing.
abbrev pub HasStarted : Bool × Held → Type 0
HasStarted r =
    ((r.0 ≡ true) × IsHeld r.1 × (r.1.is_registered ≡ true)) ⊎ ((r.0 ≡ false) × IsFree r.1)

open_gate-HasStarted :
    (a : Answers) (h : Held)
    → IsFree (record h { has_work_loop = false })
    → h.has_work_loop ≡ true
    → HasStarted (open_gate a h)
unfolding open_gate
open_gate-HasStarted a h free looped =
    let released = λ (gate : Bool).
      release_resources-IsFree (record h { has_command_gate = gate; gate_enabled = gate }) in
    elim (Bool-cases a.gate_made) [
      | inl made ↦ rw (made) (
          if_both {A = Bool × Held} HasStarted (not (is_success a.gate_added))
            (inr (refl, released true (λ f. absurd (false≢true (sym f)))))
            (inl (
              refl,
              record { work_loop = looped; command_gate = refl; in_loop = refl; enabled = refl },
              refl,
            )))
      | inr missing ↦ rw (missing) (inr (refl, released false (λ f. (free.in_loop, refl))))
    ]

-- A nub that holds nothing ends its start, whatever the system answers, either with a success, all
-- held and the service registered, or with a failure and nothing held.
pub start-HasStarted : (a : Answers) (h : Held) → IsFree h → HasStarted (start a h)
unfolding start open_gate
start-HasStarted a h free = elim (Bool-cases a.super_starts) [
  | inr asleep ↦ rw (asleep) (inr (refl, free))
  | inl begun ↦ rw (begun) (elim (Bool-cases a.work_loop_made) [
    | inl made ↦ rw (made) (
        open_gate-HasStarted a (record h { has_work_loop = true })
          (record {
            work_loop = refl;
            command_gate = free.command_gate;
            in_loop = free.in_loop;
            enabled = free.enabled;
          })
          refl)
    | inr missing ↦ rw (missing) (
        inr (
          refl,
          release_resources-IsFree (record h { has_work_loop = false })
              (λ f. (free.in_loop, free.enabled)),
        ))
  ])
]

-- A stop gives back all that a start has left.
pub stop-IsFree : (h : Held) → IsHeld h → IsFree (stop h)
unfolding stop
stop-IsFree h held =
    release_resources-IsFree h (λ f. absurd (false≢true (sym f ∙ held.command_gate)))
