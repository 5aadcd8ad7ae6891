-- ===== src/Multitouch/ForceClick.antt =====
-- `isForceClickEnabled` of "Multitouch Support/Native/VoodooI2CNativeEngine.cpp".
pub mod Preferences
pub mod Stale
use voodoo_i2c.Base.{
  ℕ, suc, ◌+◌, ◌-◌, ◌%◌, ◌^◌, Bool, true, false, not, Option, none, some, List, [], ◌∷◌, ltb, ◌==◌,
  if◌then◌else◌,
}

-- The keys that the engine reads; every other one is `unread`, with a number for its name.
pub data Key : Type 0 where
  clicking force_suppressed : Key
  unread : ℕ → Key

pub data Preference : Type 0 where
  boolean : Bool → Preference
  number : ℕ → Preference
  other : Preference

-- The dictionary in the order of its iterator.
abbrev pub Preferences : Type 0
Preferences = List (Key × Preference)

-- What one call meets: the time, and the property of the registry, which can be missing. A
-- dictionary that gives no iterator is an empty list.
pub record Reading : Type 0 where
  pub now : ℕ
  pub preferences : Option Preferences

pub record ForceClick : Type 0 where
  pub is_enabled : Bool
  pub update_time : ℕ

-- The loop over the keys, with its `break`s.
unfoldable pub read_preferences : Preferences → Bool → Bool
read_preferences [] enabled = enabled
read_preferences ((clicking, boolean b) ∷ rest) enabled =
    let after = read_preferences rest enabled in if not b then false else after
read_preferences ((clicking, number n) ∷ rest) enabled =
    let after = read_preferences rest enabled in if n == 0 then false else after
read_preferences ((clicking, other) ∷ rest) enabled = read_preferences rest enabled
read_preferences ((force_suppressed, boolean b) ∷ rest) enabled = read_preferences rest (not b)
read_preferences ((force_suppressed, number n) ∷ rest) enabled = read_preferences rest enabled
read_preferences ((force_suppressed, other) ∷ rest) enabled = read_preferences rest enabled
read_preferences ((unread n, v) ∷ rest) enabled = read_preferences rest enabled

-- The conversion to nanoseconds is the system's. Times are UInt64.
module _ (nanoseconds : ℕ → ℕ) where
  abbrev pub is_recent : ℕ → ForceClick → Bool
  is_recent now f = ltb (nanoseconds ((now + 2 ^ 64 - f.update_time) % 2 ^ 64)) 1000000000

  unfoldable pub is_force_click_enabled : Reading → ForceClick → Bool × ForceClick
  is_force_click_enabled reading f =
      if is_recent reading.now f
      then (f.is_enabled, record f { update_time = reading.now })
      else elim reading.preferences [
        | none ↦ (f.is_enabled, f)
        | some entries ↦
            let enabled = read_preferences entries f.is_enabled in
            (enabled, record { is_enabled = enabled; update_time = reading.now })
      ]
