-- ===== src/Multitouch/Interface.antt =====
-- "Multitouch Support/VoodooI2CMultitouchInterface.cpp" and VoodooI2CMultitouchEngine.cpp: the
-- interface hands each report to its engines, the one with the highest score first.
pub mod Order
pub mod Dispatch
pub mod Membership
pub mod Listed
use mathlib.Core.List.Memᴰ
use voodoo_i2c.Base.{
  ℕ, Bool, true, false, Option, none, some, List, [], ◌∷◌, ltb, if◌then◌else◌, ◌≡◌, ◌≢◌, ◌⊎◌, ◌↔◌,
  ◌==◌, not,
}
use voodoo_i2c.Base.Int.{ℤ, pos, negsuc, ◌≤ℤ◌}
use voodoo_i2c.Multitouch.Transducer.{
  MultitouchEvent, MultitouchReturn, continue, break, Transducer, is_set, value_of,
}
use mathlib.Core.List.{Memᴰ}

-- An engine as the interface meets it: a number that names it, and its score, a UInt8.
pub record Engine : Type 0 where
  pub engine_id : ℕ
  pub score : ℕ

-- `orderEngines`
unfoldable pub order_engines : Engine → Engine → ℤ
order_engines a b =
    if ltb b.score a.score then pos 1 else if ltb a.score b.score then negsuc 0 else pos 0

-- No engine is ordered behind a later one.
abbrev pub IsOrdered : List Engine → Type 0
IsOrdered [] = Unit {0}
IsOrdered (a ∷ rest) = ((b : Engine) → Memᴰ b rest → pos 0 ≤ℤ order_engines a b) × IsOrdered rest

-- The system's ordered set, made with `orderEngines` for its order: its objects in their order.
pub record OrderedSet : Type 1 where
  pub Engines : Type 0
  pub with_capacity : Engines
  pub set_object : Engine → Engines → Engines
  pub remove_object : Engine → Engines → Engines
  pub contains_object : Engine → Engines → Bool
  pub objects : Engines → List Engine
  pub objects-IsOrdered : (s : Engines) → IsOrdered (objects s)
  pub none_at_first : objects with_capacity ≡ []
  pub mem-set :
      (a b : Engine) (s : Engines)
      → Memᴰ b (objects (set_object a s)) ↔ ((b ≡ a) ⊎ Memᴰ b (objects s))
  pub mem-remove :
      (a b : Engine) (s : Engines)
      → Memᴰ b (objects (remove_object a s)) ↔ ((b ≢ a) × Memᴰ b (objects s))
  pub mem-contains : (a : Engine) (s : Engines) → (contains_object a s ≡ true) ↔ Memᴰ a (objects s)

-- The loop of `handleInterruptReport`: the engines that are called, and what they leave. `handle` is
-- the handler of an engine, for this report, on the state of all the engines.
unfoldable pub dispatch :
    {S : Type 0} (handle : Engine → S → MultitouchReturn × S) → List Engine → S → List Engine × S
dispatch handle [] s = ([], s)
dispatch handle (e ∷ rest) s =
    let (result, s₁) = handle e s in
    let (called, s₂) = dispatch handle rest s₁ in
    elim result [ continue ↦ (e ∷ called, s₂) | break ↦ (e ∷ [], s₁) ]

module _ (set : OrderedSet) where
  open set use {Engines, with_capacity, set_object, remove_object, contains_object, objects}

  unfoldable pub handle_interrupt_report :
      {S : Type 0} (handle : Engine → S → MultitouchReturn × S) → Engines → S → List Engine × S
  handle_interrupt_report handle engines s = dispatch handle (objects engines) s

  -- A client that is no engine is `none`.
  unfoldable pub handle_open : Option Engine → Engines → Bool × Engines
  handle_open none engines = (false, engines)
  handle_open (some e) engines = (true, set_object e engines)

  unfoldable pub handle_close : Option Engine → Engines → Engines
  handle_close none engines = engines
  handle_close (some e) engines = remove_object e engines

  unfoldable pub handle_is_open : Option Engine → Engines → Bool
  handle_is_open none engines = false
  handle_is_open (some e) engines = contains_object e engines

  -- The engines that are told of a change; the Boolean is the result of the base class.
  unfoldable pub set_property : Bool → Engines → Bool × List Engine
  set_property is_set_below engines =
      if not is_set_below then (false, []) else (true, objects engines)

  -- `start` of the interface, where the base class starts.
  unfoldable pub start_interface : Bool → Option Engines
  start_interface super_starts = if not super_starts then none else some with_capacity

  unfoldable pub stop_interface : Option Engines → Option Engines
  stop_interface engines = none

  -- `start` of an engine, whose provider may be no interface: the engine opens it.
  unfoldable pub start_engine : Bool → Engine → Option Engines → Bool × Option Engines
  start_engine super_starts e none = (false, none)
  start_engine super_starts e (some engines) =
      if not super_starts
      then (false, some engines)
      else (true, some (handle_open (some e) engines).1)

  -- `willTerminate` of an engine, before the base class's.
  unfoldable pub will_terminate : Engine → Engines → Engines
  will_terminate e engines =
      if handle_is_open (some e) engines then handle_close (some e) engines else engines

-- The handler of the base class writes the contacts down and passes the report on.
pub data LogLine : Type 0 where
  contact_count_line : ℕ → LogLine
  transducer_line : ℕ → ℕ → ℕ → ℕ → ℕ → LogLine

unfoldable pub transducer_lines : List Transducer → List LogLine
transducer_lines [] = []
transducer_lines (t ∷ rest) =
    let lines = transducer_lines rest in
    if is_set t.tip_switch
    then transducer_line t.secondary_id (value_of t.coordinates.x) (value_of t.coordinates.y)
        (value_of t.coordinates.z) (value_of t.tip_pressure)
      ∷ lines
    else lines

unfoldable pub log_report : MultitouchEvent → MultitouchReturn × List LogLine
log_report event =
    let lines = transducer_lines event.transducers in
    (
      continue,
      if not (event.contact_count == 0)
          then contact_count_line event.contact_count ∷ lines
          else lines,
    )

abbrev pub default_score : ℕ
default_score = 0
