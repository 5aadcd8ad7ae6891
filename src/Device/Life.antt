-- ===== src/Device/Life.antt =====
-- `start`, `stop`, `releaseResources` and `getGPIOController` of the device nub. What the system
-- answers is an argument.
pub mod Release
use voodoo_i2c.Base.{
  ℕ, Bool, true, false, not, ◌&&◌, Option, none, some, if◌then◌else◌, List, [], ◌∷◌,
}
use voodoo_i2c.Driver.Types.{IoReturn, is_success}

-- What the nub holds: its work loop, its command gate, whether the gate is a source of the loop, and
-- whether it is enabled; and whether the service is registered.
pub record Held : Type 0 where
  pub has_work_loop : Bool
  pub has_command_gate : Bool
  pub gate_in_loop : Bool
  pub gate_enabled : Bool
  pub is_registered : Bool

unfoldable pub release_resources : Held → Held
release_resources h =
    let gate_gone =
      if h.has_command_gate
      then record h { gate_enabled = false; gate_in_loop = false; has_command_gate = false }
      else h in
    record gate_gone { has_work_loop = false }

-- The system's answers: whether the base class starts, and whether the loop and the gate can be made
-- and joined. A new gate is enabled.
pub record Answers : Type 0 where
  pub super_starts : Bool
  pub work_loop_made : Bool
  pub gate_made : Bool
  pub gate_added : IoReturn

unfoldable pub open_gate : Answers → Held → Bool × Held
open_gate a h =
    let made = record h { has_command_gate = a.gate_made; gate_enabled = a.gate_made } in
    if not a.gate_made
    then (false, release_resources made)
    else if not (is_success a.gate_added)
    then (false, release_resources made)
    else (true, record made { gate_in_loop = true; is_registered = true })

unfoldable pub start : Answers → Held → Bool × Held
start a h =
    let looped = record h { has_work_loop = a.work_loop_made } in
    if not a.super_starts
    then (false, h)
    else if not a.work_loop_made
    then (false, release_resources looped)
    else open_gate a looped

unfoldable pub stop : Held → Held
stop h = release_resources h

-- A service that matches within a second, which may be no GPIO controller.
unfoldable pub get_gpio_controller : Option (ℕ × Bool) → Option ℕ
get_gpio_controller none = none
get_gpio_controller (some (service, is_gpio)) = if is_gpio then some service else none
