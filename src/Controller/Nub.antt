-- ===== src/Controller/Nub.antt =====
-- VoodooI2C/VoodooI2C/VoodooI2CController/VoodooI2CControllerNub.cpp: `getACPIParams`, `attach`,
-- `start`, and the functions that pass a call on to the controller or to its provider. What the system
-- gives is an argument.
use voodoo_i2c.Base.State.{Cmd}
use voodoo_i2c.Registers.{Chip, read_register, write_register}
use voodoo_i2c.Controller.Physical.{Controller}
use voodoo_i2c.Base.{
  not, [], ◌∷◌, ℕ, Bool, true, false, Option, none, some, List, if◌then◌else◌, get_elem?,
}
use voodoo_i2c.Base.Words.{u32}

-- What `evaluateObject` gives: nothing for a failure or a null object; of a package, the elements,
-- each a number or not; or an object of another kind.
pub data AcpiObject : Type 0 where
  elements : List (Option ℕ) → AcpiObject
  scalar : AcpiObject

-- The numbers behind the pointers `hcnt`, `lcnt` and `sda_hold`.
pub record Timing : Type 0 where
  pub hcnt : ℕ
  pub lcnt : ℕ
  pub sda_hold : ℕ

-- The element as a 32-bit number, or the value that stood there.
abbrev pub element : List (Option ℕ) → ℕ → ℕ → ℕ
element values i old = elim (get_elem? values i) [
  | none ↦ old
  | some value ↦ elim value [ none ↦ old | some n ↦ u32 n ]
]

-- The result says whether the method is implemented. `wants_sda` stands for `sda_hold != NULL`.
unfoldable pub get_acpi_params : Option AcpiObject → Bool → Timing → Bool × Timing
get_acpi_params none wants_sda t = (false, t)
get_acpi_params (some scalar) wants_sda t = (false, t)
get_acpi_params (some (elements values)) wants_sda t = (
  true,
  record {
    hcnt = element values 0 t.hcnt;
    lcnt = element values 1 t.lcnt;
    sda_hold = if wants_sda then element values 2 t.sda_hold else t.sda_hold;
  },
)

-- The calls that the nub passes to the provider of its controller, with the source.
pub data ProviderCall : Type 0 where
  disable_source enable_source type_of_source register_source unregister_source : ℕ → ProviderCall

-- `attached` is only logged; the cast of the provider says whether it is a controller.
pub record ControllerNub : Type 0 where
  pub has_controller : Bool
  pub is_service_registered : Bool

unfoldable pub nub_attach : Bool → Cmd ControllerNub Bool
nub_attach is_controller nub =
    let found = record nub { has_controller = is_controller } in
    if not is_controller then (false, found) else (true, found)

unfoldable pub nub_disable_interrupt : ℕ → List ProviderCall
nub_disable_interrupt source = disable_source source ∷ []

unfoldable pub nub_enable_interrupt : ℕ → List ProviderCall
nub_enable_interrupt source = enable_source source ∷ []

unfoldable pub nub_get_interrupt_type : ℕ → List ProviderCall
nub_get_interrupt_type source = type_of_source source ∷ []

unfoldable pub nub_register_interrupt : ℕ → List ProviderCall
nub_register_interrupt source = register_source source ∷ []

unfoldable pub nub_unregister_interrupt : ℕ → List ProviderCall
nub_unregister_interrupt source = unregister_source source ∷ []

unfoldable pub nub_read_register : Chip → ℕ → Cmd Controller ℕ
nub_read_register chip offset c =
    let (value, port) = read_register chip offset c.port in (value, record c { port = port })

unfoldable pub nub_write_register : ℕ → ℕ → Cmd Controller (Unit {0})
nub_write_register value offset c =
    let (done, port) = write_register value offset c.port in (done, record c { port = port })

unfoldable pub start_nub : Bool → Cmd ControllerNub Bool
start_nub super_starts nub =
    if not super_starts then (false, nub) else (true, record nub { is_service_registered = true })
