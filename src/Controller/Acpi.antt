-- ===== src/Controller/Acpi.antt =====
-- VoodooI2CACPIController.cpp: a controller that ACPI describes.
pub mod Power
use voodoo_i2c.Base.{ℕ, Bool, true, false, not, List, ◌∷◌, ◌==◌, if◌then◌else◌}
use voodoo_i2c.Base.State.{Cmd}
use voodoo_i2c.Registers.{Port, write_register}
use voodoo_i2c.Driver.Types.{IoReturn, success, is_success, no_power, BusState, off, on, to_word}
use voodoo_i2c.Controller.Physical.{
  Controller, MapAnswer, NubAnswer, map_memory, unmap_memory, publish_nub,
}
use voodoo_i2c.Controller.Physical

-- `methods`: the power methods evaluated so far, _PS0 as `on` and _PS3 as `off`, the newest first.
pub record AcpiController : Type 0 where
  pub base : Controller
  pub legacy_intel_lpss : Bool
  pub methods : List BusState

-- LPSS_PRIVATE_CLOCK_GATING is 0x800.
pub set_clk_gating : Bool → BusState → Controller → Controller
set_clk_gating legacy enabled c =
    if not legacy then c else record c { port = (write_register (to_word enabled) 0x800 c.port).1 }

-- The status of the evaluation is an `IOReturn`, whose success is 0, and is tested with `!`.
pub set_acpi_power_state : (BusState → IoReturn) → BusState → Cmd AcpiController IoReturn
set_acpi_power_state evaluate enabled c = (
  if is_success (evaluate enabled) then no_power else success,
  record c { methods = enabled ∷ c.methods },
)

abbrev pub clk_gate : BusState → AcpiController → AcpiController
clk_gate enabled c = record c { base = set_clk_gating c.legacy_intel_lpss enabled c.base }

pub go_to_sleep : (BusState → IoReturn) → AcpiController → AcpiController
go_to_sleep evaluate c =
    let c₁ = clk_gate off (record c { base = record c.base { awake = false } }) in
    (set_acpi_power_state evaluate off (record c₁ { base = unmap_memory c₁.base })).1

pub wake_up : (BusState → IoReturn) → MapAnswer → AcpiController → AcpiController
wake_up evaluate mapping c =
    let c₁ = (set_acpi_power_state evaluate on c).1 in
    let c₂ = clk_gate on (record c₁ { base = (map_memory mapping c₁.base).1 }) in
    record c₂ { base = record c₂.base { awake = true } }

pub set_power_state : (BusState → IoReturn) → MapAnswer → ℕ → Bool → AcpiController → AcpiController
set_power_state evaluate mapping which_state is_self c =
    if not is_self
    then c
    else if which_state == 0
    then if c.base.awake then go_to_sleep evaluate c else c
    else if c.base.awake
    then c
    else wake_up evaluate mapping c

-- What the system answers to `start`.
pub record System : Type 0 where
  pub is_started : Bool
  pub opens : Bool
  pub is_legacy : Bool
  pub evaluate : BusState → IoReturn
  pub mapping : MapAnswer
  pub nub : NubAnswer

pub start : System → Cmd AcpiController Bool
start system c =
    let (started, base) = Physical.start system.is_started system.opens c.base in
    let c₁ =
      (set_acpi_power_state system.evaluate on
        (record c { base = base; legacy_intel_lpss = system.is_legacy })).1 in
    let (mapped, base₁) = map_memory system.mapping c₁.base in
    let c₂ = record c₁ { base = base₁ } in
    let c₃ = clk_gate on c₂ in
    let (published, base₂) = publish_nub system.nub c₃.base in
    if not started
    then (false, record c { base = base })
    else if not (is_success mapped)
    then (false, c₂)
    else if not (is_success published)
    then (false, record c₃ { base = base₂ })
    else (true, record c₃ { base = record base₂ { is_registered = true } })

pub stop : (BusState → IoReturn) → AcpiController → AcpiController
stop evaluate c =
    let c₁ = (set_acpi_power_state evaluate off (clk_gate off c)).1 in
    record c₁ { base = Physical.stop c₁.base }
