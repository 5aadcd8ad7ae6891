-- ===== src/Controller/Pci.antt =====
-- VoodooI2CPCIController.cpp: a PCI Intel LPSS controller.
pub mod Power
use voodoo_i2c.Base.{
  ℕ, ◌+◌, ◌*◌, ◌/◌, Bool, true, false, not, Option, none, some, ◌==◌, if◌then◌else◌,
}
use voodoo_i2c.Base.State.{Cmd}
use voodoo_i2c.Registers.{Port, write_register}
use voodoo_i2c.Driver.Types.{IoReturn, success, is_success, error}
use voodoo_i2c.Controller.Physical.{
  Controller, MapAnswer, NubAnswer, map_memory, unmap_memory, publish_nub, release_resources,
}
use voodoo_i2c.Controller.Physical

-- The PCI device: its configuration space, and what was enabled in it.
pub record PciDevice : Type 0 where
  pub config : ℕ → ℕ
  pub power_management : Bool
  pub bus_master : Bool
  pub memory_enable : Bool

pub record PciController : Type 0 where
  pub base : Controller
  pub pci_device : PciDevice
  pub has_acpi_device : Bool

abbrev pub write_config : (ℕ → ℕ) → ℕ → ℕ → ℕ → ℕ
write_config config offset value a = if a == offset then value else config a

-- The argument is the offset of the power management capability, if there is one. The mask of the
-- power state is its two lowest bits, and D0 is 0.
pub configure_pci : Option ℕ → PciDevice → PciDevice
configure_pci capability d = record {
  config = elim capability [
    | none ↦ d.config
    | some offset ↦ write_config d.config (offset + 4) (d.config (offset + 4) / 4 * 4)
  ];
  power_management = true;
  bus_master = true;
  memory_enable = true;
}

-- `finds_path` and `finds_device`: the path in the registry, and the ACPI device behind it.
pub get_acpi_device : Bool → Bool → Cmd PciController IoReturn
get_acpi_device finds_path finds_device c =
    if not finds_path
    then (error, c)
    else if finds_device
    then (success, record c { has_acpi_device = true })
    else (error, record c { has_acpi_device = false })

-- Function and IDMA are taken out of reset.
pub skylake_lpss_reset_hack : Port → Port
skylake_lpss_reset_hack p = (write_register 7 0x204 p).1

abbrev pub reset_base : Controller → Controller
reset_base c = record c { port = skylake_lpss_reset_hack c.port }

pub wake_up : Option ℕ → MapAnswer → PciController → PciController
wake_up capability mapping c = record c {
  pci_device = configure_pci capability c.pci_device;
  base = record (reset_base (map_memory mapping c.base).1) { awake = true };
}

pub go_to_sleep : PciController → PciController
go_to_sleep c = record c { base = unmap_memory (record c.base { awake = false }) }

pub set_power_state : Option ℕ → MapAnswer → ℕ → Bool → PciController → PciController
set_power_state capability mapping which_state is_self c =
    if not is_self
    then c
    else if which_state == 0
    then if c.base.awake then go_to_sleep c else c
    else if c.base.awake
    then c
    else wake_up capability mapping c

-- What the system answers to `start`.
pub record System : Type 0 where
  pub is_started : Bool
  pub opens : Bool
  pub finds_path : Bool
  pub finds_device : Bool
  pub capability : Option ℕ
  pub mapping : MapAnswer
  pub nub : NubAnswer

pub start : System → Cmd PciController Bool
start system c =
    let (started, base) = Physical.start system.is_started system.opens c.base in
    let (found, c₁) =
      get_acpi_device system.finds_path system.finds_device (record c { base = base }) in
    let (mapped, base₁) = map_memory system.mapping c₁.base in
    let c₂ = record c₁ {
      base = base₁;
      pci_device = configure_pci system.capability c₁.pci_device;
    } in
    let (published, base₂) = publish_nub system.nub (reset_base c₂.base) in
    if not started
    then (false, record c { base = base })
    else if not (is_success found)
    then (false, c₁)
    else if not (is_success mapped)
    then (false, c₂)
    else if not (is_success published)
    then (false, record c₂ { base = base₂ })
    else (true, record c₂ { base = record base₂ { is_registered = true } })

pub stop : PciController → PciController
stop c = record c { has_acpi_device = false; base = Physical.stop c.base }
