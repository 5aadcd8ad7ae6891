-- ===== src/Controller/Tests.antt =====
-- The register windows of two controllers.
use voodoo_i2c.Base.{refl, true, false, some, none, []}
use voodoo_i2c.Registers.{Chip}
use voodoo_i2c.Driver.Types.{success}
use voodoo_i2c.Controller.Physical.{Controller}
use voodoo_i2c.Controller.Physical.Laws.{IsWindowed, awake-IsWindowed}
use voodoo_i2c.Controller.Pci.{PciController, set_power_state}
use voodoo_i2c.Controller.Pci.Power.{set_power_state-IsWindowed}
use voodoo_i2c.Controller.Acpi.{AcpiController}
use voodoo_i2c.Controller.Acpi
use voodoo_i2c.Controller.Acpi.Power.{set_power_state-mmap}

abbrev base : Controller
base = record {
  port = record { mmap = some 0x1000; trace = [] };
  awake = true;
  has_provider = true;
  is_open = true;
  has_nub = true;
  is_powered = true;
  is_registered = true;
}

abbrev pci : PciController
pci = record {
  base = base;
  pci_device = record {
    config = λ a. 3;
    power_management = true;
    bus_master = true;
    memory_enable = true;
  };
  has_acpi_device = true;
}

abbrev acpi : AcpiController
acpi = record { base = base; legacy_intel_lpss = true; methods = [] }

set_power_state-IsWindowed_example :
    IsWindowed 0x1000 (set_power_state (some 0x80) (some (some 0x1000)) 0 true pci).base
set_power_state-IsWindowed_example =
    set_power_state-IsWindowed (some 0x80) 0x1000 0 true pci
      (awake-IsWindowed 0x1000 base refl refl)

set_power_state-mmap_example :
    IsWindowed 0x1000
      (Acpi.set_power_state (λ enabled. success) (some (some 0x1000)) 0 true acpi).base
set_power_state-mmap_example =
    set_power_state-mmap (λ enabled. success) 0x1000 0 true acpi
      (awake-IsWindowed 0x1000 base refl refl)

abbrev asleep : PciController
asleep = record pci {
  base = record base { awake = false; port = record { mmap = none; trace = [] } };
}

abbrev chip : Chip
chip trace offset = 1
