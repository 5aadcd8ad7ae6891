-- ===== src/Controller.antt =====
-- VoodooI2C/VoodooI2C/VoodooI2CController: the physical controllers, and the nub between them and
-- the driver. The register window itself is in Registers.
mod Tests
pub mod Nub
pub mod Physical
pub mod Pci
pub mod Acpi
