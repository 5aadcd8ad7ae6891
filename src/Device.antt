-- ===== src/Device.antt =====
-- VoodooI2C/VoodooI2C/VoodooI2CDevice: the nub of one I2C device. What ACPI, the system and the GPIO
-- controller answer is an argument.
mod Tests
pub mod Dsm
pub mod Resources
pub mod Messages
pub mod Lines
pub mod Life
