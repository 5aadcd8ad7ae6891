-- ===== src/Driver.antt =====
-- VoodooI2C/VoodooI2C/VoodooI2CController/VoodooI2CControllerDriver.cpp and its headers: the driver
-- of a Synopsys DesignWare I2C block.
pub mod Constants
pub mod Types
pub mod Bus
pub mod Same
pub mod Config
pub mod Abort
pub mod Lifecycle
pub mod Transmit
pub mod Receive
pub mod Interrupt
pub mod Transfer
pub mod Sharing
pub mod Samples
mod Tests
