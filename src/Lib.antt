-- ===== src/Lib.antt =====
-- VoodooI2C: drivers for I2C controllers and the devices behind them. This library models the
-- controllers, the driver of the Synopsys DesignWare block, the parser of ACPI resources, the device
-- nub, the multitouch interface with its native engine, and the services.
--
-- The parts and how they interact. A physical controller (PCI or ACPI) maps the registers and
-- publishes a nub; the driver reaches the block through that nub, and its provider's interrupt line;
-- a device nub turns a request of a client into messages, which the driver transfers. A transfer is a
-- request, a sleep, and interrupts in between that fill the transmit FIFO and drain the receive FIFO.
-- A satellite of a touch device hands multitouch events to the interface, which passes them to its
-- engines by score; the native engine turns them into messages to VoodooInput.
--
-- Files and code (paths from the repository's root).
--   Registers       VoodooI2C/VoodooI2C/VoodooI2CController/VoodooI2CController.cpp: readRegister and
--                   writeRegister. A Chip is a function from the accesses so far to the value of a
--                   register, so a theorem for every Chip covers every behaviour of the hardware. A
--                   Port is the mapping with the accesses made, the newest first.
--   Controller      Physical: the rest of that file; Pci: VoodooI2CPCIController.cpp; Acpi:
--                   VoodooI2CACPIController.cpp; Nub: VoodooI2CControllerNub.cpp, in
--                   the same directory.
--   Driver          VoodooI2CControllerDriver.cpp and .hpp there, and VoodooI2CControllerConstants.hpp:
--                   Constants, Types, Bus (toggleBusState, toggleInterrupts, waitBusNotBusyI2C,
--                   initialiseBus), Config (getBusConfig), Abort (handleAbortI2C), Transmit
--                   (transferMessageToBus), Receive (readFromBus), Interrupt (handleInterrupt,
--                   readClearInterruptBits), Transfer (requestTransferI2C, prepareTransferI2C,
--                   transferI2CGated), Sharing (transferI2C and setPowerState under the bus lock and the
--                   command gate, in several threads), Lifecycle (init, probe, start, publishNubs, setPowerState,
--                   releaseResources, stop).
--   Parser          Dependencies/VoodooI2CACPIResourcesParser, with Table, the bytes of descriptors
--                   as the ACPI specification lays them down.
--   Device          VoodooI2C/VoodooI2C/VoodooI2CDevice/VoodooI2CDeviceNub.cpp: Dsm (evaluateDSM,
--                   getDeviceResourcesDSM), Resources (parseResourcesCRS, parseResourcesDSM,
--                   validateAPICInterrupt, getDeviceResources, attach), Messages (readI2CGated,
--                   writeI2CGated, writeReadI2CGated, and what runs them behind the gate), Lines (the interrupt calls), Life
--                   (start, stop, releaseResources, getGPIOController).
--   Multitouch      Multitouch Support: Transducer (VoodooI2CDigitiserTransducer.hpp and .cpp,
--                   VoodooI2CDigitiserStylus.cpp, MultitouchHelpers.hpp), ForceClick, Message, Contacts
--                   and Native (Native/VoodooI2CNativeEngine.cpp), Interface (VoodooI2CMultitouchInterface.cpp,
--                   VoodooI2CMultitouchEngine.cpp).
--   Services        Plane: Dependencies/VoodooI2CServices; Helpers: Dependencies/helpers.cpp.
--   Base            shared helpers: integers, lists, bits, 32-bit words, commands.
--
-- State and operations. A function of the source is a definition of the same name in snake case. An
-- operation on the registers is a command on a Port, one on the driver a function of the Driver
-- record, which has the structure bus_device, memory as a function from addresses to bytes, the
-- interrupt line and the registration flag. Loops over messages and bytes are structural recursion.
-- What the system, ACPI, the registry or the GPIO controller answers is an argument. What the headers
-- of VoodooInput fix is a Layout, and the ordered set of the system a record of operations and laws.
-- A report that leaves the slots of its message is none.
--
-- In Driver/Sharing a step is a part of one thread's call or an interrupt: the lock is taken, the gate
-- is entered, a transfer is prepared up to its sleep, it sleeps, it goes on behind the sleep. What
-- interrupts do within such a part is not told apart from what they do before or behind it.
--
-- Driver/Transfer/Served states what a block does that serves a transfer which writes: it is enabled as
-- it was told last, sends each word at once, and reports TX_EMPTY, and STOP_DET from a stop until that
-- is cleared; the interrupt status is what it reports under the mask that was set last.
--
-- Bounds and fuel. The polls of toggleBusState (1001) and waitBusNotBusyI2C (3001) and the tries of
-- transferI2CGated (6) are the source's own counters. The recursion of parseACPIResources runs on
-- fuel; each descriptor takes at least three bytes, so a third of the size is enough, where the size
-- leaves room for one descriptor below 2^32. Words wrap at 2^32, and a signed reading of a word is
-- written out.
--
-- Not modelled: the delays and the log lines, but for the lines of an aborted transfer and of a
-- multitouch report; the git submodules VoodooGPIO and VoodooInput, which are parameters or
-- recorded calls; free, and the retain counts of objects other than the client of the native
-- engine.
pub mod Base
pub mod Registers
pub mod Controller
pub mod Driver
pub mod Parser
pub mod Device
pub mod Multitouch
pub mod Services
