-- ===== src/Driver/Samples.antt =====
-- A driver in the middle of a transfer, and chips, for the tests.
use voodoo_i2c.Base.{true, [], ◌∷◌, some, ◌==◌, if◌then◌else◌, refl}
use voodoo_i2c.Registers.{Chip, Port}
use voodoo_i2c.Registers.Laws.{IsMapped}
use voodoo_i2c.Driver.Types.{Message, BusDevice, Driver}
use voodoo_i2c.Driver.Lifecycle.{initial_device}

-- Every register is 0.
abbrev pub quiet_chip : Chip
quiet_chip trace offset = 0

-- A block with a full transmit FIFO of 64 words.
abbrev pub full_chip : Chip
full_chip trace offset = if offset == 0x74 then 64 else 0

-- An enabled block that aborts the transfer: bit 6 of the status.
abbrev pub abort_chip : Chip
abort_chip trace offset =
    if offset == 0x6c
    then 1
    else if offset == 0x2c
    then 0x40
    else if offset == 0x34
    then 0x40
    else 0

abbrev pub port : Port
port = record { mmap = some 0x1000; trace = [] }

abbrev pub port_IsMapped : IsMapped port 0x1000
port_IsMapped = record { mapped = refl; nonzero = refl }

abbrev pub write_message : Message
write_message = record { address = 0x2c; buffer = 0x100; flags = 0; length = 2 }

abbrev pub read_message : Message
read_message = record { address = 0x2c; buffer = 0x200; flags = 1; length = 3 }

-- A write of two bytes, and a read of three.
abbrev pub device : BusDevice
device = record initial_device {
  bus_config = 0x65;
  messages = write_message ∷ read_message ∷ [];
  message_number = 2;
  receive_fifo_depth = 64;
  transaction_fifo_depth = 64;
}

abbrev pub driver : Driver
driver = record {
  bus_device = device;
  port = port;
  memory = λ a. a;
  behind_messages = write_message;
  line_enabled = true;
  is_interrupt_registered = true;
}
