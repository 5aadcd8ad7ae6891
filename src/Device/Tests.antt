-- ===== src/Device/Tests.antt =====
-- The resources of one nub, its start, and the words of its combined request.
use voodoo_i2c.Driver.Transmit.Words.{words_from, bytes_from, mark_first, mark_last}
use voodoo_i2c.Device.Messages.{write_read_messages}
use voodoo_i2c.Device.Messages.Words.{write_read_messages-words}
use voodoo_i2c.Base.{replicate, ◌++◌, ◌≡◌, refl, true, false, some}
use voodoo_i2c.Driver.Types.{Memory, success, error}
use voodoo_i2c.Parser.Samples.{blank}
use voodoo_i2c.Device.Life.{Held, Answers, start}
use voodoo_i2c.Device.Life.Release.{HasStarted, start-HasStarted}
use voodoo_i2c.Device.Resources.{DeviceNub, Platform, use_resources}
use voodoo_i2c.Device.Resources.Choice.{Settled, use_resources-Settled}

abbrev fresh : DeviceNub
fresh = record {
  i2c_address = 0;
  use_10bit_addressing = false;
  has_gpio_interrupts = false;
  has_apic_interrupts = false;
  gpio_pin = 0;
  gpio_irq = 0;
}

-- The interrupt pin is too high for the APIC.
abbrev platform : Platform
platform = record {
  interrupt_pin = some 0x55;
  kernel_arg = false;
  pci_force_polling = some false;
  has_gpio_controller = true;
}

use_resources-Settled_example :
    ((use_resources platform blank blank fresh).0 ≡ success)
    × Settled platform blank blank (use_resources platform blank blank fresh).1
use_resources-Settled_example = use_resources-Settled platform blank blank fresh refl refl refl

abbrev memory : Memory
memory a = a

write_read_messages-words_example :
    words_from memory true 0 2 (write_read_messages fresh 0x20 2 0x40 3)
    ≡ bytes_from memory 0x20 2 ++ mark_first (mark_last (replicate 3 0x100))
write_read_messages-words_example = write_read_messages-words memory fresh 0x20 2 0x40 3

-- A nub that has not started, and a system where the gate cannot join the work loop.
abbrev idle : Held
idle = record {
  has_work_loop = false;
  has_command_gate = false;
  gate_in_loop = false;
  gate_enabled = false;
  is_registered = false;
}

abbrev answers : Answers
answers = record {
  super_starts = true;
  work_loop_made = true;
  gate_made = true;
  gate_added = error;
}

start-HasStarted_example : HasStarted (start answers idle)
start-HasStarted_example =
    start-HasStarted answers idle
      (record { work_loop = refl; command_gate = refl; in_loop = refl; enabled = refl })
