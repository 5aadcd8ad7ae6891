-- ===== src/Parser/Samples.antt =====
-- A buffer and a parser, for the tests.
use voodoo_i2c.Base.{true, false, ◌==◌, if◌then◌else◌}
use voodoo_i2c.Parser.{Buffer, Parser}

-- One I2C serial bus descriptor of 28 bytes, in ten-bit mode.
abbrev pub i2c_buffer : Buffer
i2c_buffer a =
    if a == 0
    then 0x8e
    else if a == 1
    then 25
    else if a == 5
    then 1
    else if a == 7
    then 1
    else if a == 16
    then 0x2c
    else if a == 17
    then 1
    else 0

-- What the memory of a parser may hold.
abbrev pub blank : Parser
blank = record {
  found_i2c = true;
  found_gpio_interrupts = true;
  found_gpio_io = true;
  i2c_info = record {
    resource_consumer = true;
    device_initiated = true;
    address_mode_10bit = true;
    bus_speed = 400_000;
    address = 0x12c;
  };
  gpio_interrupts = record {
    resource_consumer = true;
    level_interrupt = true;
    interrupt_polarity = 1;
    shared_interrupt = false;
    wake_interrupt = false;
    pin_config = 0;
    pin_number = 0x55;
    irq_type = 8;
  };
  gpio_io = record {
    resource_consumer = true;
    io_restriction = 0;
    sharing = false;
    pin_config = 0;
    pin_number = 0x56;
  };
}
