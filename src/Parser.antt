-- ===== src/Parser.antt =====
-- Dependencies/VoodooI2CACPIResourcesParser: the parser of the resources (_CRS) of an ACPI device. The
-- buffer is a function from addresses to bytes, of which `sz` belong to it: the source's pointer
-- arithmetic can leave them. The recursion of `parseACPIResources` runs on fuel.
mod Tests
pub mod Samples
pub mod Walk
pub mod First
pub mod Table
use voodoo_i2c.Base.{
  ℕ, zero, suc, ◌+◌, ◌*◌, ◌/◌, ◌%◌, ◌^◌, Bool, true, false, not, ◌&&◌, ◌||◌, Option, none, some,
  ◌==◌, leb, if◌then◌else◌,
}
use voodoo_i2c.Base.Bits.{test_bit}
use voodoo_i2c.Base.Words.{add32}

pub record I2cInfo : Type 0 where
  pub resource_consumer : Bool
  pub device_initiated : Bool
  pub address_mode_10bit : Bool
  pub bus_speed : ℕ
  pub address : ℕ

pub record GpioIntInfo : Type 0 where
  pub resource_consumer : Bool
  pub level_interrupt : Bool
  pub interrupt_polarity : ℕ
  pub shared_interrupt : Bool
  pub wake_interrupt : Bool
  pub pin_config : ℕ
  pub pin_number : ℕ
  pub irq_type : ℕ

pub record GpioIoInfo : Type 0 where
  pub resource_consumer : Bool
  pub io_restriction : ℕ
  pub sharing : Bool
  pub pin_config : ℕ
  pub pin_number : ℕ

pub record Parser : Type 0 where
  pub found_i2c : Bool
  pub found_gpio_interrupts : Bool
  pub found_gpio_io : Bool
  pub i2c_info : I2cInfo
  pub gpio_interrupts : GpioIntInfo
  pub gpio_io : GpioIoInfo

-- The constructor sets two of the flags; the other fields keep what the memory held.
pub construct : Parser → Parser
construct garbage = record garbage { found_gpio_interrupts = false; found_i2c = false }

abbrev pub Buffer : Type 0
Buffer = ℕ → ℕ

abbrev pub byte : Buffer → ℕ → ℕ
byte res a = res a % 256

-- `memcpy` into a little-endian number of 16 and of 32 bits.
abbrev pub word16 : Buffer → ℕ → ℕ
word16 res a = byte res a + 256 * byte res (a + 1)

abbrev pub word32 : Buffer → ℕ → ℕ
word32 res a = word16 res a + 2 ^ 16 * word16 res (a + 2)

abbrev pub i2c_info_at : Buffer → ℕ → I2cInfo
i2c_info_at res offset = record {
  resource_consumer = test_bit (byte res (offset + 6)) 1;
  device_initiated = test_bit (byte res (offset + 6)) 0;
  address_mode_10bit = test_bit (word16 res (offset + 7)) 0;
  bus_speed = word32 res (offset + 12);
  address = word16 res (offset + 16);
}

pub parse_acpi_serial_bus : Buffer → ℕ → ℕ → Parser → Parser
parse_acpi_serial_bus res offset sz p =
    if p.found_i2c || leb sz offset || not (byte res offset == 0x8e)
    then p
    else if not (byte res (offset + 5) == 1)
    then p
    else record p { found_i2c = true; i2c_info = i2c_info_at res offset }

-- IRQ_TYPE_LEVEL_HIGH and IRQ_TYPE_LEVEL_LOW; IRQ_TYPE_EDGE_FALLING, _RISING and _BOTH.
pub irq_type_of : Bool → ℕ → ℕ
irq_type_of true polarity = if polarity == 0 then 4 else 8
irq_type_of false polarity =
    if polarity == 0 then 2 else if polarity == 1 then 1 else if polarity == 2 then 3 else 2

abbrev pub pin_number_at : Buffer → ℕ → ℕ
pin_number_at res offset = word16 res (offset + word16 res (offset + 14))

abbrev pub gpio_int_at : Buffer → ℕ → GpioIntInfo
gpio_int_at res offset =
    let gpio_flags = byte res (offset + 7) in
    let level = not (test_bit gpio_flags 0) in
    let polarity = (gpio_flags / 2) % 4 in
    record {
      resource_consumer = test_bit (byte res (offset + 5)) 0;
      level_interrupt = level;
      interrupt_polarity = polarity;
      shared_interrupt = test_bit gpio_flags 3;
      wake_interrupt = test_bit gpio_flags 4;
      pin_config = byte res (offset + 9);
      pin_number = pin_number_at res offset;
      irq_type = irq_type_of level polarity;
    }

abbrev pub gpio_io_at : Buffer → ℕ → GpioIoInfo
gpio_io_at res offset =
    let gpio_flags = byte res (offset + 7) in
    record {
      resource_consumer = test_bit (byte res (offset + 5)) 0;
      io_restriction = gpio_flags % 4;
      sharing = test_bit gpio_flags 3;
      pin_config = byte res (offset + 9);
      pin_number = pin_number_at res offset;
    }

pub parse_acpi_gpio : Buffer → ℕ → ℕ → Parser → Parser
parse_acpi_gpio res offset sz p =
    let gpio_type = byte res (offset + 4) in
    if p.found_gpio_interrupts || leb sz offset || not (byte res offset == 0x8c)
    then p
    else if pin_number_at res offset == 0xffff
    then p
    else if gpio_type == 0
    then record p { found_gpio_interrupts = true; gpio_interrupts = gpio_int_at res offset }
    else if gpio_type == 1
    then record p { found_gpio_io = true; gpio_io = gpio_io_at res offset }
    else p

-- One descriptor.
pub parse_descriptor : Buffer → ℕ → ℕ → Parser → Parser
parse_descriptor res offset sz p =
    let opcode = byte res offset in
    let q = if opcode == 0x8c then parse_acpi_gpio res offset sz p else p in
    if opcode == 0x8e then parse_acpi_serial_bus res offset sz q else q

-- `offset += (len + 3)`, on 32 bits.
abbrev pub next_offset : Buffer → ℕ → ℕ
next_offset res offset = add32 offset (word16 res (offset + 1) + 3)

-- The fuel bounds the depth of the recursion; without enough of it there is no result.
pub parse_acpi_resources : ℕ → Buffer → ℕ → ℕ → Parser → Option Parser
parse_acpi_resources zero res offset sz p = if leb sz offset then some p else none
parse_acpi_resources (suc n) res offset sz p =
    let rest =
      parse_acpi_resources n res (next_offset res offset) sz (parse_descriptor res offset sz p) in
    if leb sz offset then some p else rest
