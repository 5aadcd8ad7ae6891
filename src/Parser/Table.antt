-- ===== src/Parser/Table.antt =====
-- The bytes that the ACPI specification lays down for a list of resource descriptors, written from
-- what they say, independent of the parser: an I2C serial bus connection, a GPIO interrupt
-- connection with one pin, and any other large descriptor.
pub mod Fields
pub mod RoundTrip
use voodoo_i2c.Base.{
  ℕ, ◌+◌, ◌*◌, ◌/◌, ◌%◌, ◌^◌, ◌<◌, ◌≢◌, Bool, true, false, not, Option, none, some, List, [], ◌∷◌,
  ◌++◌, length, get_or, if◌then◌else◌,
}
use voodoo_i2c.Parser.{Buffer, I2cInfo, GpioIntInfo, irq_type_of}

-- What a connection says of its device, and the name of the controller, as bytes.
pub record I2cConnection : Type 0 where
  pub is_consumer : Bool
  pub is_initiated : Bool
  pub is_10bit : Bool
  pub speed : ℕ
  pub address : ℕ
  pub source : List ℕ

pub record GpioConnection : Type 0 where
  pub is_consumer : Bool
  pub is_edge : Bool
  pub polarity : ℕ
  pub is_shared : Bool
  pub can_wake : Bool
  pub pull : ℕ
  pub pin : ℕ
  pub source : List ℕ

pub data Descriptor : Type 0 where
  i2c : I2cConnection → Descriptor
  gpio_int : GpioConnection → Descriptor
  other : ℕ → List ℕ → Descriptor

abbrev pub flag : Bool → ℕ → ℕ
flag b weight = if b then weight else 0

-- Behind the tag and the length: revision, index, bus type, flags, the flags and the length of the
-- part for I2C, that part, and the name.
abbrev pub i2c_body : I2cConnection → List ℕ
i2c_body c =
    1
    ∷ 0
    ∷ 1
    ∷ (flag c.is_consumer 2 + flag c.is_initiated 1)
    ∷ flag c.is_10bit 1
    ∷ 0
    ∷ 1
    ∷ 6
    ∷ 0
    ∷ (c.speed % 256)
    ∷ (c.speed / 256 % 256)
    ∷ (c.speed / 2 ^ 16 % 256)
    ∷ (c.speed / 2 ^ 24)
    ∷ (c.address % 256)
    ∷ (c.address / 256)
    ∷ c.source

-- Revision, type, flags, flags of the interrupt, pull, drive strength, debounce time, the offset of
-- the pins, the index, the offset of the name, that of the vendor's data and its length, the pin, and
-- the name.
abbrev pub gpio_body : GpioConnection → List ℕ
gpio_body c =
    1
    ∷ 0
    ∷ flag c.is_consumer 1
    ∷ 0
    ∷ (flag c.is_edge 1 + 2 * c.polarity + flag c.is_shared 8 + flag c.can_wake 16)
    ∷ 0
    ∷ c.pull
    ∷ 0
    ∷ 0
    ∷ 0
    ∷ 0
    ∷ 23
    ∷ 0
    ∷ 0
    ∷ 25
    ∷ 0
    ∷ 0
    ∷ 0
    ∷ 0
    ∷ 0
    ∷ (c.pin % 256)
    ∷ (c.pin / 256)
    ∷ c.source

-- A large descriptor: its tag, the length of what follows, and that.
abbrev pub large : ℕ → List ℕ → List ℕ
large tag body = tag ∷ (length body % 256) ∷ (length body / 256) ∷ body

abbrev pub tag_of : Descriptor → ℕ
tag_of (i2c c) = 0x8e
tag_of (gpio_int c) = 0x8c
tag_of (other tag body) = tag

abbrev pub body_of : Descriptor → List ℕ
body_of (i2c c) = i2c_body c
body_of (gpio_int c) = gpio_body c
body_of (other tag body) = body

abbrev pub encode : Descriptor → List ℕ
encode d = large (tag_of d) (body_of d)

abbrev pub encode_all : List Descriptor → List ℕ
encode_all [] = []
encode_all (d ∷ ds) = encode d ++ encode_all ds

-- The bytes in memory, with zeros behind them.
abbrev pub buffer_of : List ℕ → Buffer
buffer_of bytes a = get_or bytes a 0

-- The fields fit in their places, a pin is not 0xffff, and another tag is another one.
abbrev pub Fits : Descriptor → Type 0
Fits (i2c c) = (c.speed < 2 ^ 32) × (c.address < 2 ^ 16)
Fits (gpio_int c) = (c.polarity < 4) × (c.pull < 256) × (c.pin < 0xffff)
Fits (other tag body) = (tag < 256) × (tag ≢ 0x8e) × (tag ≢ 0x8c)

abbrev pub AllFit : List Descriptor → Type 0
AllFit [] = Unit
AllFit (d ∷ ds) = Fits d × (length (body_of d) < 2 ^ 16) × AllFit ds

-- What the parser is to find.
abbrev pub i2c_info_of : I2cConnection → I2cInfo
i2c_info_of c = record {
  resource_consumer = c.is_consumer;
  device_initiated = c.is_initiated;
  address_mode_10bit = c.is_10bit;
  bus_speed = c.speed;
  address = c.address;
}

abbrev pub gpio_info_of : GpioConnection → GpioIntInfo
gpio_info_of c = record {
  resource_consumer = c.is_consumer;
  level_interrupt = not c.is_edge;
  interrupt_polarity = c.polarity;
  shared_interrupt = c.is_shared;
  wake_interrupt = c.can_wake;
  pin_config = c.pull;
  pin_number = c.pin;
  irq_type = irq_type_of (not c.is_edge) c.polarity;
}

abbrev pub first_connection : List Descriptor → Option I2cInfo
first_connection [] = none
first_connection (i2c c ∷ ds) = some (i2c_info_of c)
first_connection (gpio_int c ∷ ds) = first_connection ds
first_connection (other tag body ∷ ds) = first_connection ds

abbrev pub first_interrupt : List Descriptor → Option GpioIntInfo
first_interrupt [] = none
first_interrupt (gpio_int c ∷ ds) = some (gpio_info_of c)
first_interrupt (i2c c ∷ ds) = first_interrupt ds
first_interrupt (other tag body ∷ ds) = first_interrupt ds
