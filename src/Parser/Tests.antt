-- ===== src/Parser/Tests.antt =====
-- The parser at a buffer with an I2C descriptor.
use voodoo_i2c.Parser.{construct, parse_acpi_resources}
use voodoo_i2c.Parser.Samples.{i2c_buffer, blank}
use voodoo_i2c.Base.{arith, List, true, false, [], ◌∷◌, length}
use voodoo_i2c.Parser.Table.{Descriptor, i2c, gpio_int, other, encode_all, buffer_of}
use voodoo_i2c.Parser.Table.RoundTrip.{Agrees, parse_acpi_resources-encode_all}
use voodoo_i2c.Parser.First.{Found, parse_acpi_resources-Found}

parse_acpi_resources-Found_example :
    Found i2c_buffer 28 (parse_acpi_resources 10 i2c_buffer 0 28 (construct blank))
parse_acpi_resources-Found_example =
    parse_acpi_resources-Found 10 i2c_buffer 28 blank (omega arith) (omega arith)

-- A vendor's descriptor, a touchpad at 400 kHz, and its interrupt at pin 0x55, low and level.
abbrev table : List Descriptor
table =
    other 0x84 (1 ∷ 2 ∷ [])
    ∷ i2c (record {
      is_consumer = true;
      is_initiated = false;
      is_10bit = false;
      speed = 400_000;
      address = 0x2c;
      source = 0x5c ∷ 0 ∷ [];
    })
    ∷ gpio_int (record {
      is_consumer = true;
      is_edge = false;
      polarity = 1;
      is_shared = false;
      can_wake = true;
      pull = 1;
      pin = 0x55;
      source = 0 ∷ [];
    })
    ∷ []

parse_acpi_resources-encode_all_example : Agrees table (
    parse_acpi_resources 20
      (buffer_of (encode_all table))
      0
      (length (encode_all table))
      (construct blank))
parse_acpi_resources-encode_all_example =
    parse_acpi_resources-encode_all 20 table blank (omega arith) (omega arith) (omega arith)
