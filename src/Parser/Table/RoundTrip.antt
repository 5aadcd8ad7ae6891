-- ===== src/Parser/Table/RoundTrip.antt =====
-- The parser finds what a table of descriptors was written from.
use voodoo_i2c.Base.{
  ℕ, ◌+◌, ◌*◌, ◌^◌, ◌≤◌, ◌≡◌, refl, sym, ap, ◌∙◌, subst, Bool, true, false, List, [], ◌∷◌, ◌++◌,
  length, ◌==◌, if◌then◌else◌, Option, none, some, arith,
}
use voodoo_i2c.Parser.{
  Buffer, Parser, construct, parse_acpi_resources, byte, pin_number_at, i2c_info_at, gpio_int_at,
}
use voodoo_i2c.Parser.Walk.{Walk, ends, steps}
use voodoo_i2c.Parser.First.{
  is_i2c, is_gpio_int, first_i2c, first_gpio_int, i2c_of, gpio_int_of, parse_acpi_resources-Found,
}
use voodoo_i2c.Parser.Table.{
  Descriptor, i2c, gpio_int, other, tag_of, body_of, encode, encode_all, buffer_of, Fits, AllFit,
  first_connection, first_interrupt, gpio_body, i2c_body,
}
use voodoo_i2c.Parser.Table.Fields.{
  Holds, Holds-behind, i2c_fields, i2c_tag, i2c_type, gpio_pin, gpio_fields, gpio_tag, gpio_type,
  large_tag, large_next,
}

-- What is read at a descriptor, before what follows it.
abbrev or_first {ℓ} : {A : Type ℓ} → Option A → Option A → Option A
or_first (some a) o = some a
or_first none o = o

or_first-if {ℓ} :
    {A : Type ℓ} (b : Bool) (a : A) (o : Option A)
    → (if b then some a else o) ≡ or_first (if b then some a else none) o
or_first-if true a o = refl
or_first-if false a o = refl

first_connection-cons :
    (d : Descriptor) (ds : List Descriptor)
    → first_connection (d ∷ ds) ≡ or_first (first_connection (d ∷ [])) (first_connection ds)
first_connection-cons (i2c c) ds = refl
first_connection-cons (gpio_int c) ds = refl
first_connection-cons (other tag body) ds = refl

first_interrupt-cons :
    (d : Descriptor) (ds : List Descriptor)
    → first_interrupt (d ∷ ds) ≡ or_first (first_interrupt (d ∷ [])) (first_interrupt ds)
first_interrupt-cons (i2c c) ds = refl
first_interrupt-cons (gpio_int c) ds = refl
first_interrupt-cons (other tag body) ds = refl

module _ {res : Buffer} {offset sz : ℕ} (rest : List ℕ) where
  read_connection :
      (d : Descriptor)
      → Fits d
      → Holds res offset sz (encode d ++ rest)
      → (if is_i2c res offset then some (i2c_info_at res offset) else none)
        ≡ first_connection (d ∷ [])
  read_connection (i2c c) (s, a) h =
      rw (i2c_tag c rest h, i2c_type c rest h) (ap some (i2c_fields c rest h s a))
  read_connection (gpio_int c) fits h = rw (large_tag 0x8c (gpio_body c) rest h (omega arith)) refl
  read_connection (other tag body) (small, no_bus, no_gpio) h =
      let not_bus : (byte res offset == 0x8e) ≡ false =
        ground (arith, large_tag tag body rest h small) in
      rw (not_bus) refl

  read_interrupt :
      (d : Descriptor)
      → Fits d
      → Holds res offset sz (encode d ++ rest)
      → (if is_gpio_int res offset then some (gpio_int_at res offset) else none)
        ≡ first_interrupt (d ∷ [])
  read_interrupt (gpio_int c) (p, q, r) h =
      let has_pin : (pin_number_at res offset == 0xffff) ≡ false =
        ground (arith, gpio_pin c rest h r) in
      rw (gpio_tag c rest h, has_pin, gpio_type c rest h) (ap some (gpio_fields c rest h p q r))
  read_interrupt (i2c c) fits h = rw (large_tag 0x8e (i2c_body c) rest h (omega arith)) refl
  read_interrupt (other tag body) (small, no_bus, no_gpio) h =
      let not_gpio : (byte res offset == 0x8c) ≡ false =
        ground (arith, large_tag tag body rest h small) in
      rw (not_gpio) refl

-- What the walk over a table reads is what the table says.
pub record Reads (res : Buffer) (offsets : List ℕ) (ds : List Descriptor) : Type 0 where
  pub connection : first_i2c res offsets ≡ first_connection ds
  pub interrupt : first_gpio_int res offsets ≡ first_interrupt ds

module _ {res : Buffer} {sz : ℕ} (small : sz + 65_538 ≤ 2 ^ 32) where
  Walk-Reads :
      (ds : List Descriptor) {offset : ℕ} {offsets : List ℕ}
      → AllFit ds
      → Holds res offset sz (encode_all ds)
      → Walk res sz offset offsets
      → Reads res offsets ds
  Walk-Reads [] fit h (ends done) = record { connection = refl; interrupt = refl }
  Walk-Reads [] fit h (steps inside w) = absurd (ground (arith, h.size))
  Walk-Reads (d ∷ ds) fit h (ends done) = absurd (ground (arith, h.size))
  Walk-Reads (d ∷ ds) {offset} (fits, short, fit) h (steps {offsets} inside w) =
      let next = large_next (tag_of d) (body_of d) (encode_all ds) h short small in
      let behind =
        subst (λ o. Holds res o sz (encode_all ds)) (sym next)
          (Holds-behind (encode d) (encode_all ds) h) in
      let after = Walk-Reads ds fit behind w in
      record {
        connection =
            or_first-if (is_i2c res offset) (i2c_info_at res offset) (first_i2c res offsets)
            ∙ ap (λ o. or_first o (first_i2c res offsets))
                (read_connection (encode_all ds) d fits h)
            ∙ ap (or_first (first_connection (d ∷ []))) after.connection
            ∙ sym (first_connection-cons d ds);
        interrupt =
            or_first-if (is_gpio_int res offset) (gpio_int_at res offset)
              (first_gpio_int res offsets)
            ∙ ap (λ o. or_first o (first_gpio_int res offsets))
                (read_interrupt (encode_all ds) d fits h)
            ∙ ap (or_first (first_interrupt (d ∷ []))) after.interrupt
            ∙ sym (first_interrupt-cons d ds);
      }

-- The parser and the table agree: a result with what the first I2C connection and the first GPIO
-- interrupt of the table say, or nothing found where there is none.
pub record Agrees (ds : List Descriptor) (r : Option Parser) : Type 0 where
  pub parser : Parser
  pub result : r ≡ some parser
  pub connection : i2c_of parser ≡ first_connection ds
  pub interrupt : gpio_int_of parser ≡ first_interrupt ds

-- A table that is written from descriptors whose fields fit, with a size that leaves room for one
-- descriptor below 2^32, and parsed by a new parser with a third of its size as fuel, gives back the
-- fields of the first I2C connection and of the first GPIO interrupt connection that it was written
-- from, or none where there is none.
pub parse_acpi_resources-encode_all :
    (n : ℕ) (ds : List Descriptor) (garbage : Parser)
    → AllFit ds
    → length (encode_all ds) + 65_538 ≤ 2 ^ 32
    → length (encode_all ds) ≤ 3 * n
    → Agrees ds (
        parse_acpi_resources n
          (buffer_of (encode_all ds))
          0
          (length (encode_all ds))
          (construct garbage))
parse_acpi_resources-encode_all n ds garbage fit small enough =
    let res = buffer_of (encode_all ds) in
    let sz = length (encode_all ds) in
    let found = parse_acpi_resources-Found n res sz garbage small enough in
    let all : Holds res 0 sz (encode_all ds) = record {
      at = λ k. ap res (omega arith);
      size = omega arith;
    } in
    let reads = Walk-Reads small ds fit all found.walk in
    record {
      parser = found.parser;
      result = found.result;
      connection = found.i2c ∙ reads.connection;
      interrupt = found.gpio ∙ reads.interrupt;
    }
