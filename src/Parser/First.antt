-- ===== src/Parser/First.antt =====
-- What is found is the first that there is, and it stays.
use voodoo_i2c.Base.{
  ap, ◌*◌, ◌^◌, ◌≤◌, ◌||◌, ℕ, ◌+◌, ◌≡◌, refl, Bool, true, false, not, ◌&&◌, List, [], ◌∷◌, Option,
  none, some, leb, ◌==◌, if◌then◌else◌, Bool-cases, inl, inr, if_both, arith, ◌∙◌,
}
use voodoo_i2c.Parser.{
  construct, parse_acpi_resources, Buffer, Parser, I2cInfo, GpioIntInfo, byte, i2c_info_at,
  gpio_int_at, pin_number_at, next_offset, parse_descriptor, parse_acpi_gpio, parse_acpi_serial_bus,
  gpio_io_at,
}
use voodoo_i2c.Parser.Walk.{parse_acpi_resources-Parsed, Walk, ends, steps, parse_all}

-- A serial bus descriptor of type I2C.
abbrev pub is_i2c : Buffer → ℕ → Bool
is_i2c res offset = (byte res offset == 0x8e) && (byte res (offset + 5) == 1)

-- A GPIO interrupt descriptor with a pin.
abbrev pub is_gpio_int : Buffer → ℕ → Bool
is_gpio_int res offset =
    (byte res offset == 0x8c)
    && not (pin_number_at res offset == 0xffff)
    && (byte res (offset + 4) == 0)

abbrev pub first_i2c : Buffer → List ℕ → Option I2cInfo
first_i2c res [] = none
first_i2c res (offset ∷ offsets) =
    if is_i2c res offset then some (i2c_info_at res offset) else first_i2c res offsets

abbrev pub first_gpio_int : Buffer → List ℕ → Option GpioIntInfo
first_gpio_int res [] = none
first_gpio_int res (offset ∷ offsets) =
    if is_gpio_int res offset then some (gpio_int_at res offset) else first_gpio_int res offsets

-- What a parser has found.
abbrev pub i2c_of : Parser → Option I2cInfo
i2c_of p = if p.found_i2c then some p.i2c_info else none

abbrev pub gpio_int_of : Parser → Option GpioIntInfo
gpio_int_of p = if p.found_gpio_interrupts then some p.gpio_interrupts else none

abbrev or_else {ℓ} : {A : Type ℓ} → Option A → Option A → Option A
or_else (some a) o = some a
or_else none o = o

or_else-none {ℓ} : {A : Type ℓ} (o : Option A) → o ≡ or_else o none
or_else-none none = refl
or_else-none (some a) = refl

module _ (res : Buffer) (offset sz : ℕ) (p : Parser) where
  gpio-i2c : i2c_of (parse_acpi_gpio res offset sz p) ≡ i2c_of p
  unfolding parse_acpi_gpio
  gpio-i2c =
      let same = λ (q : Parser). i2c_of q ≡ i2c_of p in
      if_both same (p.found_gpio_interrupts || leb sz offset || not (byte res offset == 0x8c)) refl
        (if_both same (pin_number_at res offset == 0xffff) refl (
          if_both same (byte res (offset + 4) == 0) refl
            (if_both same (byte res (offset + 4) == 1) refl refl)))

  serial-gpio : gpio_int_of (parse_acpi_serial_bus res offset sz p) ≡ gpio_int_of p
  unfolding parse_acpi_serial_bus
  serial-gpio =
      let same = λ (q : Parser). gpio_int_of q ≡ gpio_int_of p in
      if_both same (p.found_i2c || leb sz offset || not (byte res offset == 0x8e)) refl
        (if_both same (not (byte res (offset + 5) == 1)) refl refl)

  serial-i2c :
      leb sz offset ≡ false
      → (byte res offset == 0x8e) ≡ true
      → i2c_of (parse_acpi_serial_bus res offset sz p)
        ≡ or_else
            (i2c_of p)
            (if byte res (offset + 5) == 1 then some (i2c_info_at res offset) else none)
  unfolding parse_acpi_serial_bus
  serial-i2c inside e = rw (inside, e) (by_cases p.found_i2c (byte res (offset + 5) == 1) refl)
    where
      by_cases :
          (f b : Bool)
          → p.found_i2c ≡ f
          → i2c_of (
              if f || false || not true
              then p
              else if not b
              then p
              else record p { found_i2c = true; i2c_info = i2c_info_at res offset })
            ≡ or_else (i2c_of p) (if b then some (i2c_info_at res offset) else none)
      by_cases true b h = rw h refl
      by_cases false true h = rw h refl
      by_cases false false h = rw h refl

  gpio-gpio :
      leb sz offset ≡ false
      → (byte res offset == 0x8c) ≡ true
      → gpio_int_of (parse_acpi_gpio res offset sz p)
        ≡ or_else (gpio_int_of p) (
            if not (pin_number_at res offset == 0xffff) && (byte res (offset + 4) == 0)
            then some (gpio_int_at res offset)
            else none)
  unfolding parse_acpi_gpio
  gpio-gpio inside e =
      rw (inside, e)
        (by_cases p.found_gpio_interrupts (pin_number_at res offset == 0xffff)
          (byte res (offset + 4) == 0) (byte res (offset + 4) == 1) refl)
    where
      by_cases :
          (f n z o : Bool)
          → p.found_gpio_interrupts ≡ f
          → gpio_int_of (
              if f || false || not true
              then p
              else if n
              then p
              else if z
              then record p {
                found_gpio_interrupts = true;
                gpio_interrupts = gpio_int_at res offset;
              }
              else if o
              then record p { found_gpio_io = true; gpio_io = gpio_io_at res offset }
              else p)
            ≡ or_else (gpio_int_of p) (if not n && z then some (gpio_int_at res offset) else none)
      by_cases true n z o h = rw h refl
      by_cases false true z o h = rw h refl
      by_cases false false true o h = rw h refl
      by_cases false false false true h = rw h refl
      by_cases false false false false h = rw h refl

  -- One descriptor in the buffer adds what it holds, if nothing was found before it.
  descriptor-i2c :
      leb sz offset ≡ false
      → i2c_of (parse_descriptor res offset sz p)
        ≡ or_else (i2c_of p) (if is_i2c res offset then some (i2c_info_at res offset) else none)
  unfolding parse_descriptor
  descriptor-i2c inside = elim (Bool-cases (byte res offset == 0x8e)) [
    | inl e ↦
        let no_gpio : (byte res offset == 0x8c) ≡ false = ground arith in
        rw (e, no_gpio) (serial-i2c inside e)
    | inr e ↦ rw e (
        if_both {A = Parser} (λ q. i2c_of q ≡ or_else (i2c_of p) none) (byte res offset == 0x8c)
          (gpio-i2c ∙ or_else-none (i2c_of p)) (or_else-none (i2c_of p)))
  ]

  descriptor-gpio :
      leb sz offset ≡ false
      → gpio_int_of (parse_descriptor res offset sz p)
        ≡ or_else
            (gpio_int_of p)
            (if is_gpio_int res offset then some (gpio_int_at res offset) else none)
  unfolding parse_descriptor
  descriptor-gpio inside = elim (Bool-cases (byte res offset == 0x8c)) [
    | inl e ↦
        let no_bus : (byte res offset == 0x8e) ≡ false = ground arith in
        rw (e, no_bus) (gpio-gpio inside e)
    | inr e ↦ rw e (
        if_both {A = Parser} (λ q. gpio_int_of q ≡ or_else (gpio_int_of p) none)
          (byte res offset == 0x8e) (serial-gpio ∙ or_else-none (gpio_int_of p))
          (or_else-none (gpio_int_of p)))
  ]

or_else-if {ℓ} :
    {A : Type ℓ} (o : Option A) (b : Bool) (a : A) (rest : Option A)
    → or_else (or_else o (if b then some a else none)) rest ≡ or_else o (if b then some a else rest)
or_else-if (some x) b a rest = refl
or_else-if none true a rest = refl
or_else-if none false a rest = refl

module _ {res : Buffer} {sz : ℕ} where
  all-i2c :
      (offset : ℕ) (offsets : List ℕ) (p : Parser)
      → Walk res sz offset offsets
      → i2c_of (parse_all res sz offsets p) ≡ or_else (i2c_of p) (first_i2c res offsets)
  all-i2c offset [] p (ends done) = or_else-none (i2c_of p)
  all-i2c offset (o ∷ offsets) p (steps inside w) =
      all-i2c (next_offset res offset) offsets (parse_descriptor res offset sz p) w
      ∙ ap (λ o. or_else o (first_i2c res offsets)) (descriptor-i2c res offset sz p inside)
      ∙ or_else-if (i2c_of p) (is_i2c res offset) (i2c_info_at res offset) (first_i2c res offsets)

  all-gpio :
      (offset : ℕ) (offsets : List ℕ) (p : Parser)
      → Walk res sz offset offsets
      → gpio_int_of (parse_all res sz offsets p)
        ≡ or_else (gpio_int_of p) (first_gpio_int res offsets)
  all-gpio offset [] p (ends done) = or_else-none (gpio_int_of p)
  all-gpio offset (o ∷ offsets) p (steps inside w) =
      all-gpio (next_offset res offset) offsets (parse_descriptor res offset sz p) w
      ∙ ap (λ o. or_else o (first_gpio_int res offsets)) (descriptor-gpio res offset sz p inside)
      ∙ or_else-if (gpio_int_of p) (is_gpio_int res offset) (gpio_int_at res offset)
          (first_gpio_int res offsets)

-- What a new parser has found at the end of the walk.
pub record Found (res : Buffer) (sz : ℕ) (r : Option Parser) : Type 0 where
  pub offsets : List ℕ
  pub walk : Walk res sz 0 offsets
  pub parser : Parser
  pub result : r ≡ some parser
  pub i2c : i2c_of parser ≡ first_i2c res offsets
  pub gpio : gpio_int_of parser ≡ first_gpio_int res offsets

-- A new parser, whatever its memory held, ends with the first I2C serial bus descriptor and the first
-- GPIO interrupt descriptor with a valid pin, among the descriptors of the buffer, or with none if
-- there is none; the buffer's size leaves room for a descriptor below 2^32, and a third of it is fuel
-- enough.
pub parse_acpi_resources-Found :
    (n : ℕ) (res : Buffer) (sz : ℕ) (garbage : Parser)
    → sz + 65_538 ≤ 2 ^ 32
    → sz ≤ 3 * n
    → Found res sz (parse_acpi_resources n res 0 sz (construct garbage))
unfolding construct
parse_acpi_resources-Found n res sz garbage small enough =
    let done = parse_acpi_resources-Parsed n res 0 sz (construct garbage) small (omega arith) in
    record {
      offsets = done.offsets;
      walk = done.walk;
      parser = parse_all res sz done.offsets (construct garbage);
      result = done.result;
      i2c = all-i2c 0 done.offsets (construct garbage) done.walk;
      gpio = all-gpio 0 done.offsets (construct garbage) done.walk;
    }
