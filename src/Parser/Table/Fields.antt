-- ===== src/Parser/Table/Fields.antt =====
-- What the parser reads at a descriptor that is there.
use voodoo_i2c.Base.{
  ℕ, suc, ◌+◌, ◌*◌, ◌/◌, ◌%◌, ◌^◌, ◌<◌, ◌≡◌, refl, ap, ◌∙◌, Bool, true, not, List, [], ◌∷◌, ◌++◌,
  length, length-append, get_or, ◌==◌, arith, ◌≤◌,
}
use voodoo_i2c.Parser.{
  Buffer, byte, word16, i2c_info_at, gpio_int_at, pin_number_at, next_offset, irq_type_of,
}
use voodoo_i2c.Parser.Table.{
  I2cConnection, GpioConnection, i2c_body, gpio_body, large, flag, i2c_info_of, gpio_info_of,
}

-- The bytes stand in the buffer from the offset on, up to its end.
pub record Holds (res : Buffer) (offset sz : ℕ) (bytes : List ℕ) : Type 0 where
  pub at : (k : ℕ) → res (offset + k) ≡ get_or bytes k 0
  pub size : offset + length bytes ≡ sz

get_or-append : (xs ys : List ℕ) (k : ℕ) → get_or (xs ++ ys) (length xs + k) 0 ≡ get_or ys k 0
get_or-append [] ys k = ap (λ n. get_or ys n 0) (omega arith)
get_or-append (x ∷ xs) ys k =
    ap (λ n. get_or (x ∷ (xs ++ ys)) n 0) (suc_add (length xs) k) ∙ get_or-append xs ys k
  where
    suc_add : (a b : ℕ) → suc a + b ≡ suc (a + b)
    suc_add a b = omega arith

second_flag : (a b : Bool) → ((flag a 2 + flag b 1) % 256 / 2 ^ 1 % 2 == 1) ≡ a
second_flag a b = ground arith

first_flag : (a b : Bool) → ((flag a 2 + flag b 1) % 256 / 2 ^ 0 % 2 == 1) ≡ b
first_flag a b = ground arith

only_flag : (a : Bool) → ((flag a 1 % 256 + 0) / 2 ^ 0 % 2 == 1) ≡ a
only_flag a = ground arith

single_flag : (a : Bool) → (flag a 1 % 256 / 2 ^ 0 % 2 == 1) ≡ a
single_flag a = ground arith

small_byte : (n : ℕ) → n < 256 → n % 256 ≡ n
small_byte n h = omega arith

-- The byte of the flags of an interrupt.
abbrev interrupt_flags : GpioConnection → ℕ
interrupt_flags c =
    (flag c.is_edge 1 + 2 * c.polarity + flag c.is_shared 8 + flag c.can_wake 16) % 256

module _ (c : GpioConnection) (p : c.polarity < 4) where
  edge_flag : (interrupt_flags c / 2 ^ 0 % 2 == 1) ≡ c.is_edge
  edge_flag = ground arith

  polarity_bits : interrupt_flags c / 2 % 4 ≡ c.polarity
  polarity_bits = ground arith

  shared_flag : (interrupt_flags c / 2 ^ 3 % 2 == 1) ≡ c.is_shared
  shared_flag = ground arith

  wake_flag : (interrupt_flags c / 2 ^ 4 % 2 == 1) ≡ c.can_wake
  wake_flag = ground arith

join16 : (n : ℕ) → n < 2 ^ 16 → n % 256 % 256 + 256 * (n / 256 % 256) ≡ n
join16 n h = omega arith

join_speed :
    (n : ℕ)
    → n < 2 ^ 32
    → n % 256 % 256
        + 256 * (n / 256 % 256 % 256)
        + 2 ^ 16 * (n / 2 ^ 16 % 256 % 256 + 256 * (n / 2 ^ 24 % 256))
      ≡ n
join_speed n h = omega arith

module _ {res : Buffer} {offset sz : ℕ} where
  pub Holds-behind :
      (xs ys : List ℕ) → Holds res offset sz (xs ++ ys) → Holds res (offset + length xs) sz ys
  Holds-behind xs ys h = record {
    at =
        λ k. ap res (add_assoc offset (length xs) k) ∙ h.at (length xs + k) ∙ get_or-append xs ys k;
    size = omega (arith, h.size, length-append xs ys);
  }
    where
      add_assoc : (a b c : ℕ) → a + b + c ≡ a + (b + c)
      add_assoc a b c = omega arith

  -- A byte at an address that is written in any way.
  pub at_address :
      {bytes : List ℕ} (k a : ℕ)
      → Holds res offset sz bytes
      → a ≡ offset + k
      → res a ≡ get_or bytes k 0
  at_address k a h e = ap res e ∙ h.at k

  module _ (c : I2cConnection) (rest : List ℕ)
      (h : Holds res offset sz (large 0x8e (i2c_body c) ++ rest)) where
    pub i2c_fields : c.speed < 2 ^ 32 → c.address < 2 ^ 16 → i2c_info_at res offset ≡ i2c_info_of c
    i2c_fields s a =
        rw
          (
            h.at 6,
            h.at 7,
            at_address 8 (offset + 7 + 1) h (omega arith),
            h.at 12,
            at_address 13 (offset + 12 + 1) h (omega arith),
            at_address 14 (offset + 12 + 2) h (omega arith),
            at_address 15 (offset + 12 + 2 + 1) h (omega arith),
            h.at 16,
            at_address 17 (offset + 16 + 1) h (omega arith),
          )
          (λ i. record {
            resource_consumer = second_flag c.is_consumer c.is_initiated i;
            device_initiated = first_flag c.is_consumer c.is_initiated i;
            address_mode_10bit = only_flag c.is_10bit i;
            bus_speed = join_speed c.speed s i;
            address = join16 c.address a i;
          })

    pub i2c_tag : (byte res offset == 0x8e) ≡ true
    i2c_tag = rw (at_address 0 offset h (omega arith)) refl

    pub i2c_type : (byte res (offset + 5) == 1) ≡ true
    i2c_type = rw (h.at 5) refl

  module _ (c : GpioConnection) (rest : List ℕ)
      (h : Holds res offset sz (large 0x8c (gpio_body c) ++ rest)) where
    pin_offset : word16 res (offset + 14) ≡ 23
    pin_offset = rw (h.at 14, at_address 15 (offset + 14 + 1) h (omega arith)) refl

    pub gpio_pin : c.pin < 0xffff → pin_number_at res offset ≡ c.pin
    gpio_pin p =
        rw (pin_offset, h.at 23, at_address 24 (offset + 23 + 1) h (omega arith))
          (join16 c.pin (omega arith))

    pub gpio_fields :
        c.polarity < 4 → c.pull < 256 → c.pin < 0xffff → gpio_int_at res offset ≡ gpio_info_of c
    gpio_fields p q r =
        let edge = edge_flag c p in
        let polarity = polarity_bits c p in
        rw (gpio_pin r, h.at 5, h.at 7, h.at 9)
          (λ i. record {
            resource_consumer = single_flag c.is_consumer i;
            level_interrupt = not (edge i);
            interrupt_polarity = polarity i;
            shared_interrupt = shared_flag c p i;
            wake_interrupt = wake_flag c p i;
            pin_config = small_byte c.pull q i;
            pin_number = c.pin;
            irq_type = irq_type_of (not (edge i)) (polarity i);
          })

    pub gpio_tag : (byte res offset == 0x8c) ≡ true
    gpio_tag = rw (at_address 0 offset h (omega arith)) refl

    pub gpio_type : (byte res (offset + 4) == 0) ≡ true
    gpio_type = rw (h.at 4) refl

  -- The tag and the length of a large descriptor.
  module _ (tag : ℕ) (body rest : List ℕ) (h : Holds res offset sz (large tag body ++ rest)) where
    pub large_tag : tag < 256 → byte res offset ≡ tag
    large_tag small = rw (at_address 0 offset h (omega arith)) (small_byte tag small)

    pub large_next :
        length body < 2 ^ 16
        → sz + 65_538 ≤ 2 ^ 32
        → next_offset res offset ≡ offset + length (large tag body)
    large_next short fits =
        rw
          (
            at_address 1 (offset + 1) h (omega arith),
            at_address 2 (offset + 1 + 1) h (omega arith),
            join16 (length body) short,
          )
          (omega (arith, h.size))
