-- ===== src/Device/Resources/Choice.antt =====
-- Which resources and which interrupt a device nub ends with.
use mathlib.Core.Bool.{false≢true}
use voodoo_i2c.Base.{
  ℕ, ◌<◌, ◌⊎◌, sym, ap, ◌∙◌, Option, Bool-cases, ◌≡◌, ◌%◌, ◌^◌, ◌≤◌, refl, Bool, true, false, not,
  ◌&&◌, ◌||◌, none, some, if◌then◌else◌, leb, inl, inr, Option-cases, ◌≢◌, arith,
}
use voodoo_i2c.Driver.Types.{IoReturn, success}
use voodoo_i2c.Parser.{Parser}
use voodoo_i2c.Device.Resources.{
  DeviceNub, Platform, use_resources, validate_apic_interrupt, is_forced, use_interrupt,
  unsupported, is_success, set_gpio,
}

-- The method's resources, where it alone has a serial bus, or a serial bus with a GPIO interrupt.
abbrev pub prefers_dsm : Parser → Parser → Bool
prefers_dsm crs dsm = not crs.found_i2c || (dsm.found_i2c && dsm.found_gpio_interrupts)

abbrev pub chosen : Parser → Parser → Parser
chosen crs dsm = if not (prefers_dsm crs dsm) then crs else dsm

abbrev pub has_apic : Platform → Bool
has_apic platform = elim platform.interrupt_pin [
  | none ↦ false
  | some pin ↦ leb (pin % 2 ^ 16) 0x2f
]

-- A nub that has its resources, the two Booleans saying which interrupt it uses.
pub record Resourced (apic gpio : Bool) (p : Parser) (d : DeviceNub) : Type 0 where
  pub address : d.i2c_address ≡ p.i2c_info.address % 256
  pub width : d.use_10bit_addressing ≡ p.i2c_info.address_mode_10bit
  pub apic_used : d.has_apic_interrupts ≡ apic
  pub gpio_used : d.has_gpio_interrupts ≡ gpio
  pub pin : gpio ≡ true → d.gpio_pin ≡ p.gpio_interrupts.pin_number
  pub irq : gpio ≡ true → d.gpio_irq ≡ p.gpio_interrupts.irq_type

validate_apic_interrupt-eq :
    (platform : Platform) (d : DeviceNub)
    → validate_apic_interrupt platform d ≡ (
        if has_apic platform
        then (success, record d { has_apic_interrupts = true })
        else (unsupported, d))
unfolding validate_apic_interrupt
validate_apic_interrupt-eq platform d = elim (Option-cases platform.interrupt_pin) [
  | inl e ↦ rw e refl
  | inr (pin, e) ↦ rw e refl
]

abbrev with_address : Parser → DeviceNub → DeviceNub
with_address p d = record d {
  use_10bit_addressing = p.i2c_info.address_mode_10bit;
  i2c_address = p.i2c_info.address % 256;
}

use_interrupt-Resourced :
    (platform : Platform) (p : Parser) (d : DeviceNub)
    → d.has_apic_interrupts ≡ false
    → d.has_gpio_interrupts ≡ false
    → Resourced
        (has_apic platform)
        (not (has_apic platform) && not (is_forced platform) && p.found_gpio_interrupts)
        p
        (use_interrupt platform p (with_address p d))
unfolding use_interrupt
use_interrupt-Resourced platform p d no_apic no_gpio =
    rw (validate_apic_interrupt-eq platform _)
      (by_cases (has_apic platform) (is_forced platform) p.found_gpio_interrupts)
  where
    by_cases :
        (a f g : Bool)
        → Resourced a (not a && not f && g) p (
            let r : IoReturn × DeviceNub =
              if a
              then (success, record (with_address p d) { has_apic_interrupts = true })
              else (unsupported, with_address p d) in
            if is_success r.0 then r.1 else if f then r.1 else if g then set_gpio p r.1 else r.1)
    by_cases true f g = record {
      address = refl;
      width = refl;
      apic_used = refl;
      gpio_used = no_gpio;
      pin = λ h. absurd cc;
      irq = λ h. absurd cc;
    }
    by_cases false true g = record {
      address = refl;
      width = refl;
      apic_used = no_apic;
      gpio_used = no_gpio;
      pin = λ h. absurd cc;
      irq = λ h. absurd cc;
    }
    by_cases false false true = record {
      address = refl;
      width = refl;
      apic_used = no_apic;
      gpio_used = refl;
      pin = λ h. refl;
      irq = λ h. refl;
    }
    by_cases false false false = record {
      address = refl;
      width = refl;
      apic_used = no_apic;
      gpio_used = no_gpio;
      pin = λ h. absurd cc;
      irq = λ h. absurd cc;
    }

-- With a serial bus found, a nub without an interrupt gets the address, modulo 256, and the width of
-- the chosen resources; it uses the APIC pin if there is a valid one, and else the GPIO interrupt of
-- the same resources if there is one and polling is not forced: never both.
pub use_resources-Resourced :
    (platform : Platform) (crs dsm : Parser) (d : DeviceNub)
    → d.has_apic_interrupts ≡ false
    → d.has_gpio_interrupts ≡ false
    → (not crs.found_i2c && not dsm.found_i2c) ≡ false
    → ((use_resources platform crs dsm d).0 ≡ success)
      × Resourced
          (has_apic platform)
          (not (has_apic platform)
            && not (is_forced platform)
            && (chosen crs dsm).found_gpio_interrupts)
          (chosen crs dsm)
          (use_resources platform crs dsm d).1
unfolding use_resources
use_resources-Resourced platform crs dsm d no_apic no_gpio found =
    rw found (refl, use_interrupt-Resourced platform (chosen crs dsm) d no_apic no_gpio)

-- A nub that has its resources: those of one source with a serial bus, and with a GPIO interrupt where
-- the bus of either source comes with one. It uses at most one interrupt: an APIC pin of at most 0x2f,
-- or the GPIO interrupt of its source where polling is not forced; and it uses none only where there is
-- no such pin, and no GPIO interrupt or polling is forced.
pub record Settled (platform : Platform) (crs dsm : Parser) (d : DeviceNub) : Type 0 where
  pub source : Parser
  pub one_of : (source ≡ crs) ⊎ (source ≡ dsm)
  pub found : source.found_i2c ≡ true
  pub keeps_crs :
      crs.found_i2c ≡ true → crs.found_gpio_interrupts ≡ true → source.found_gpio_interrupts ≡ true
  pub keeps_dsm :
      dsm.found_i2c ≡ true → dsm.found_gpio_interrupts ≡ true → source.found_gpio_interrupts ≡ true
  pub address : d.i2c_address ≡ source.i2c_info.address % 256
  pub width : d.use_10bit_addressing ≡ source.i2c_info.address_mode_10bit
  pub not_both : (d.has_apic_interrupts && d.has_gpio_interrupts) ≡ false
  pub apic :
      d.has_apic_interrupts ≡ true
      → (pin : ℕ) × (platform.interrupt_pin ≡ some pin) × (pin % 2 ^ 16 ≤ 0x2f)
  pub gpio :
      d.has_gpio_interrupts ≡ true
      → (source.found_gpio_interrupts ≡ true)
        × (is_forced platform ≡ false)
        × (d.gpio_pin ≡ source.gpio_interrupts.pin_number)
        × (d.gpio_irq ≡ source.gpio_interrupts.irq_type)
  pub no_pin :
      d.has_apic_interrupts ≡ false
      → (pin : ℕ) → platform.interrupt_pin ≡ some pin
      → 0x2f < pin % 2 ^ 16
  pub polls :
      d.has_apic_interrupts ≡ false
      → d.has_gpio_interrupts ≡ false
      → (is_forced platform || not source.found_gpio_interrupts) ≡ true

-- A property of the source, by the two cases of the choice.
by_choice :
    (P : Parser → Type 0) (crs dsm : Parser)
    → (prefers_dsm crs dsm ≡ false → P crs)
    → (prefers_dsm crs dsm ≡ true → P dsm)
    → P (chosen crs dsm)
by_choice P crs dsm one other = elim (Bool-cases (prefers_dsm crs dsm)) [
  | inl e ↦ rw e (other e)
  | inr e ↦ rw e (one e)
]

has_apic-pin :
    (platform : Platform)
    → has_apic platform ≡ true
    → (pin : ℕ) × (platform.interrupt_pin ≡ some pin) × (pin % 2 ^ 16 ≤ 0x2f)
has_apic-pin platform h = by_pin platform.interrupt_pin refl h
  where
    by_pin :
        (o : Option ℕ)
        → platform.interrupt_pin ≡ o
        → elim o [ none ↦ false | some pin ↦ leb (pin % 2 ^ 16) 0x2f ] ≡ true
        → (pin : ℕ) × (platform.interrupt_pin ≡ some pin) × (pin % 2 ^ 16 ≤ 0x2f)
    by_pin none e h = absurd (false≢true h)
    by_pin (some pin) e h = (pin, e, ground arith)

has_apic-no_pin :
    (platform : Platform) (pin : ℕ)
    → has_apic platform ≡ false
    → platform.interrupt_pin ≡ some pin
    → 0x2f < pin % 2 ^ 16
has_apic-no_pin platform pin h e =
    let test : leb (pin % 2 ^ 16) 0x2f ≡ false =
      ap (λ o. elim o [ none ↦ false | some p ↦ leb (p % 2 ^ 16) 0x2f ]) (sym e) ∙ h in
    ground (arith, test)

-- With a serial bus found by either source, a nub without an interrupt gets its resources as above.
pub use_resources-Settled :
    (platform : Platform) (crs dsm : Parser) (d : DeviceNub)
    → d.has_apic_interrupts ≡ false
    → d.has_gpio_interrupts ≡ false
    → (crs.found_i2c || dsm.found_i2c) ≡ true
    → ((use_resources platform crs dsm d).0 ≡ success)
      × Settled platform crs dsm (use_resources platform crs dsm d).1
use_resources-Settled platform crs dsm d no_apic no_gpio found =
    let (ended, r) =
      use_resources-Resourced platform crs dsm d no_apic no_gpio (ground (arith, found)) in
    let a = has_apic platform in
    let f = is_forced platform in
    let g = (chosen crs dsm).found_gpio_interrupts in
    (
      ended,
      record {
        source = chosen crs dsm;
        one_of = by_choice (λ p. (p ≡ crs) ⊎ (p ≡ dsm)) crs dsm (λ e. inl refl) (λ e. inr refl);
        found =
            by_choice (λ p. p.found_i2c ≡ true) crs dsm (λ e. ground (arith, e, found))
              (λ e. ground (arith, e, found));
        keeps_crs = λ h k.
            by_choice (λ p. p.found_gpio_interrupts ≡ true) crs dsm (λ e. k)
              (λ e. ground (arith, e, h, k));
        keeps_dsm = λ h k.
            by_choice (λ p. p.found_gpio_interrupts ≡ true) crs dsm (λ e. ground (arith, e, h, k))
              (λ e. k);
        address = r.address;
        width = r.width;
        not_both = (λ i. r.apic_used i && r.gpio_used i) ∙ never a f g;
        apic = λ h. has_apic-pin platform (sym r.apic_used ∙ h);
        gpio = λ h.
            let (not_forced, has) = both a f g (sym r.gpio_used ∙ h) in
            (has, not_forced, r.pin (sym r.gpio_used ∙ h), r.irq (sym r.gpio_used ∙ h));
        no_pin = λ h pin e. has_apic-no_pin platform pin (sym r.apic_used ∙ h) e;
        polls = λ h k. neither a f g (sym r.apic_used ∙ h) (sym r.gpio_used ∙ k);
      },
    )
  where
    never : (a f g : Bool) → (a && (not a && not f && g)) ≡ false
    never true f g = refl
    never false f g = refl

    both : (a f g : Bool) → (not a && not f && g) ≡ true → (f ≡ false) × (g ≡ true)
    both a f g h = (ground arith, ground arith)

    neither : (a f g : Bool) → a ≡ false → (not a && not f && g) ≡ false → (f || not g) ≡ true
    neither a f g h k = ground arith

-- With a serial bus address of 256 or more, which takes ten bits, a nub without an interrupt ends with another address.
use_resources-truncated :
    (platform : Platform) (crs dsm : Parser) (d : DeviceNub)
    → d.has_apic_interrupts ≡ false
    → d.has_gpio_interrupts ≡ false
    → (not crs.found_i2c && not dsm.found_i2c) ≡ false
    → 256 ≤ (chosen crs dsm).i2c_info.address
    → (use_resources platform crs dsm d).1.i2c_address ≢ (chosen crs dsm).i2c_info.address
use_resources-truncated platform crs dsm d no_apic no_gpio found wide same =
    let kept = (use_resources-Resourced platform crs dsm d no_apic no_gpio found).1.address in
    absurd (omega arith)
