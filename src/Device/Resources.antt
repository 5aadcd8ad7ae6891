-- ===== src/Device/Resources.antt =====
-- `parseResourcesCRS`, `parseResourcesDSM`, `validateAPICInterrupt`, `getDeviceResources` and `attach`.
pub mod Choice
use voodoo_i2c.Base.{
  ℕ, ◌+◌, ◌*◌, ◌%◌, Bool, true, false, not, ◌&&◌, ◌||◌, Option, none, some, leb, if◌then◌else◌, ◌^◌,
}
use voodoo_i2c.Driver.Types.{IoReturn, success, is_success, not_found, unsupported}
use voodoo_i2c.Parser.{Parser, construct, parse_acpi_resources}
use voodoo_i2c.Device.Dsm.{
  Object, bytes, no_data, Acpi, get_device_resources_dsm, tp7g_resources_index,
}

pub record DeviceNub : Type 0 where
  pub i2c_address : ℕ
  pub use_10bit_addressing : Bool
  pub has_gpio_interrupts : Bool
  pub has_apic_interrupts : Bool
  pub gpio_pin : ℕ
  pub gpio_irq : ℕ

infixl 5 ◌>>=◌
abbrev ◌>>=◌ : {A B : Type 0} → Option A → (A → Option B) → Option B
none >>= f = none
some a >>= f = f a

-- What the system says: the first interrupt pin of the ACPI device, and whether polling is forced by
-- the boot argument, or by a property of the PCI device, which can be missing.
pub record Platform : Type 0 where
  pub interrupt_pin : Option ℕ
  pub kernel_arg : Bool
  pub pci_force_polling : Option Bool
  pub has_gpio_controller : Bool

-- The first number is the fuel of the parser. Nothing is parsed without data.
pub parse_object : ℕ → Option Object → Parser → Option (IoReturn × Parser)
parse_object n none p = some (not_found, p)
parse_object n (some no_data) p = some (not_found, p)
parse_object n (some (bytes res size)) p = elim (parse_acpi_resources n res 0 size p) [
  | none ↦ none
  | some q ↦ some (success, q)
]

pub parse_resources_crs : ℕ → Acpi → Parser → Option (IoReturn × Parser)
parse_resources_crs n acpi p = parse_object n acpi.crs p

pub parse_resources_dsm : ℕ → Acpi → Parser → Option (IoReturn × Parser)
parse_resources_dsm n acpi p = parse_object n (get_device_resources_dsm acpi tp7g_resources_index) p

pub validate_apic_interrupt : Platform → DeviceNub → IoReturn × DeviceNub
validate_apic_interrupt platform d = elim platform.interrupt_pin [
  | none ↦ (unsupported, d)
  | some pin ↦
      if leb (pin % 2 ^ 16) 0x2f
      then (success, record d { has_apic_interrupts = true })
      else (unsupported, d)
]

abbrev pub is_forced : Platform → Bool
is_forced platform =
    platform.kernel_arg || (elim platform.pci_force_polling [ none ↦ false | some b ↦ b ])

abbrev pub set_gpio : Parser → DeviceNub → DeviceNub
set_gpio p d = record d {
  has_gpio_interrupts = true;
  gpio_pin = p.gpio_interrupts.pin_number;
  gpio_irq = p.gpio_interrupts.irq_type;
}

-- The part of `getDeviceResources` that looks for an interrupt.
pub use_interrupt : Platform → Parser → DeviceNub → DeviceNub
use_interrupt platform p d =
    let (apic, d₁) = validate_apic_interrupt platform d in
    if is_success apic
    then d₁
    else if is_forced platform
    then d₁
    else if p.found_gpio_interrupts
    then set_gpio p d₁
    else d₁

-- The part of it after the parsing. The field `i2c_address` is a UInt8.
pub use_resources : Platform → Parser → Parser → DeviceNub → IoReturn × DeviceNub
use_resources platform crs_parser dsm_parser d =
    let use_crs_resources =
      not
        (not crs_parser.found_i2c || (dsm_parser.found_i2c && dsm_parser.found_gpio_interrupts)) in
    let resource_parser = if use_crs_resources then crs_parser else dsm_parser in
    if not crs_parser.found_i2c && not dsm_parser.found_i2c then (not_found, d) else (
      success,
      use_interrupt platform resource_parser (record d {
        use_10bit_addressing = resource_parser.i2c_info.address_mode_10bit;
        i2c_address = resource_parser.i2c_info.address % 256;
      }),
    )

pub get_device_resources : ℕ → Acpi → Platform → Parser → DeviceNub → Option (IoReturn × DeviceNub)
get_device_resources n acpi platform garbage d = do
  (crs_result, crs_parser) ← parse_resources_crs n acpi (construct garbage)
  (dsm_result, dsm_parser) ← parse_resources_dsm n acpi (construct garbage)
  some (use_resources platform crs_parser dsm_parser d)

pub data InterruptMode : Type 0 where
  gpio apic polling : InterruptMode

pub interrupt_mode : DeviceNub → InterruptMode
interrupt_mode d =
    if d.has_gpio_interrupts then gpio else if d.has_apic_interrupts then apic else polling

-- From the return of `getDeviceResources` on.
pub finish_attach : Platform → IoReturn × DeviceNub → Bool × DeviceNub
finish_attach platform (result, d) =
    if not (is_success result)
    then (false, d)
    else if d.has_gpio_interrupts && not platform.has_gpio_controller
    then (false, d)
    else (true, d)

-- `is_ready` stands for the checks of the provider and the child.
pub attach : ℕ → Acpi → Platform → Parser → Bool → DeviceNub → Option (Bool × DeviceNub)
attach n acpi platform garbage is_ready d = do
  resources ← get_device_resources n acpi platform garbage d
  some (if is_ready then finish_attach platform resources else (false, d))
