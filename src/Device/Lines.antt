-- ===== src/Device/Lines.antt =====
-- `registerInterrupt`, `unregisterInterrupt`, `enableInterrupt`, `disableInterrupt` and
-- `getInterruptType`: each goes to the GPIO controller or to the ACPI device. The calls that they make
-- are listed.
use voodoo_i2c.Base.{ℕ, List, [], ◌∷◌, if◌then◌else◌}
use voodoo_i2c.Device.Resources.{DeviceNub}

-- Where a call goes, with the pin or the source.
pub data Line : Type 0 where
  gpio acpi : ℕ → Line

pub data Call : Type 0 where
  set_type : ℕ → ℕ → Call
  register unregister enable disable get_type : Line → Call

abbrev pub line : DeviceNub → ℕ → Line
line d source = if d.has_gpio_interrupts then gpio d.gpio_pin else acpi source

pub disable_interrupt : DeviceNub → ℕ → List Call
disable_interrupt d source = disable (line d source) ∷ []

pub enable_interrupt : DeviceNub → ℕ → List Call
enable_interrupt d source = enable (line d source) ∷ []

pub get_interrupt_type : DeviceNub → ℕ → List Call
get_interrupt_type d source = get_type (line d source) ∷ []

pub register_interrupt : DeviceNub → ℕ → List Call
register_interrupt d source =
    if d.has_gpio_interrupts
    then set_type d.gpio_pin d.gpio_irq ∷ register (gpio d.gpio_pin) ∷ []
    else register (acpi source) ∷ []

pub unregister_interrupt : DeviceNub → ℕ → List Call
unregister_interrupt d source = unregister (line d source) ∷ []
