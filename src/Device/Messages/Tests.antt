-- ===== src/Device/Messages/Tests.antt =====
-- A combined request that writes two bytes and reads three.
use voodoo_i2c.Base.{ℕ, ◌≡◌, refl, ap, ◌∙◌, inr, true, false, [], ◌∷◌, arith}
use voodoo_i2c.Driver.Types.{success}
use voodoo_i2c.Driver.Constants.{dw_ic_tar}
use voodoo_i2c.Driver.Transfer.Served.{last_write}
use voodoo_i2c.Driver.Samples.{driver, port_IsMapped, write_message, read_message}
use voodoo_i2c.Driver.Transfer.{Schedule}
use voodoo_i2c.Driver.Transfer.Result.{transfer_i2c_gated-once}
use voodoo_i2c.Driver.Transfer.Finished.{working_chip, two_interrupts, finished}
use voodoo_i2c.Device.Resources.{DeviceNub}
use voodoo_i2c.Base.{◌==◌, ◌++◌, if◌then◌else◌, map}
use voodoo_i2c.Driver.Transfer.Served.Sample.{
  serving_chip, serving_chip-IsServing, driver-IsStarted,
}
use voodoo_i2c.Driver.Transmit.Words.{sent, bare, bytes_from, mark_last}
use voodoo_i2c.Driver.Transfer.Served.Request.{served_schedule}
use voodoo_i2c.Device.Messages.{write_i2c}
use voodoo_i2c.Device.Messages.Served.{write_i2c-served}
use voodoo_i2c.Device.Messages.{write_read_messages, write_read_i2c_gated}
use voodoo_i2c.Device.Messages.Delivered.{IsAnswered, write_read_i2c_gated-IsAnswered}

abbrev nub : DeviceNub
nub = record {
  i2c_address = 0x2c;
  use_10bit_addressing = false;
  has_gpio_interrupts = true;
  has_apic_interrupts = false;
  gpio_pin = 0x55;
  gpio_irq = 8;
}

abbrev schedules : ℕ → Schedule
schedules n = two_interrupts

-- Three interrupts during the sleep of the first try, and none at the others.
abbrev served_schedules : ℕ → Schedule
served_schedules n =
    if n == 5
    then served_schedule 3 1 []
    else record { before_sleep = 0; during_sleep = []; after_sleep = 0 }

answered : (write_read_i2c_gated working_chip schedules nub 0x100 2 0x200 3 driver).0 ≡ success
unfolding write_read_messages write_read_i2c_gated
answered =
    ap (λ r. r.0)
      (transfer_i2c_gated-once working_chip schedules (write_message ∷ read_message ∷ []) driver)
    ∙ finished

write_read_i2c_gated-IsAnswered_example :
    IsAnswered 0x100 2 0x200 3 driver
      (write_read_i2c_gated working_chip schedules nub 0x100 2 0x200 3 driver).1
write_read_i2c_gated-IsAnswered_example =
    write_read_i2c_gated-IsAnswered nub 0x100 2 0x200 3 working_chip schedules driver port_IsMapped
      (inr (omega arith)) answered

write_i2c-served_example :
    let r = write_i2c serving_chip served_schedules nub 0x100 2 driver in
    (r.0 ≡ success)
    × (last_write dw_ic_tar r.1.port.trace ≡ 0x2c)
    × (map bare (sent r.1.port.trace)
        ≡ map bare (sent driver.port.trace ++ mark_last (bytes_from driver.memory 0x100 2)))
write_i2c-served_example =
    write_i2c-served serving_chip served_schedules nub 0x100 2 3 1 0x1000 [] driver driver-IsStarted
      serving_chip-IsServing (omega arith) (omega arith) refl
