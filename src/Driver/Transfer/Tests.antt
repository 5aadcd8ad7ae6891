-- ===== src/Driver/Transfer/Tests.antt =====
-- The theorems on a transfer at one that meets an idle bus.
use voodoo_i2c.Base.{◌≡◌, refl, true, ◌∷◌, []}
use voodoo_i2c.Registers.{read_register}
use voodoo_i2c.Driver.Bus.{wait_loop, wait_bus_not_busy_i2c}
use voodoo_i2c.Driver.Types.{success}
use voodoo_i2c.Driver.Samples.{quiet_chip, driver, write_message}
use voodoo_i2c.Base.{◌++◌, map, length, arith}
use voodoo_i2c.Base.Bits.{test_bit}
use voodoo_i2c.Driver.Constants.{con_restart_en, dw_ic_tar}
use voodoo_i2c.Driver.Transmit.Words.{sent, bare, words_from}
use voodoo_i2c.Driver.Transmit.Refill.{messages_left}
use voodoo_i2c.Driver.Transfer.Served.Sample.{
  serving_chip, serving_chip-IsServing, driver-IsStarted,
}
use voodoo_i2c.Driver.Transfer.Served.Request.{served_schedule}
use voodoo_i2c.Driver.Transfer.Served.Finish.{prepare_transfer_i2c-served}
use voodoo_i2c.Driver.Transfer.Served.{last_write}
use voodoo_i2c.Driver.Transfer.{Schedule, signal, prepare_transfer_i2c}
use voodoo_i2c.Driver.Transfer.Result.{Clean, prepare_transfer_i2c-success}
use voodoo_i2c.Driver.Transfer.Race.{IsReady, prepare_transfer_i2c-signal}

driver-IsReady : IsReady quiet_chip driver
unfolding wait_bus_not_busy_i2c wait_loop read_register
driver-IsReady = record { awake = refl; idle = refl }

abbrev signalled : Schedule
signalled = record { before_sleep = 0; during_sleep = signal ∷ []; after_sleep = 0 }

prepare_transfer_i2c-success_example :
    (driver.bus_device.awake ≡ true)
    × Clean (prepare_transfer_i2c quiet_chip signalled (write_message ∷ []) driver).1
prepare_transfer_i2c-success_example =
    prepare_transfer_i2c-success quiet_chip signalled (write_message ∷ []) driver
      (prepare_transfer_i2c-signal quiet_chip [] (write_message ∷ []) driver driver-IsReady).0

prepare_transfer_i2c-served_example :
    let r =
      prepare_transfer_i2c serving_chip (served_schedule 3 1 []) (write_message ∷ []) driver in
    (r.0 ≡ success)
    × (messages_left r.1.bus_device ≡ [])
    × (last_write dw_ic_tar r.1.port.trace ≡ 0x2c)
    × (map bare (sent r.1.port.trace)
        ≡ map bare (
            sent driver.port.trace
            ++ words_from driver.memory
                (test_bit driver.bus_device.bus_config con_restart_en)
                0
                (length (write_message ∷ []))
                (write_message ∷ [])))
prepare_transfer_i2c-served_example =
    prepare_transfer_i2c-served serving_chip 0x2c 0x1000 write_message [] 3 1 [] driver
      driver-IsStarted serving_chip-IsServing (refl, refl, omega arith, tt) (omega arith)
