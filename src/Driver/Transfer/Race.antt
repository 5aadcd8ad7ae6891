-- ===== src/Driver/Transfer/Race.antt =====
-- Transfers that end otherwise than by a wake-up.
use voodoo_i2c.Base.{◌≡◌, refl, true, List, ◌∷◌}
use voodoo_i2c.Registers.{Chip}
use voodoo_i2c.Driver.Types.{success, is_success, Message, Driver}
use voodoo_i2c.Driver.Bus.{wait_bus_not_busy_i2c}
use voodoo_i2c.Driver.Transfer.{
  Event, signal, deliver_early, command_sleep, request_transfer_i2c, reset_transfer,
  transfer_result, finish_transfer, run_transfer, prepare_transfer_i2c,
}

-- The bus is idle and the driver awake, so that a transfer goes ahead.
pub record IsReady (chip : Chip) (d : Driver) : Type 0 where
  pub awake : d.bus_device.awake ≡ true
  pub idle : is_success (wait_bus_not_busy_i2c chip d.port).0 ≡ true

pub prepare_transfer_i2c-signal :
    (chip : Chip) (es : List Event) (messages : List Message) (d : Driver)
    → IsReady chip d
    → let r =
        prepare_transfer_i2c chip
          (record { before_sleep = 0; during_sleep = signal ∷ es; after_sleep = 0 })
          messages
          d in
      (r.0 ≡ success)
      × (r.1.bus_device.message_write_index ≡ 0)
      × (r.1.bus_device.message_read_index ≡ 0)
unfolding prepare_transfer_i2c run_transfer command_sleep deliver_early finish_transfer
    transfer_result reset_transfer request_transfer_i2c
prepare_transfer_i2c-signal chip es messages d ready =
    rw (ready.awake, ready.idle) (refl, refl, refl)
