-- ===== src/Driver/Interrupt/Tests.antt =====
-- The theorems on the interrupt at an aborted transfer.
use voodoo_i2c.Base.{◌≡◌, refl, true}
use voodoo_i2c.Base.Int.{pos}
use voodoo_i2c.Registers.{read_register}
use voodoo_i2c.Driver.Samples.{abort_chip, driver}
use voodoo_i2c.Driver.Interrupt.{
  handle_interrupt, handle_awake, dispatch, wakeup, abort_transfer, is_complete, is_spurious,
  read_clear_interrupt_bits, read_clear_bits, read_abort, clear_if,
}
use voodoo_i2c.Driver.Interrupt.Outcome.{has_reason, status_read, handle_interrupt-woken}

handle_interrupt-woken_example :
    ((handle_interrupt abort_chip driver).1.bus_device.receive_outstanding ≡ pos 0)
    × (has_reason (status_read abort_chip driver) (handle_interrupt abort_chip driver).1.bus_device
        ≡ true)
unfolding handle_interrupt handle_awake dispatch wakeup abort_transfer is_complete is_spurious
    read_clear_interrupt_bits read_clear_bits read_abort clear_if read_register
handle_interrupt-woken_example = handle_interrupt-woken abort_chip driver refl
