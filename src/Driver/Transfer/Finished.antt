-- ===== src/Driver/Transfer/Finished.antt =====
-- A transfer that is carried out to its end: two bytes go out and three come in.

use voodoo_i2c.Driver.Receive.Ranges.{addresses-apart}
use voodoo_i2c.Base.{inr, arith, ℕ, ◌≡◌, refl, List, [], ◌∷◌, ◌==◌, if◌then◌else◌, length}
use voodoo_i2c.Registers.{Access, reads, writes, Chip, read_register, write_register}
use voodoo_i2c.Driver.Bus.{
  toggle_loop, toggle_bus_state, toggle_interrupts, wait_loop, wait_bus_not_busy_i2c, write_nonzero,
  configure, initialise_bus,
}
use voodoo_i2c.Driver.Types.{success}
use voodoo_i2c.Driver.Transmit.{
  has_room, may_request, fill_fifo, begin_message, fill_start, fill_loop, fill_message,
  send_messages, mask_after, send_from, transfer_message_to_bus,
}
use voodoo_i2c.Driver.Transmit.Words.{sent}
use voodoo_i2c.Driver.Receive.{drain, drain_loop, drain_message, receive_messages, read_from_bus}
use voodoo_i2c.Driver.Interrupt.{
  clear_if, read_abort, read_clear_bits, read_clear_interrupt_bits, abort_transfer, serve,
  is_complete, retrigger, wakeup, dispatch, is_spurious, handle_awake, handle_interrupt,
}
use voodoo_i2c.Driver.Transfer.{
  Schedule, interrupt, deliver, deliver_early, command_sleep, set_address_mode, quiesce,
  request_message, request_port, request_transfer_i2c, reset_transfer, transfer_result,
  finish_transfer, run_transfer, prepare_transfer_i2c,
}
use voodoo_i2c.Driver.Transfer.Delivery.{
  IsDelivered, HasApartBuffers, prepare_transfer_i2c-IsDelivered,
}
use voodoo_i2c.Driver.Samples.{driver, port_IsMapped, write_message, read_message}
use voodoo_i2c.Base.Int.{◌+ℤ◌, ◌-ℤ◌}

-- The last value written to DW_IC_ENABLE.
abbrev enabled_by : List Access → ℕ
enabled_by [] = 0
enabled_by (reads offset value ∷ t) = enabled_by t
enabled_by (writes offset value ∷ t) = if offset == 0x6c then value else enabled_by t

-- A block that follows DW_IC_ENABLE, asks for words till it has them, and then has three bytes and
-- reports a stop.
abbrev pub working_chip : Chip
working_chip t offset =
    if offset == 0x9c
    then enabled_by t
    else if offset == 0x6c
    then 1
    else if offset == 0x2c
    then (if length (sent t) == 0 then 0x10 else 0x204)
    else if offset == 0x34
    then 0x10
    else if offset == 0x78
    then (if length (sent t) == 0 then 0 else 3)
    else if offset == 0x10
    then 0xab
    else 0

abbrev pub two_interrupts : Schedule
two_interrupts = record { before_sleep = 1; during_sleep = interrupt ∷ []; after_sleep = 0 }

pub finished :
    (prepare_transfer_i2c working_chip two_interrupts (write_message ∷ read_message ∷ []) driver).0
    ≡ success
unfolding read_register write_register toggle_loop toggle_bus_state toggle_interrupts wait_loop
    wait_bus_not_busy_i2c write_nonzero configure initialise_bus has_room may_request fill_fifo
    begin_message fill_start fill_loop fill_message send_messages mask_after send_from
    transfer_message_to_bus drain drain_loop drain_message receive_messages read_from_bus clear_if
    read_abort read_clear_bits read_clear_interrupt_bits abort_transfer serve is_complete retrigger
    wakeup dispatch is_spurious handle_awake handle_interrupt deliver deliver_early command_sleep
    set_address_mode quiesce request_message request_port request_transfer_i2c reset_transfer
    transfer_result finish_transfer run_transfer prepare_transfer_i2c ◌+ℤ◌ ◌-ℤ◌
finished = refl

messages_apart : HasApartBuffers (write_message ∷ read_message ∷ [])
messages_apart = addresses-apart 0x200 3 0x100 2 (inr (omega arith))

prepare_transfer_i2c-IsDelivered_example :
    IsDelivered
      (write_message ∷ read_message ∷ [])
      driver
      (prepare_transfer_i2c working_chip two_interrupts
        (write_message ∷ read_message ∷ [])
        driver).1
prepare_transfer_i2c-IsDelivered_example =
    prepare_transfer_i2c-IsDelivered working_chip two_interrupts (write_message ∷ read_message ∷ [])
      driver port_IsMapped messages_apart finished
