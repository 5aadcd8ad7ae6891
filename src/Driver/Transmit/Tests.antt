-- ===== src/Driver/Transmit/Tests.antt =====
-- The theorems on the transmit FIFO at one message.
use voodoo_i2c.Base.{◌≡◌, refl, true, false, [], ◌++◌}
use voodoo_i2c.Base.Int.{pos}
use voodoo_i2c.Registers.{read_register}
use voodoo_i2c.Driver.Types.{Memory}
use voodoo_i2c.Driver.Samples.{full_chip, port, port_IsMapped, driver, write_message, quiet_chip}
use voodoo_i2c.Driver.Transmit.{
  Fill, fill_fifo, has_room, fill_start, fill_message, begin_message, fill_loop,
}
use voodoo_i2c.Driver.Transmit.Words.{sent}
use voodoo_i2c.Driver.Transmit.Sent.{stream}
use voodoo_i2c.Driver.Transmit.Restart.{fill_fifo-stream, unmarked, restart_lost}
use voodoo_i2c.Driver.Types.{Driver}

-- A message of three bytes, with room for two words.
abbrev fill : Fill
fill = record {
  buffer = 0x100;
  transaction_limit = pos 2;
  receive_limit = pos 64;
  receive_outstanding = pos 0;
  need_restart = true;
  port = port;
}

abbrev memory : Memory
memory a = a

fill_fifo-stream_example :
    stream memory true false (fill_fifo memory true false 3 fill)
    ≡ stream memory true false (3, fill)
unfolding has_room
fill_fifo-stream_example = fill_fifo-stream memory true false 2 fill port_IsMapped (refl, λ e. cc)

-- The second message is begun, and the FIFO is full.
abbrev begun : Driver
begun = record driver {
  bus_device = record driver.bus_device { message_write_index = 1; transaction_buffer_length = 3 };
}

restart_lost_example :
    let d' = (fill_message full_chip write_message true begun).0 in
    let (again, wanted) = begin_message write_message false d' in
    let (n, s) = fill_loop quiet_chip write_message wanted again in
    (sent d'.port.trace ≡ [])
    × (wanted ≡ false)
    × (sent s.port.trace ++ unmarked write_message begun s.buffer n
        ≡ unmarked write_message begun begun.bus_device.transaction_buffer 3)
unfolding has_room fill_start read_register
restart_lost_example =
    restart_lost full_chip quiet_chip write_message true begun port_IsMapped refl refl
