-- ===== src/Driver/Transfer/Served/Sample.antt =====
-- A block that serves a transfer, and a driver that can start one.
use voodoo_i2c.Base.{◌==◌, if◌then◌else◌, refl, arith}
use Prim.Native.Nat.{bit_and}
use voodoo_i2c.Registers.{Chip}
use voodoo_i2c.Driver.Constants.{
  dw_ic_intr_mask, dw_ic_enable, dw_ic_raw_intr_stat, dw_ic_intr_stat,
}
use voodoo_i2c.Driver.Samples.{driver, port_IsMapped}
use voodoo_i2c.Driver.Transfer.Served.{last_write, reported, IsServing}
use voodoo_i2c.Driver.Transfer.Served.Request.{IsStarted}

-- A block that takes each word at once, and does what it was told last.
abbrev pub serving_chip : Chip
serving_chip trace offset =
    if offset == dw_ic_enable
    then last_write dw_ic_enable trace
    else if offset == dw_ic_raw_intr_stat
    then reported trace
    else if offset == dw_ic_intr_stat
    then bit_and (reported trace) (last_write dw_ic_intr_mask trace)
    else 0

pub serving_chip-IsServing : IsServing serving_chip
serving_chip-IsServing = record {
  drained = record { nothing_to_send = λ t. refl; nothing_received = λ t. refl };
  enabled = λ t. refl;
  no_activity = λ t. refl;
  raw_status = λ t. refl;
  status = λ t. refl;
}

pub driver-IsStarted : IsStarted 0x1000 driver
driver-IsStarted = record {
  mapped = port_IsMapped;
  depths = record {
    to_send = omega arith;
    to_send_int = omega arith;
    to_receive = omega arith;
    to_receive_int = omega arith;
  };
  awake = refl;
  no_workaround = refl;
  registered = refl;
  line = refl;
}
