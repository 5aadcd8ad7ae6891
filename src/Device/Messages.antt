-- ===== src/Device/Messages.antt =====
-- `readI2CGated`, `writeI2CGated` and `writeReadI2CGated`, the messages of a request, and `readI2C`,
-- `writeI2C` and `writeReadI2C`, which run them behind the command gate of the nub.
pub mod Words
pub mod Delivered
pub mod Served
mod Tests
use voodoo_i2c.Base.{ℕ, Bool, List, [], ◌∷◌, if◌then◌else◌, ◌^◌}
use voodoo_i2c.Base.Bits.{set_bit}
use voodoo_i2c.Base.State.{Cmd}
use voodoo_i2c.Registers.{Chip}
use voodoo_i2c.Driver.Constants.{i2c_m_rd, i2c_m_ten}
use voodoo_i2c.Driver.Types.{IoReturn, cannot_lock, Message, Driver}
use voodoo_i2c.Driver.Transfer.{Schedule, transfer_i2c_gated}
use voodoo_i2c.Device.Resources.{DeviceNub}

abbrev pub read_flags : DeviceNub → ℕ
read_flags d = if d.use_10bit_addressing then set_bit (2 ^ i2c_m_rd) i2c_m_ten else 2 ^ i2c_m_rd

abbrev pub write_flags : DeviceNub → ℕ
write_flags d = if d.use_10bit_addressing then 2 ^ i2c_m_ten else 0

pub read_messages : DeviceNub → ℕ → ℕ → List Message
read_messages d values length =
    record { address = d.i2c_address; buffer = values; flags = read_flags d; length = length } ∷ []

pub write_messages : DeviceNub → ℕ → ℕ → List Message
write_messages d values length =
    record { address = d.i2c_address; buffer = values; flags = write_flags d; length = length } ∷ []

pub write_read_messages : DeviceNub → ℕ → ℕ → ℕ → ℕ → List Message
write_read_messages d write_buffer write_length read_buffer read_length =
    record {
      address = d.i2c_address;
      buffer = write_buffer;
      flags = write_flags d;
      length = write_length;
    }
    ∷ record {
      address = d.i2c_address;
      buffer = read_buffer;
      flags = read_flags d;
      length = read_length;
    }
    ∷ []

module _ (chip : Chip) (schedules : ℕ → Schedule) (d : DeviceNub) where
  pub read_i2c_gated : ℕ → ℕ → Cmd Driver IoReturn
  read_i2c_gated values length = transfer_i2c_gated chip schedules (read_messages d values length)

  pub write_i2c_gated : ℕ → ℕ → Cmd Driver IoReturn
  write_i2c_gated values length = transfer_i2c_gated chip schedules (write_messages d values length)

  pub write_read_i2c_gated : ℕ → ℕ → ℕ → ℕ → Cmd Driver IoReturn
  write_read_i2c_gated write_buffer write_length read_buffer read_length =
      transfer_i2c_gated chip schedules
        (write_read_messages d write_buffer write_length read_buffer read_length)

  -- `attemptAction` gives up while another thread is behind the gate.
  pub read_i2c : Bool → ℕ → ℕ → Cmd Driver IoReturn
  unfolding read_i2c_gated
  read_i2c is_busy values length s =
      if is_busy then (cannot_lock, s) else read_i2c_gated values length s

  -- `runAction` waits until the gate is free; the state is the one that it finds then.
  pub write_i2c : ℕ → ℕ → Cmd Driver IoReturn
  unfolding write_i2c_gated
  write_i2c values length = write_i2c_gated values length

  pub write_read_i2c : ℕ → ℕ → ℕ → ℕ → Cmd Driver IoReturn
  unfolding write_read_i2c_gated
  write_read_i2c write_buffer write_length read_buffer read_length =
      write_read_i2c_gated write_buffer write_length read_buffer read_length
