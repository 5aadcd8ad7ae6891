-- ===== src/Device/Messages/Words.antt =====
-- What a request puts on the command register of the controller.
use voodoo_i2c.Base.{
  ℕ, ◌≡◌, refl, ap, Bool, true, false, ◌++◌, append-nil, replicate, if◌then◌else◌,
}
use voodoo_i2c.Base.Bits.{test_bit}
use voodoo_i2c.Driver.Types.{Memory}
use voodoo_i2c.Driver.Constants.{i2c_m_rd, i2c_m_ten}
use voodoo_i2c.Driver.Transmit.Words.{words_from, bytes_from, mark_first, mark_last}
use voodoo_i2c.Device.Resources.{DeviceNub}
use voodoo_i2c.Device.Messages.{write_read_messages, read_flags, write_flags}

-- The flags say which messages read, and whether the address has ten bits.
pub read_flags-bits :
    (d : DeviceNub)
    → (test_bit (read_flags d) i2c_m_rd ≡ true)
      × (test_bit (read_flags d) i2c_m_ten ≡ d.use_10bit_addressing)
read_flags-bits d = by_cases d.use_10bit_addressing
  where
    by_cases :
        (b : Bool)
        → (test_bit (if b then 17 else 1) 0 ≡ true) × (test_bit (if b then 17 else 1) 4 ≡ b)
    by_cases true = (refl, refl)
    by_cases false = (refl, refl)

pub write_flags-bits :
    (d : DeviceNub)
    → (test_bit (write_flags d) i2c_m_rd ≡ false)
      × (test_bit (write_flags d) i2c_m_ten ≡ d.use_10bit_addressing)
write_flags-bits d = by_cases d.use_10bit_addressing
  where
    by_cases :
        (b : Bool)
        → (test_bit (if b then 16 else 0) 0 ≡ false) × (test_bit (if b then 16 else 0) 4 ≡ b)
    by_cases true = (refl, refl)
    by_cases false = (refl, refl)

-- A combined request stands for the bytes to write, without a stop, and behind them one read command
-- for each byte to read, the first with the restart bit and the last with the stop bit, whatever the
-- width of the address.
pub write_read_messages-words :
    (memory : Memory) (d : DeviceNub) (write_buffer write_length read_buffer read_length : ℕ)
    → words_from memory true 0 2
        (write_read_messages d write_buffer write_length read_buffer read_length)
      ≡ bytes_from memory write_buffer write_length
        ++ mark_first (mark_last (replicate read_length 0x100))
unfolding write_read_messages
write_read_messages-words memory d wb wl rb rl =
    rw ((write_flags-bits d).0, (read_flags-bits d).0)
      (ap (λ t. bytes_from memory wb wl ++ t) (append-nil _))
