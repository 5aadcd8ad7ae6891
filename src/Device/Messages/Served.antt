-- ===== src/Device/Messages/Served.antt =====
-- A write of a device nub, carried out to its end.
use voodoo_i2c.Base.{
  ℕ, ◌≡◌, ◌<◌, refl, ap, ◌∙◌, Bool, true, false, List, [], ◌++◌, append-nil, map, arith,
}
use Prim.Native.Nat.{bit_or}
use voodoo_i2c.Base.Words.{u32}
use voodoo_i2c.Registers.{Chip}
use voodoo_i2c.Driver.Constants.{dw_ic_tar}
use voodoo_i2c.Driver.Transfer.{target}
use voodoo_i2c.Driver.Transfer.Served.{last_write}
use voodoo_i2c.Driver.Types.{success, Driver, Memory}
use voodoo_i2c.Driver.Transmit.Words.{sent, bare, words_from, bytes_from, mark_last}
use voodoo_i2c.Driver.Transfer.{Event, Schedule}
use voodoo_i2c.Driver.Transfer.Result.{transfer_i2c_gated-once}
use voodoo_i2c.Driver.Transfer.Served.{IsServing}
use voodoo_i2c.Driver.Transfer.Served.Request.{IsStarted, served_schedule}
use voodoo_i2c.Driver.Transfer.Served.Finish.{prepare_transfer_i2c-served}
use voodoo_i2c.Device.Resources.{DeviceNub}
use voodoo_i2c.Device.Messages.{write_messages, write_flags, write_i2c, write_i2c_gated}
use voodoo_i2c.Device.Messages.Words.{write_flags-bits}

-- A write stands for the bytes of the buffer, the last with the stop bit.
write_messages-words :
    (memory : Memory) (restart_en : Bool) (nub : DeviceNub) (values length : ℕ)
    → words_from memory restart_en 0 1 (write_messages nub values length)
      ≡ mark_last (bytes_from memory values length)
unfolding write_messages
write_messages-words memory true nub values length = rw ((write_flags-bits nub).0) (append-nil _)
write_messages-words memory false nub values length = rw ((write_flags-bits nub).0) (append-nil _)

-- A write of one or more bytes, over a controller that is awake, with no workaround needed and a block
-- that serves it, with more interrupts during the sleep than there are bytes and none before it: the
-- request returns success, the target address of the block is that of the device, and the bytes of
-- the buffer were sent in order, the last with the stop bit, and nothing else, but for restart bits.
pub write_i2c-served :
    (chip : Chip) (schedules : ℕ → Schedule) (nub : DeviceNub) (values length n k base : ℕ)
    (es : List Event) (d : Driver)
    → IsStarted base d
    → IsServing chip
    → 0 < length
    → length < n
    → schedules 5 ≡ served_schedule n k es
    → let r = write_i2c chip schedules nub values length d in
      (r.0 ≡ success)
      × (last_write dw_ic_tar r.1.port.trace
          ≡ u32 (bit_or nub.i2c_address (target nub.use_10bit_addressing)))
      × (map bare (sent r.1.port.trace)
          ≡ map bare (sent d.port.trace ++ mark_last (bytes_from d.memory values length)))
unfolding write_i2c write_i2c_gated write_messages
write_i2c-served chip schedules nub values length n k base es d started serving some_bytes h e =
    let messages = write_messages nub values length in
    let served =
      prepare_transfer_i2c-served chip nub.i2c_address base
        (record {
          address = nub.i2c_address;
          buffer = values;
          flags = write_flags nub;
          length = length;
        })
        [] n k es d started serving ((write_flags-bits nub).0, refl, some_bytes, tt)
        (omega (arith, h)) in
    rw (transfer_i2c_gated-once chip schedules messages d, e)
      (
        served.0,
        served.2 ∙ ap (λ ten. u32 (bit_or nub.i2c_address (target ten))) ((write_flags-bits nub).1),
        served.3
            ∙ ap (λ t. map bare (sent d.port.trace ++ t))
                (write_messages-words d.memory _ nub values length),
      )
