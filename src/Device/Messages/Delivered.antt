-- ===== src/Device/Messages/Delivered.antt =====
-- A combined request of a device nub, carried out.

use voodoo_i2c.Base.{
  ℕ, ◌+◌, ◌≤◌, ◌≡◌, refl, sym, ap, ◌∙◌, subst, ◌⊎◌, Bool, true, false, List, ◌++◌, append-nil, map,
  length, replicate,
}
use mathlib.Core.List.{map-append, Memᴰ}
use voodoo_i2c.Registers.{Chip}
use voodoo_i2c.Registers.Laws.{IsMapped}
use voodoo_i2c.Driver.Types.{success, Message, Driver, Memory}
use voodoo_i2c.Driver.Receive.Slots.{addresses, received, slots, slots_of, store_all}
use voodoo_i2c.Driver.Receive.Ranges.{addresses-apart}
use voodoo_i2c.Driver.Transmit.Words.{sent, bare, pending, words_from, bytes_from, mark_last}
use voodoo_i2c.Driver.Transmit.Sent.{map-bare-restart}
use voodoo_i2c.Driver.Transmit.Sources.{sources_of}
use voodoo_i2c.Driver.Transfer.{Schedule}
use voodoo_i2c.Driver.Transfer.Result.{transfer_i2c_gated-once}
use voodoo_i2c.Driver.Transfer.Delivery.{
  IsDelivered, HasApartBuffers, prepare_transfer_i2c-IsDelivered,
}
use voodoo_i2c.Device.Resources.{DeviceNub}
use voodoo_i2c.Device.Messages.{write_read_messages, write_read_i2c_gated}
use voodoo_i2c.Device.Messages.Words.{write_read_messages-words, read_flags-bits, write_flags-bits}

module _ (d : DeviceNub) (wb wl rb rl : ℕ) where
  abbrev pub combined : List Message
  combined = write_read_messages d wb wl rb rl

  slots_of-combined : slots_of combined ≡ addresses rb rl
  unfolding write_read_messages
  slots_of-combined =
      rw ((write_flags-bits d).0, (read_flags-bits d).0) (append-nil (addresses rb rl))

  sources_of-combined : sources_of combined ≡ addresses wb wl
  unfolding write_read_messages
  sources_of-combined =
      rw ((write_flags-bits d).0, (read_flags-bits d).0) (append-nil (addresses wb wl))

  -- But for the restart bits it does not matter whether the bus is set up for restarts.
  any_restart :
      (memory : Memory) (restart_en : Bool)
      → map bare (words_from memory restart_en 0 2 combined)
        ≡ map bare (bytes_from memory wb wl ++ mark_last (replicate rl 0x100))
  unfolding write_read_messages
  any_restart memory true =
      ap (map bare) (write_read_messages-words memory d wb wl rb rl)
      ∙ simp map-append (rw (map-bare-restart true (mark_last (replicate rl 0x100))) refl)
  any_restart memory false =
      rw ((write_flags-bits d).0, (read_flags-bits d).0)
        (ap (λ t. map bare (bytes_from memory wb wl ++ t))
          (append-nil (mark_last (replicate rl 0x100))))

-- What a combined request of the device nub has done: the words sent and still to be sent are the
-- bytes to write, and behind them a read command for each byte to read, the last with the stop bit,
-- but for the restart bits; what has come in stands in the buffer to read, from its start, and
-- nothing else has changed in memory.
pub record IsAnswered (wb wl rb rl : ℕ) (s e : Driver) : Type 0 where
  pub words :
      map bare (sent e.port.trace ++ pending e.memory e.bus_device)
      ≡ map bare
          (sent s.port.trace ++ (bytes_from s.memory wb wl ++ mark_last (replicate rl 0x100)))
  pub used : List ℕ
  pub came : List ℕ
  pub buffer_split : addresses rb rl ≡ used ++ slots e.bus_device
  pub bytes_grow : received e.port.trace ≡ received s.port.trace ++ came
  pub one_each : length used ≡ length came
  pub stored : e.memory ≡ store_all s.memory used came

module _ (d : DeviceNub) (wb wl rb rl : ℕ) where
  IsDelivered-IsAnswered :
      (s e : Driver) → IsDelivered (combined d wb wl rb rl) s e → IsAnswered wb wl rb rl s e
  unfolding write_read_messages
  IsDelivered-IsAnswered s e f = record {
    words =
        f.words
        ∙ map-append bare (sent s.port.trace) _
        ∙ ap (λ t. map bare (sent s.port.trace) ++ t) (any_restart d wb wl rb rl s.memory _)
        ∙ sym (map-append bare (sent s.port.trace) _);
    used = f.used;
    came = f.came;
    buffer_split = sym (slots_of-combined d wb wl rb rl) ∙ f.slots_split;
    bytes_grow = f.bytes_grow;
    one_each = f.one_each;
    stored = f.stored;
  }

  combined-HasApartBuffers :
      (rb + rl ≤ wb) ⊎ (wb + wl ≤ rb) → HasApartBuffers (combined d wb wl rb rl)
  combined-HasApartBuffers order a m k =
      addresses-apart rb rl wb wl order a
        (subst (λ t. Memᴰ a t) (slots_of-combined d wb wl rb rl) m)
        (subst (λ t. Memᴰ a t) (sources_of-combined d wb wl rb rl) k)

  -- A combined request that succeeds, over a mapped window and with two buffers that do not overlap,
  -- has sent and has still to send the bytes to write, from their buffer, and a read command for each
  -- byte to read, the last with the stop bit, but for the restart bits; the bytes that came in stand
  -- in the buffer to read, from its start, and memory is otherwise as before.
  pub write_read_i2c_gated-IsAnswered :
      (chip : Chip) (schedules : ℕ → Schedule) (s : Driver) {base : ℕ}
      → IsMapped s.port base
      → (rb + rl ≤ wb) ⊎ (wb + wl ≤ rb)
      → (write_read_i2c_gated chip schedules d wb wl rb rl s).0 ≡ success
      → IsAnswered wb wl rb rl s (write_read_i2c_gated chip schedules d wb wl rb rl s).1
  unfolding write_read_i2c_gated
  write_read_i2c_gated-IsAnswered chip schedules s mp order h =
      let once = transfer_i2c_gated-once chip schedules (combined d wb wl rb rl) s in
      rw (once) (
        IsDelivered-IsAnswered s _ (
          prepare_transfer_i2c-IsDelivered chip (schedules 5) (combined d wb wl rb rl) s mp
            (combined-HasApartBuffers order) (ap (λ r. r.0) (sym once) ∙ h)))
