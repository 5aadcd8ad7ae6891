-- ===== src/Driver/Transfer/Served.antt =====
-- A transfer that the block serves to its end: while words are left each interrupt asks for more, and
-- the stop is reported once the word with the stop bit is out.
pub mod Stops
pub mod Status
pub mod Trace
pub mod Calm
pub mod Interrupts
pub mod Round
pub mod Settings
pub mod Request
pub mod Finish
pub mod Sample
use voodoo_i2c.Base.{
  ℕ, ◌+◌, ◌≡◌, Bool, true, false, List, [], ◌∷◌, if◌then◌else◌, length, ◌==◌, ◌||◌,
}
use Prim.Native.Nat.{bit_and}
use voodoo_i2c.Base.Bits.{test_bit}
use voodoo_i2c.Base.Int.{pos}
use voodoo_i2c.Registers.{Access, reads, writes, Chip, Port}
use voodoo_i2c.Registers.Laws.{IsMapped}
use voodoo_i2c.Driver.Constants.{
  dw_ic_enable, dw_ic_status, dw_ic_raw_intr_stat, dw_ic_intr_stat, dw_ic_intr_mask, dw_ic_tar,
  dw_ic_clr_stop_det, dw_ic_clr_intr, dw_ic_data_cmd,
}
use voodoo_i2c.Driver.Types.{Message, Driver}
use voodoo_i2c.Driver.Transmit.Words.{pending}
use voodoo_i2c.Driver.Transmit.Refill.{Writes, IsDrained, HasDepths, IsUnderWay, messages_left}

-- The words with a stop bit.
abbrev pub stops : List ℕ → ℕ
stops [] = 0
stops (w ∷ ws) = (if test_bit w 9 then 1 else 0) + stops ws

-- The value that was written to a register last; a register that was never written is 0.
abbrev pub last_write : ℕ → List Access → ℕ
last_write offset [] = 0
last_write offset (reads at value ∷ t) = last_write offset t
last_write offset (writes at value ∷ t) = if at == offset then value else last_write offset t

-- The stops on the bus since one of the two registers was read that clear STOP_DET.
abbrev pub stops_since : List Access → ℕ
stops_since [] = 0
stops_since (reads at value ∷ t) =
    if (at == dw_ic_clr_stop_det) || (at == dw_ic_clr_intr) then 0 else stops_since t
stops_since (writes at value ∷ t) =
    if at == dw_ic_data_cmd
    then stops_since t + (if test_bit value 9 then 1 else 0)
    else stops_since t

-- The raw status of a block that sends each word at once: nothing while it is disabled, else TX_EMPTY,
-- and STOP_DET where a stop was not cleared.
abbrev pub reported : List Access → ℕ
reported t =
    if last_write dw_ic_enable t == 0 then 0 else if stops_since t == 0 then 0x10 else 0x210

-- A block whose FIFOs are found empty, and which is found idle by the wait for the bus. It is enabled
-- as it was told last, and its interrupt status is the raw status under the mask that was set last.
pub record IsServing (chip : Chip) : Type 0 where
  pub drained : IsDrained chip
  pub enabled : (t : List Access) → chip t dw_ic_enable ≡ last_write dw_ic_enable t
  pub no_activity : (t : List Access) → chip t dw_ic_status ≡ 0
  pub raw_status : (t : List Access) → chip t dw_ic_raw_intr_stat ≡ reported t
  pub status :
      (t : List Access)
      → chip t dw_ic_intr_stat ≡ bit_and (reported t) (last_write dw_ic_intr_mask t)

-- The mask of a transfer with so many messages left.
abbrev pub mask_of : List Message → ℕ
mask_of [] = 0x244
mask_of (m ∷ ms) = 0x254

-- The block is enabled, with this target address and this interrupt mask.
pub record HasSettings (target mask : ℕ) (p : Port) : Type 0 where
  pub enabled : last_write dw_ic_enable p.trace ≡ 1
  pub target_set : last_write dw_ic_tar p.trace ≡ target
  pub mask_set : last_write dw_ic_intr_mask p.trace ≡ mask

-- A driver that can serve the interrupts of a transfer, in which no error has come up.
pub record IsClean (base : ℕ) (d : Driver) : Type 0 where
  pub mapped : IsMapped d.port base
  pub awake : d.bus_device.awake ≡ true
  pub no_workaround : d.bus_device.access_intr_mask_workaround ≡ false
  pub registered : d.is_interrupt_registered ≡ true
  pub message_error : d.bus_device.message_error ≡ pos 0
  pub command_error : d.bus_device.command_error ≡ 0
  pub outstanding : d.bus_device.receive_outstanding ≡ pos 0

-- In the middle of a transfer that writes messages to one address, with `ms` left.
pub record IsWriting (base address target : ℕ) (ms : List Message) (d : Driver) : Type 0 where
  pub clean : IsClean base d
  pub settings : HasSettings target (mask_of ms) d.port
  pub depths : HasDepths d.bus_device
  pub under_way : IsUnderWay d.bus_device
  pub left : messages_left d.bus_device ≡ ms
  pub writes : Writes address ms
  pub count : d.bus_device.message_write_index + length ms ≡ d.bus_device.message_number
  pub one_stop : stops_since d.port.trace + stops (pending d.memory d.bus_device) ≡ 1

-- Behind the stop: nothing is left, and the stop has been cleared.
pub record HasStopped (base target : ℕ) (d : Driver) : Type 0 where
  pub clean : IsClean base d
  pub settings : HasSettings target 0x244 d.port
  pub left : messages_left d.bus_device ≡ []
  pub none_out : stops_since d.port.trace ≡ 0
