-- ===== src/Driver/Transfer.antt =====
-- `requestTransferI2C`, `prepareTransferI2C`, `transferI2CGated` and `transferI2C`. The bus lock and
-- the command gate let one transfer run at a time, so the environment of one is the interrupts that
-- it meets: a schedule says how many come between the last write of the request and the sleep, what
-- comes during the sleep, and how many come before the thread goes on. A list that ends stands for
-- the deadline.
mod Tests
pub mod Finished
pub mod Frame
pub mod Result
pub mod Race
pub mod Delivery
pub mod Steps
pub mod Served
use voodoo_i2c.Base.{
  ℕ, zero, suc, ◌+◌, Bool, true, false, not, ◌&&◌, List, [], ◌∷◌, ◌==◌, if◌then◌else◌, length, drop,
}
use voodoo_i2c.Base.Bits.{test_bit, set_bit, clear_bit}
use voodoo_i2c.Base.Int.{ℤ, pos}
use voodoo_i2c.Base.State.{Cmd, ◌>>=◌, ◌>>◌, pure}
use voodoo_i2c.Registers.{Chip, Port, read_register, write_register}
use voodoo_i2c.Driver.Constants.{
  dw_ic_con, dw_ic_tar, dw_ic_enable_status, con_10bitaddr_master, dw_ic_tar_10bitaddr_master,
  i2c_m_ten, dw_ic_err_tx_abrt, status_idle,
}
use voodoo_i2c.Driver.Types.{
  IoReturn, success, is_success, error, busy, not_ready, BusState, off, on, Message, BusDevice,
  Driver,
}
use voodoo_i2c.Driver.Bus.{
  toggle_bus_state, toggle_interrupts, wait_bus_not_busy_i2c, initialise_bus,
}
use voodoo_i2c.Driver.Interrupt.{handle_interrupt, is_zero}
use Prim.Native.Nat.{bit_or}

pub data Event : Type 0 where
  interrupt signal : Event

pub record Schedule : Type 0 where
  pub before_sleep : ℕ
  pub during_sleep : List Event
  pub after_sleep : ℕ

pub data Sleep : Type 0 where
  awakened timed_out interrupted : Sleep

-- An interrupt reaches the handler if one is registered and the line is on.
unfoldable pub deliver : Chip → Cmd Driver Bool
deliver chip d =
    if d.is_interrupt_registered && d.line_enabled then handle_interrupt chip d else (false, d)

-- A wake-up with nobody asleep is lost.
unfoldable pub deliver_early : Chip → ℕ → Driver → Driver
deliver_early chip zero d = d
deliver_early chip (suc n) d = deliver_early chip n (deliver chip d).1

unfoldable pub command_sleep : Chip → List Event → Cmd Driver Sleep
command_sleep chip [] d = (timed_out, d)
command_sleep chip (signal ∷ es) d = (interrupted, d)
command_sleep chip (interrupt ∷ es) d =
    let (woken, d₁) = deliver chip d in
    let rest = command_sleep chip es d₁ in if woken then (awakened, d₁) else rest

-- Writes DW_IC_CON only if the addressing mode changes.
unfoldable pub set_address_mode : Chip → Bool → Cmd Port (Unit {0})
set_address_mode chip ten = do
  orig ← read_register chip dw_ic_con
  let configuration =
      if ten then set_bit orig con_10bitaddr_master else clear_bit orig con_10bitaddr_master
  if configuration == orig then pure tt else write_register configuration dw_ic_con

abbrev pub target : Bool → ℕ
target ten = if ten then dw_ic_tar_10bitaddr_master else 0

-- With the workaround the bus is set up anew before each transfer.
unfoldable pub quiesce : Chip → BusDevice → Cmd Port IoReturn
quiesce chip b =
    if b.access_intr_mask_workaround then initialise_bus chip b else toggle_bus_state chip off

-- The transfer starts with the message at `message_write_index`, or with what stands in its place.
unfoldable pub request_message : Chip → BusDevice → Message → Cmd Port (Unit {0})
request_message chip b m = do
  quiesce chip b
  set_address_mode chip (test_bit m.flags i2c_m_ten)
  write_register (bit_or m.address (target (test_bit m.flags i2c_m_ten))) dw_ic_tar
  toggle_interrupts chip off
  toggle_bus_state chip on
  read_register chip dw_ic_enable_status
  toggle_interrupts chip on

unfoldable pub request_port : Chip → Driver → List Message → Port
request_port chip d [] = (request_message chip d.bus_device d.behind_messages d.port).1
request_port chip d (m ∷ ms) = (request_message chip d.bus_device m d.port).1

unfoldable pub request_transfer_i2c : Chip → Driver → Driver
request_transfer_i2c chip d = record d {
  port = request_port chip d (drop d.bus_device.message_write_index d.bus_device.messages);
}

-- The fields that a new transfer resets.
unfoldable pub reset_transfer : List Message → BusDevice → BusDevice
reset_transfer messages b = record b {
  messages = messages;
  message_number = length messages;
  command_error = 0;
  message_write_index = 0;
  message_read_index = 0;
  message_error = pos 0;
  status = status_idle;
  abort_source = 0;
  receive_outstanding = pos 0;
}

-- The code that a finished transfer returns.
unfoldable pub transfer_result : BusDevice → IoReturn
transfer_result b =
    if not (is_zero b.message_error)
    then error
    else (if b.command_error == 0
        then success
        else (if b.command_error == dw_ic_err_tx_abrt then error else not_ready))

abbrev pub on_port : {A : Type 0} → Cmd Port A → Cmd Driver A
on_port m d = let (a, port) = m d.port in (a, record d { port = port })

unfoldable pub finish_transfer : Chip → Sleep → Cmd Driver IoReturn
finish_transfer chip timed_out d =
    (IoReturn.timeout, record d { port = (initialise_bus chip d.bus_device d.port).1 })
finish_transfer chip _ d =
    (transfer_result d.bus_device, record d { port = (toggle_bus_state chip off d.port).1 })

unfoldable pub run_transfer : Chip → Schedule → List Message → Cmd Driver IoReturn
run_transfer chip schedule messages d =
    let reset = record d { bus_device = reset_transfer messages d.bus_device } in
    let requested = deliver_early chip schedule.before_sleep (request_transfer_i2c chip reset) in
    let (slept, d₁) = command_sleep chip schedule.during_sleep requested in
    finish_transfer chip slept (deliver_early chip schedule.after_sleep d₁)

unfoldable pub prepare_transfer_i2c : Chip → Schedule → List Message → Cmd Driver IoReturn
prepare_transfer_i2c chip schedule messages d =
    let (waited, d₁) = on_port (wait_bus_not_busy_i2c chip) d in
    if d.bus_device.awake
    then (if is_success waited then run_transfer chip schedule messages d₁ else (busy, d₁))
    else (busy, d)

abbrev pub is_not_ready : IoReturn → Bool
is_not_ready not_ready = true
is_not_ready _ = false

-- `for (ret = 0, tries = 0; tries <= 5; tries++)`: the number is that of the tries left.
unfoldable pub retry : Chip → (ℕ → Schedule) → List Message → ℕ → Cmd Driver IoReturn
retry chip schedules messages zero d = prepare_transfer_i2c chip (schedules 0) messages d
retry chip schedules messages (suc n) d =
    let (ret, d₁) = prepare_transfer_i2c chip (schedules (suc n)) messages d in
    let again = retry chip schedules messages n d₁ in if is_not_ready ret then again else (ret, d₁)

unfoldable pub transfer_i2c_gated : Chip → (ℕ → Schedule) → List Message → Cmd Driver IoReturn
transfer_i2c_gated chip schedules messages = retry chip schedules messages 5
