-- ===== src/Driver/Interrupt.antt =====
-- `readClearInterruptBits` and `handleInterrupt`.
mod Tests
pub mod Frame
pub mod Outcome
pub mod Joined
pub mod Sides
pub mod Aside
pub mod Whole
pub mod Beside
use voodoo_i2c.Base.{ℕ, ◌+◌, ◌-◌, ◌^◌, Bool, true, false, not, ◌&&◌, ◌||◌, ◌==◌, if◌then◌else◌}
use voodoo_i2c.Base.Bits.{test_bit, set_bit, clear_bit}
use voodoo_i2c.Base.Int.{ℤ, pos, negsuc}
use voodoo_i2c.Base.State.{Cmd, ◌>>=◌, ◌>>◌, pure}
use voodoo_i2c.Registers.{Chip, Port, read_register, write_register}
use voodoo_i2c.Driver.Constants.{
  dw_ic_intr_stat, dw_ic_intr_mask, dw_ic_raw_intr_stat, dw_ic_clr_rx_under, dw_ic_clr_rx_over,
  dw_ic_clr_tx_over, dw_ic_clr_rd_req, dw_ic_clr_tx_abrt, dw_ic_clr_rx_done, dw_ic_clr_activity,
  dw_ic_clr_stop_det, dw_ic_clr_start_det, dw_ic_clr_gen_call, dw_ic_enable, dw_ic_tx_abrt_source,
  rx_under, rx_over, rx_full, tx_over, tx_empty, rd_req, tx_abrt, rx_done, activity, stop_det,
  start_det, gen_call, dw_ic_err_tx_abrt, status_idle,
}
use voodoo_i2c.Driver.Types.{Message, BusDevice, Driver}
use voodoo_i2c.Driver.Transmit.{transfer_message_to_bus}
use voodoo_i2c.Driver.Receive.{read_from_bus}

-- Reads the register for its effect, where the test passes.
unfoldable pub clear_if : Chip → Bool → ℕ → Cmd Port (Unit {0})
clear_if chip test offset = if test then (do read_register chip offset; pure tt) else pure tt

abbrev pub is_zero : ℤ → Bool
is_zero (pos n) = n == 0
is_zero (negsuc n) = false

-- The abort source of this interrupt, or the one of before.
unfoldable pub read_abort : Chip → ℕ → ℕ → Cmd Port ℕ
read_abort chip stat abort_source =
    if test_bit stat tx_abrt
    then (do
      source ← read_register chip dw_ic_tx_abrt_source
      read_register chip dw_ic_clr_tx_abrt
      pure source)
    else pure abort_source

-- The result is the status with the new `abort_source`.
unfoldable pub read_clear_bits : Chip → BusDevice → Cmd Port (ℕ × ℕ)
read_clear_bits chip b = do
  stat ← read_register chip dw_ic_intr_stat
  clear_if chip (test_bit stat rx_under) dw_ic_clr_rx_under
  clear_if chip (test_bit stat rx_over) dw_ic_clr_rx_over
  clear_if chip (test_bit stat tx_over) dw_ic_clr_tx_over
  clear_if chip (test_bit stat rd_req) dw_ic_clr_rd_req
  source ← read_abort chip stat b.abort_source
  clear_if chip (test_bit stat rx_done) dw_ic_clr_rx_done
  clear_if chip (test_bit stat activity) dw_ic_clr_activity
  clear_if chip (test_bit stat stop_det && (is_zero b.receive_outstanding || test_bit stat rx_full))
      dw_ic_clr_stop_det
  clear_if chip (test_bit stat start_det) dw_ic_clr_start_det
  clear_if chip (test_bit stat gen_call) dw_ic_clr_gen_call
  pure (stat, source)

unfoldable pub read_clear_interrupt_bits : Chip → Cmd Driver ℕ
read_clear_interrupt_bits chip d =
    let read = read_clear_bits chip d.bus_device d.port in
    (
      read.0.0,
      record d { bus_device = record d.bus_device { abort_source = read.0.1 }; port = read.1 },
    )

-- `command_error |= DW_IC_ERR_TX_ABRT`, back to idle, and no more interrupts.
unfoldable pub abort_transfer : Driver → Driver
abort_transfer d = record d {
  bus_device = record d.bus_device {
    command_error = set_bit d.bus_device.command_error 0;
    status = status_idle;
    receive_outstanding = pos 0;
  };
  port = (write_register 0 dw_ic_intr_mask d.port).1;
}

-- What the bits of the status ask for, but for an abort.
unfoldable pub serve : Chip → ℕ → Driver → Driver
serve chip status d =
    let received = if test_bit status rx_full then read_from_bus chip d else d in
    if test_bit status tx_empty then transfer_message_to_bus chip received else received

-- The condition under which the sleeping caller is woken.
unfoldable pub is_complete : ℕ → BusDevice → Bool
is_complete status b =
    (test_bit status tx_abrt || test_bit status stop_det || not (is_zero b.message_error))
    && is_zero b.receive_outstanding

-- The workaround that triggers a pending interrupt.
unfoldable pub retrigger : Chip → Cmd Port (Unit {0})
retrigger chip = do
  mask ← read_register chip dw_ic_intr_mask
  write_register 0 dw_ic_intr_mask
  write_register mask dw_ic_intr_mask

-- From the label `wakeup` on: the result says whether `commandWakeup` is called.
unfoldable pub wakeup : Chip → ℕ → Cmd Driver Bool
wakeup chip status d =
    if is_complete status d.bus_device
    then (true, d)
    else (if d.bus_device.access_intr_mask_workaround
        then (false, record d { port = (retrigger chip d.port).1 })
        else (false, d))

unfoldable pub dispatch : Chip → Cmd Driver Bool
dispatch chip d =
    let (status, d₁) = read_clear_interrupt_bits chip d in
    if test_bit status tx_abrt
    then wakeup chip status (abort_transfer d₁)
    else wakeup chip status (serve chip status d₁)

-- `!enabled || !(status & ~DW_IC_INTR_ACTIVITY) || status == 0xFFFFFFFF`
unfoldable pub is_spurious : ℕ → ℕ → Bool
is_spurious enabled status =
    (enabled == 0) || (clear_bit status activity == 0) || (status == 0xffff_ffff)

unfoldable pub handle_awake : Chip → Cmd Driver Bool
handle_awake chip d =
    let (enabled, port₁) = read_register chip dw_ic_enable d.port in
    let (status, port₂) = read_register chip dw_ic_raw_intr_stat port₁ in
    let read = record d { port = port₂ } in
    if is_spurious enabled status then (false, read) else dispatch chip read

-- The provider's line is off while the handler runs. The result says whether the caller is woken.
unfoldable pub handle_interrupt : Chip → Cmd Driver Bool
handle_interrupt chip d =
    let masked = record d { line_enabled = false } in
    let handled = if d.bus_device.awake then handle_awake chip masked else (false, masked) in
    (handled.0, record handled.1 { line_enabled = true })
