-- ===== src/Driver/Bus.antt =====
-- The driver's dealings with the bus that touch no field of it: `toggleBusState`,
-- `toggleInterrupts`, `waitBusNotBusyI2C` and `initialiseBus`. Delays are left out.
pub mod Toggle
pub mod Wait
pub mod Aside
use voodoo_i2c.Base.{ℕ, zero, suc, ◌+◌, ◌*◌, ◌/◌, ◌%◌, Bool, true, false, ◌==◌, if◌then◌else◌}
use voodoo_i2c.Base.Bits.{test_bit}
use voodoo_i2c.Base.State.{Cmd, ◌>>=◌, ◌>>◌, pure}
use voodoo_i2c.Registers.{Chip, Port, read_register, write_register}
use voodoo_i2c.Driver.Constants.{
  dw_ic_con, dw_ic_ss_scl_hcnt, dw_ic_ss_scl_lcnt, dw_ic_fs_scl_hcnt, dw_ic_fs_scl_lcnt,
  dw_ic_intr_mask, dw_ic_rx_tl, dw_ic_tx_tl, dw_ic_clr_intr, dw_ic_enable, dw_ic_status,
  dw_ic_sda_hold, dw_ic_enable_status, dw_ic_intr_default_mask, status_activity, timeout,
}
use voodoo_i2c.Driver.Types.{
  IoReturn, success, is_success, error, busy, BusState, off, on, to_word, BusDevice,
}

-- `do { … } while (timeout--)`: the argument is `timeout` as the round starts.
unfoldable pub toggle_loop : Chip → BusState → ℕ → Cmd Port IoReturn
toggle_loop chip enabled zero p =
    let (status, p₁) =
      (write_register (to_word enabled) dw_ic_enable >> read_register chip dw_ic_enable_status) p in
    if status % 2 == to_word enabled then (success, p₁) else (IoReturn.timeout, p₁)
toggle_loop chip enabled (suc n) p =
    let (status, p₁) =
      (write_register (to_word enabled) dw_ic_enable >> read_register chip dw_ic_enable_status) p in
    let rest = toggle_loop chip enabled n p₁ in
    if status % 2 == to_word enabled then (success, p₁) else rest

unfoldable pub toggle_bus_state : Chip → BusState → Cmd Port IoReturn
toggle_bus_state chip enabled = toggle_loop chip enabled 1000

unfoldable pub toggle_interrupts : Chip → BusState → Cmd Port (Unit {0})
toggle_interrupts chip BusState.off = write_register 0 dw_ic_intr_mask
toggle_interrupts chip BusState.on = do
  read_register chip dw_ic_clr_intr
  write_register dw_ic_intr_default_mask dw_ic_intr_mask

-- The argument is `timeout`, which the loop tests before it counts down.
unfoldable pub wait_loop : Chip → ℕ → Cmd Port IoReturn
wait_loop chip zero p =
    let (status, p₁) = read_register chip dw_ic_status p in
    if test_bit status status_activity then (busy, p₁) else (success, p₁)
wait_loop chip (suc n) p =
    let (status, p₁) = read_register chip dw_ic_status p in
    let rest = wait_loop chip n p₁ in
    if test_bit status status_activity then rest else (success, p₁)

unfoldable pub wait_bus_not_busy_i2c : Chip → Cmd Port IoReturn
wait_bus_not_busy_i2c chip = wait_loop chip (timeout * 150)

-- Writes the register where the value is not 0.
unfoldable pub write_nonzero : ℕ → ℕ → Cmd Port (Unit {0})
write_nonzero value offset = if value == 0 then pure tt else write_register value offset

unfoldable pub configure : Chip → BusDevice → Cmd Port IoReturn
configure chip d = do
  write_register d.acpi_config.ss_hcnt dw_ic_ss_scl_hcnt
  write_register d.acpi_config.ss_lcnt dw_ic_ss_scl_lcnt
  write_register d.acpi_config.fs_hcnt dw_ic_fs_scl_hcnt
  write_register d.acpi_config.fs_lcnt dw_ic_fs_scl_lcnt
  write_nonzero d.acpi_config.sda_hold dw_ic_sda_hold
  write_register (d.transaction_fifo_depth / 2) dw_ic_tx_tl
  write_register 0 dw_ic_rx_tl
  write_register d.bus_config dw_ic_con
  pure success

unfoldable pub initialise_bus : Chip → BusDevice → Cmd Port IoReturn
initialise_bus chip d p =
    let (toggled, p₁) = toggle_bus_state chip off p in
    if is_success toggled then configure chip d p₁ else (error, p₁)
