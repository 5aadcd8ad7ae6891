-- ===== src/Driver/Bus/Aside.antt =====
-- The operations on the bus send and receive nothing.
use voodoo_i2c.Base.{ℕ, zero, suc, ◌*◌, ◌≡◌, refl, false, ◌==◌, if_both}
use voodoo_i2c.Base.Bits.{test_bit}
use voodoo_i2c.Base.State.{Cmd}
use voodoo_i2c.Registers.{Chip, Port}
use voodoo_i2c.Driver.Constants.{
  dw_ic_con, dw_ic_ss_scl_hcnt, dw_ic_ss_scl_lcnt, dw_ic_fs_scl_hcnt, dw_ic_fs_scl_lcnt,
  dw_ic_intr_mask, dw_ic_rx_tl, dw_ic_tx_tl, dw_ic_clr_intr, dw_ic_enable, dw_ic_status,
  dw_ic_sda_hold, dw_ic_enable_status, dw_ic_data_cmd, status_activity, timeout,
}
use voodoo_i2c.Driver.Types.{IoReturn, BusState, off, to_word, BusDevice, is_success}
use voodoo_i2c.Driver.Bus.{
  toggle_loop, toggle_bus_state, toggle_interrupts, wait_loop, wait_bus_not_busy_i2c, write_nonzero,
  configure, initialise_bus,
}
use voodoo_i2c.Driver.Interrupt.Aside.{
  IsAside, IsAside-refl, ◌⨾◌, KeepsAside, read_register-KeepsAside, write_register-KeepsAside,
}

module _ (chip : Chip) where
  toggle_loop-KeepsAside : (enabled : BusState) (n : ℕ) → KeepsAside (toggle_loop chip enabled n)
  unfolding toggle_loop
  toggle_loop-KeepsAside enabled zero p =
      let once =
        write_register-KeepsAside (to_word enabled) dw_ic_enable refl p
        ⨾ read_register-KeepsAside chip dw_ic_enable_status refl _ in
      if_both {A = IoReturn × Port} (λ r. IsAside p r.1) (_ == to_word enabled) once once
  toggle_loop-KeepsAside enabled (suc n) p =
      let once =
        write_register-KeepsAside (to_word enabled) dw_ic_enable refl p
        ⨾ read_register-KeepsAside chip dw_ic_enable_status refl _ in
      if_both {A = IoReturn × Port} (λ r. IsAside p r.1) (_ == to_word enabled) once
        (once ⨾ toggle_loop-KeepsAside enabled n _)

  pub toggle_bus_state-KeepsAside :
      (enabled : BusState) → KeepsAside (toggle_bus_state chip enabled)
  unfolding toggle_bus_state
  toggle_bus_state-KeepsAside enabled p = toggle_loop-KeepsAside enabled 1000 p

  pub toggle_interrupts-KeepsAside :
      (enabled : BusState) → KeepsAside (toggle_interrupts chip enabled)
  unfolding toggle_interrupts
  toggle_interrupts-KeepsAside BusState.off p = write_register-KeepsAside 0 dw_ic_intr_mask refl p
  toggle_interrupts-KeepsAside BusState.on p =
      read_register-KeepsAside chip dw_ic_clr_intr refl p
      ⨾ write_register-KeepsAside _ dw_ic_intr_mask refl _

  wait_loop-KeepsAside : (n : ℕ) → KeepsAside (wait_loop chip n)
  unfolding wait_loop
  wait_loop-KeepsAside zero p =
      let once = read_register-KeepsAside chip dw_ic_status refl p in
      if_both {A = IoReturn × Port} (λ r. IsAside p r.1) (test_bit _ status_activity) once once
  wait_loop-KeepsAside (suc n) p =
      let once = read_register-KeepsAside chip dw_ic_status refl p in
      if_both {A = IoReturn × Port} (λ r. IsAside p r.1) (test_bit _ status_activity)
        (once ⨾ wait_loop-KeepsAside n _) once

  pub wait_bus_not_busy_i2c-KeepsAside : KeepsAside (wait_bus_not_busy_i2c chip)
  unfolding wait_bus_not_busy_i2c
  wait_bus_not_busy_i2c-KeepsAside p = wait_loop-KeepsAside (timeout * 150) p

  write_nonzero-KeepsAside :
      (value offset : ℕ)
      → (offset == dw_ic_data_cmd) ≡ false
      → KeepsAside (write_nonzero value offset)
  unfolding write_nonzero
  write_nonzero-KeepsAside value offset ne p =
      if_both {A = Cmd Port (Unit {0})} (λ m. IsAside p (m p).1) (value == 0) (IsAside-refl p)
        (write_register-KeepsAside value offset ne p)

  configure-KeepsAside : (b : BusDevice) → KeepsAside (configure chip b)
  unfolding configure
  configure-KeepsAside b p =
      write_register-KeepsAside _ dw_ic_ss_scl_hcnt refl p
      ⨾ write_register-KeepsAside _ dw_ic_ss_scl_lcnt refl _
      ⨾ write_register-KeepsAside _ dw_ic_fs_scl_hcnt refl _
      ⨾ write_register-KeepsAside _ dw_ic_fs_scl_lcnt refl _
      ⨾ write_nonzero-KeepsAside _ dw_ic_sda_hold refl _
      ⨾ write_register-KeepsAside _ dw_ic_tx_tl refl _
      ⨾ write_register-KeepsAside _ dw_ic_rx_tl refl _
      ⨾ write_register-KeepsAside _ dw_ic_con refl _

  pub initialise_bus-KeepsAside : (b : BusDevice) → KeepsAside (initialise_bus chip b)
  unfolding initialise_bus
  initialise_bus-KeepsAside b p =
      let toggled = toggle_bus_state-KeepsAside BusState.off p in
      if_both {A = IoReturn × Port} (λ r. IsAside p r.1)
        (is_success (toggle_bus_state chip off p).0) (toggled ⨾ configure-KeepsAside b _) toggled
