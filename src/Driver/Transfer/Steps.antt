-- ===== src/Driver/Transfer/Steps.antt =====
-- Each step of a transfer keeps both sides, where no error is noted behind it.

use voodoo_i2c.Base.{
  ℕ, zero, suc, ◌≡◌, refl, Bool, ◌&&◌, List, [], ◌∷◌, if_both, arith, if◌then◌else◌, ◌==◌,
}
use voodoo_i2c.Base.Bits.{test_bit, set_bit, clear_bit}
use voodoo_i2c.Base.State.{Cmd}
use voodoo_i2c.Registers.{Chip, Port, read_register}
use voodoo_i2c.Registers.Laws.{IsMapped}
use voodoo_i2c.Driver.Constants.{
  i2c_m_ten, dw_ic_tar, dw_ic_con, dw_ic_enable_status, con_10bitaddr_master,
}
use voodoo_i2c.Driver.Types.{IoReturn, success, BusState, Message, BusDevice, Driver}
use voodoo_i2c.Driver.Bus.Aside.{
  toggle_bus_state-KeepsAside, toggle_interrupts-KeepsAside, initialise_bus-KeepsAside,
}
use voodoo_i2c.Driver.Interrupt.Aside.{
  IsAside, ◌⨾◌, KeepsAside, read_register-KeepsAside, write_register-KeepsAside,
}
use voodoo_i2c.Driver.Interrupt.Joined.{IsApart, Joined, Joined-refl, Joined-trans}
use voodoo_i2c.Driver.Interrupt.Whole.{handle_interrupt-IsClean, handle_interrupt-error_before}
use voodoo_i2c.Driver.Interrupt.Beside.{beside-Joined, same_write, same_read}
use voodoo_i2c.Driver.Transfer.{
  Event, interrupt, signal, Sleep, deliver, deliver_early, command_sleep, set_address_mode, quiesce,
  request_message, request_port, transfer_result, finish_transfer,
}

pub port_only :
    (d : Driver) (p : Port)
    → IsAside d.port p
    → IsApart d.bus_device
    → Joined d (record d { port = p })
port_only d p aside apart =
    beside-Joined
      (record {
        port = aside;
        write = same_write d.bus_device;
        read = same_read d.bus_device;
        memory = refl;
      })
      apart

module _ (chip : Chip) where
  pub set_address_mode-KeepsAside : (ten : Bool) → KeepsAside (set_address_mode chip ten)
  unfolding set_address_mode
  set_address_mode-KeepsAside ten p =
      let (orig, q) = read_register chip dw_ic_con p in
      let configuration =
        if ten then set_bit orig con_10bitaddr_master else clear_bit orig con_10bitaddr_master in
      let once = read_register-KeepsAside chip dw_ic_con refl p in
      if_both {A = Cmd Port (Unit {0})} (λ m. IsAside p (m q).1) (configuration == orig) once
        (once ⨾ write_register-KeepsAside configuration dw_ic_con refl q)

  pub quiesce-KeepsAside : (b : BusDevice) → KeepsAside (quiesce chip b)
  unfolding quiesce
  quiesce-KeepsAside b p =
      if_both {A = Cmd Port IoReturn} (λ m. IsAside p (m p).1) b.access_intr_mask_workaround
        (initialise_bus-KeepsAside chip b p) (toggle_bus_state-KeepsAside chip BusState.off p)

  request_message-KeepsAside : (b : BusDevice) (m : Message) → KeepsAside (request_message chip b m)
  unfolding request_message
  request_message-KeepsAside b m p =
      quiesce-KeepsAside b p
      ⨾ set_address_mode-KeepsAside (test_bit m.flags i2c_m_ten) _
      ⨾ write_register-KeepsAside _ dw_ic_tar refl _
      ⨾ toggle_interrupts-KeepsAside chip BusState.off _
      ⨾ toggle_bus_state-KeepsAside chip BusState.on _
      ⨾ read_register-KeepsAside chip dw_ic_enable_status refl _
      ⨾ toggle_interrupts-KeepsAside chip BusState.on _

  pub request_port-IsAside :
      (d : Driver) (ms : List Message) → IsAside d.port (request_port chip d ms)
  unfolding request_port
  request_port-IsAside d [] = request_message-KeepsAside d.bus_device d.behind_messages d.port
  request_port-IsAside d (m ∷ ms) = request_message-KeepsAside d.bus_device m d.port

  abbrev pub error_of : Driver → ℕ
  error_of d = d.bus_device.command_error

  deliver-error_before : (d : Driver) → error_of (deliver chip d).1 ≡ 0 → error_of d ≡ 0
  unfolding deliver
  deliver-error_before d =
      if_both {A = Bool × Driver} (λ r. error_of r.1 ≡ 0 → error_of d ≡ 0)
        (d.is_interrupt_registered && d.line_enabled) (handle_interrupt-error_before chip d)
        (λ h. h)

  deliver-Joined :
      (d : Driver) {base : ℕ}
      → IsMapped d.port base
      → IsApart d.bus_device
      → error_of (deliver chip d).1 ≡ 0
      → Joined d (deliver chip d).1
  unfolding deliver
  deliver-Joined d mp apart =
      if_both {A = Bool × Driver} (λ r. error_of r.1 ≡ 0 → Joined d r.1)
        (d.is_interrupt_registered && d.line_enabled)
        (λ h. (handle_interrupt-IsClean chip d mp apart h).1) (λ h. Joined-refl d apart)

  pub early-error_before :
      (n : ℕ) (d : Driver) → error_of (deliver_early chip n d) ≡ 0 → error_of d ≡ 0
  unfolding deliver_early
  early-error_before zero d h = h
  early-error_before (suc n) d h =
      deliver-error_before d (early-error_before n (deliver chip d).1 h)

  pub early-Joined :
      (n : ℕ) (d : Driver) {base : ℕ}
      → IsMapped d.port base
      → IsApart d.bus_device
      → error_of (deliver_early chip n d) ≡ 0
      → Joined d (deliver_early chip n d)
  unfolding deliver_early
  early-Joined zero d mp apart h = Joined-refl d apart
  early-Joined (suc n) d {base} mp apart h =
      let one = deliver-Joined d mp apart (early-error_before n (deliver chip d).1 h) in
      Joined-trans one (early-Joined n (deliver chip d).1 (one.window base mp) one.apart h)

  pub sleep-error_before :
      (es : List Event) (d : Driver) → error_of (command_sleep chip es d).1 ≡ 0 → error_of d ≡ 0
  unfolding command_sleep
  sleep-error_before [] d h = h
  sleep-error_before (signal ∷ es) d h = h
  sleep-error_before (interrupt ∷ es) d h =
      if_both {A = Sleep × Driver} (λ r. error_of r.1 ≡ 0 → error_of d ≡ 0) (deliver chip d).0
        (deliver-error_before d)
        (λ k. deliver-error_before d (sleep-error_before es (deliver chip d).1 k)) h

  pub sleep-Joined :
      (es : List Event) (d : Driver) {base : ℕ}
      → IsMapped d.port base
      → IsApart d.bus_device
      → error_of (command_sleep chip es d).1 ≡ 0
      → Joined d (command_sleep chip es d).1
  unfolding command_sleep
  sleep-Joined [] d mp apart h = Joined-refl d apart
  sleep-Joined (signal ∷ es) d mp apart h = Joined-refl d apart
  sleep-Joined (interrupt ∷ es) d {base} mp apart h =
      if_both {A = Sleep × Driver} (λ r. error_of r.1 ≡ 0 → Joined d r.1) (deliver chip d).0
        (deliver-Joined d mp apart)
        (λ k.
          let one = deliver-Joined d mp apart (sleep-error_before es (deliver chip d).1 k) in
          Joined-trans one (sleep-Joined es (deliver chip d).1 (one.window base mp) one.apart k))
        h

  no_error : (b : BusDevice) → transfer_result b ≡ success → b.command_error ≡ 0
  unfolding transfer_result
  no_error b h = ground arith

  pub finish-no_error :
      (slept : Sleep) (d : Driver) → (finish_transfer chip slept d).0 ≡ success → error_of d ≡ 0
  unfolding finish_transfer
  finish-no_error Sleep.timed_out d h = cc
  finish-no_error Sleep.awakened d h = no_error d.bus_device h
  finish-no_error Sleep.interrupted d h = no_error d.bus_device h

  pub finish-Joined :
      (slept : Sleep) (d : Driver)
      → IsApart d.bus_device
      → Joined d (finish_transfer chip slept d).1
  unfolding finish_transfer
  finish-Joined Sleep.timed_out d apart =
      port_only d _ (initialise_bus-KeepsAside chip d.bus_device d.port) apart
  finish-Joined Sleep.awakened d apart =
      port_only d _ (toggle_bus_state-KeepsAside chip BusState.off d.port) apart
  finish-Joined Sleep.interrupted d apart =
      port_only d _ (toggle_bus_state-KeepsAside chip BusState.off d.port) apart
