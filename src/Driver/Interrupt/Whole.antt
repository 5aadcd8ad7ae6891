-- ===== src/Driver/Interrupt/Whole.antt =====
-- Any number of interrupts: the bytes of a transfer in both directions.

use voodoo_i2c.Base.{
  inl, inr, ℕ, ◌≡◌, refl, sym, ◌∙◌, Bool, true, false, if_both, if◌then◌else◌, Bool-cases, ◌≢◌,
  arith,
}
use voodoo_i2c.Base.Bits.{test_bit, set_bit}
use voodoo_i2c.Driver.Receive.Frame.{read_from_bus-Untouched}
use voodoo_i2c.Driver.Transmit.Frame.{transfer_message_to_bus-Untouched}
use voodoo_i2c.Registers.{Port, Chip, read_register}
use voodoo_i2c.Registers.Laws.{IsMapped}
use voodoo_i2c.Driver.Constants.{tx_abrt, dw_ic_enable, dw_ic_raw_intr_stat, rx_full, tx_empty}
use voodoo_i2c.Driver.Types.{Driver}
use voodoo_i2c.Driver.Interrupt.{
  read_clear_interrupt_bits, serve, wakeup, dispatch, is_spurious, is_complete, handle_awake,
  handle_interrupt, abort_transfer, read_from_bus,
}
use voodoo_i2c.Driver.Interrupt.Aside.{
  IsAside, IsAside-refl, ◌⨾◌, read_register-KeepsAside, read_clear_bits-KeepsAside,
  retrigger-KeepsAside,
}
use voodoo_i2c.Driver.Interrupt.Beside.{beside-Joined, same_write, same_read}
use voodoo_i2c.Driver.Interrupt.Joined.{IsApart, Joined, Joined-refl, Joined-trans, serve-Joined}

module _ (chip : Chip) where
  clear-Joined : (d : Driver) → IsApart d.bus_device → Joined d (read_clear_interrupt_bits chip d).1
  unfolding read_clear_interrupt_bits
  clear-Joined d apart =
      beside-Joined
        (record {
          port = read_clear_bits-KeepsAside chip d.bus_device d.port;
          write = record {
            writing = refl;
            index = refl;
            buffer = refl;
            buffer_length = refl;
            messages = refl;
            number = refl;
            config = refl;
          };
          read = record {
            reading = refl;
            index = refl;
            buffer = refl;
            buffer_length = refl;
            messages = refl;
          };
          memory = refl;
        })
        apart

  wakeup-Joined :
      (status : ℕ) (d : Driver) → IsApart d.bus_device → Joined d (wakeup chip status d).1
  unfolding wakeup
  wakeup-Joined status d apart =
      if_both {A = Bool × Driver} (λ r. Joined d r.1) (is_complete status d.bus_device)
        (Joined-refl d apart)
        (if_both {A = Bool × Driver} (λ r. Joined d r.1) d.bus_device.access_intr_mask_workaround
          (beside-Joined
            (record {
              port = retrigger-KeepsAside chip d.port;
              write = same_write d.bus_device;
              read = same_read d.bus_device;
              memory = refl;
            })
            apart)
          (Joined-refl d apart))

  dispatch-Joined :
      (d : Driver) {base : ℕ}
      → IsMapped d.port base
      → IsApart d.bus_device
      → test_bit (read_clear_interrupt_bits chip d).0 tx_abrt ≡ false
      → Joined d (dispatch chip d).1
  unfolding dispatch
  dispatch-Joined d {base} mp apart goes_on =
      let (status, d₁) = read_clear_interrupt_bits chip d in
      let cleared = clear-Joined d apart in
      let served = serve-Joined chip d₁ status (cleared.window base mp) cleared.apart in
      rw (goes_on) (
        Joined-trans cleared
          (Joined-trans served (wakeup-Joined status (serve chip status d₁) served.apart)))

  error_of : Driver → ℕ
  error_of d = d.bus_device.command_error

  wakeup-error : (status : ℕ) (d : Driver) → error_of (wakeup chip status d).1 ≡ error_of d
  unfolding wakeup error_of
  wakeup-error status d =
      if_both {A = Bool × Driver} (λ r. error_of r.1 ≡ error_of d) (is_complete status d.bus_device)
        refl
        (if_both {A = Bool × Driver} (λ r. error_of r.1 ≡ error_of d)
          d.bus_device.access_intr_mask_workaround refl refl)

  serve-error : (status : ℕ) (d : Driver) → error_of (serve chip status d) ≡ error_of d
  unfolding serve error_of
  serve-error status d =
      let received = if test_bit status rx_full then read_from_bus chip d else d in
      let first =
        if_both {A = Driver} (λ e. error_of e ≡ error_of d) (test_bit status rx_full)
          (read_from_bus-Untouched chip d).device.command_error refl in
      if_both {A = Driver} (λ e. error_of e ≡ error_of d) (test_bit status tx_empty)
        ((transfer_message_to_bus-Untouched chip received).device.command_error ∙ first) first

  set_bit-nonzero : (n : ℕ) → set_bit n 0 ≢ 0
  set_bit-nonzero n h = ground arith

  abort-error : (d : Driver) → error_of (abort_transfer d) ≢ 0
  unfolding abort_transfer error_of
  abort-error d h = set_bit-nonzero d.bus_device.command_error h

  -- Without an error noted behind it, an interrupt has met no abort and kept both sides.
  abbrev IsClean : Driver → Driver → Type 0
  IsClean d e = error_of e ≡ 0 → (error_of d ≡ 0) × Joined d e

  dispatch-aborted :
      (d : Driver)
      → test_bit (read_clear_interrupt_bits chip d).0 tx_abrt ≡ true
      → error_of (dispatch chip d).1 ≢ 0
  unfolding dispatch
  dispatch-aborted d aborted =
      let (status, d₁) = read_clear_interrupt_bits chip d in
      rw (aborted) (λ h. abort-error d₁ (sym (wakeup-error status (abort_transfer d₁)) ∙ h))

  dispatch-error :
      (d : Driver)
      → test_bit (read_clear_interrupt_bits chip d).0 tx_abrt ≡ false
      → error_of (dispatch chip d).1 ≡ error_of (read_clear_interrupt_bits chip d).1
  unfolding dispatch
  dispatch-error d goes_on =
      let (status, d₁) = read_clear_interrupt_bits chip d in
      rw (goes_on) (wakeup-error status (serve chip status d₁) ∙ serve-error status d₁)

  clear-error : (d : Driver) → error_of (read_clear_interrupt_bits chip d).1 ≡ error_of d
  unfolding read_clear_interrupt_bits error_of
  clear-error d = refl

  dispatch-IsClean :
      (d : Driver) {base : ℕ}
      → IsMapped d.port base
      → IsApart d.bus_device
      → IsClean d (dispatch chip d).1
  dispatch-IsClean d mp apart no_error =
      elim (Bool-cases (test_bit (read_clear_interrupt_bits chip d).0 tx_abrt)) [
        | inl aborted ↦ absurd (dispatch-aborted d aborted no_error)
        | inr goes_on ↦ (
          sym (dispatch-error d goes_on ∙ clear-error d) ∙ no_error,
          dispatch-Joined d mp apart goes_on,
        )
      ]

  -- A driver of which only the line and the port, by accesses beside the command register, change.
  moved :
      (d : Driver) (p : Port) (line : Bool)
      → IsAside d.port p
      → IsApart d.bus_device
      → Joined d (record d { line_enabled = line; port = p })
  moved d p line aside apart =
      beside-Joined
        (record {
          port = aside;
          write = same_write d.bus_device;
          read = same_read d.bus_device;
          memory = refl;
        })
        apart

  handle_awake-IsClean :
      (d : Driver) {base : ℕ}
      → IsMapped d.port base
      → IsApart d.bus_device
      → IsClean d (handle_awake chip d).1
  unfolding handle_awake error_of
  handle_awake-IsClean d {base} mp apart =
      let (enabled, port₁) = read_register chip dw_ic_enable d.port in
      let (status, port₂) = read_register chip dw_ic_raw_intr_stat port₁ in
      let read = record d { port = port₂ } in
      let first =
        moved d port₂ d.line_enabled
          (read_register-KeepsAside chip dw_ic_enable refl d.port
            ⨾ read_register-KeepsAside chip dw_ic_raw_intr_stat refl port₁)
          apart in
      if_both {A = Bool × Driver} (λ r. IsClean d r.1) (is_spurious enabled status)
        {yes = (false, read)} {no = dispatch chip read} (λ no_error. (no_error, first))
        (λ no_error.
          let (none_before, rest) =
            dispatch-IsClean read (first.window base mp) first.apart no_error in
          (none_before, Joined-trans first rest))

  -- An interrupt behind which no error is noted has met none, and has kept both sides.
  pub handle_interrupt-IsClean :
      (d : Driver) {base : ℕ}
      → IsMapped d.port base
      → IsApart d.bus_device
      → (handle_interrupt chip d).1.bus_device.command_error ≡ 0
      → (d.bus_device.command_error ≡ 0) × Joined d (handle_interrupt chip d).1
  unfolding handle_interrupt error_of
  handle_interrupt-IsClean d {base} mp apart no_error =
      let masked = record d { line_enabled = false } in
      let first = moved d d.port false (IsAside-refl d.port) apart in
      let handled = if d.bus_device.awake then handle_awake chip masked else (false, masked) in
      let (none_before, kept) =
        if_both {A = Bool × Driver} (λ r. IsClean masked r.1) d.bus_device.awake
          (handle_awake-IsClean masked mp first.apart) (λ h. (h, Joined-refl masked first.apart))
          no_error in
      (
        none_before,
        Joined-trans (Joined-trans first kept)
            (moved handled.1 handled.1.port true (IsAside-refl handled.1.port) kept.apart),
      )

  -- An error is never taken back: with none noted behind an interrupt there was none before it.
  dispatch-error_before : (d : Driver) → error_of (dispatch chip d).1 ≡ 0 → error_of d ≡ 0
  dispatch-error_before d h =
      elim (Bool-cases (test_bit (read_clear_interrupt_bits chip d).0 tx_abrt)) [
        | inl aborted ↦ absurd (dispatch-aborted d aborted h)
        | inr goes_on ↦ sym (dispatch-error d goes_on ∙ clear-error d) ∙ h
      ]

  handle_awake-error_before : (d : Driver) → error_of (handle_awake chip d).1 ≡ 0 → error_of d ≡ 0
  unfolding handle_awake error_of
  handle_awake-error_before d =
      if_both {A = Bool × Driver} (λ r. error_of r.1 ≡ 0 → error_of d ≡ 0) (is_spurious _ _)
        (λ h. h) (dispatch-error_before _)

  pub handle_interrupt-error_before :
      (d : Driver)
      → (handle_interrupt chip d).1.bus_device.command_error ≡ 0
      → d.bus_device.command_error ≡ 0
  unfolding handle_interrupt error_of
  handle_interrupt-error_before d =
      let masked = record d { line_enabled = false } in
      if_both {A = Bool × Driver} (λ r. error_of r.1 ≡ 0 → error_of d ≡ 0) d.bus_device.awake
        (handle_awake-error_before masked) (λ h. h)
