-- ===== src/Driver/Interrupt/Outcome.antt =====
-- What an interrupt does, by the state and the status that it meets.
use voodoo_i2c.Base.{
  not, ◌||◌, ℕ, ◌≡◌, refl, Bool, true, false, arith, Bool-cases, inl, inr, if_both, ◌≢◌,
}
use voodoo_i2c.Base.Bits.{test_bit}
use voodoo_i2c.Base.Int.{ℤ, pos, negsuc}
use voodoo_i2c.Registers.{Chip}
use voodoo_i2c.Driver.Constants.{tx_abrt, dw_ic_enable, dw_ic_raw_intr_stat, stop_det}
use voodoo_i2c.Driver.Types.{BusDevice, Driver}
use voodoo_i2c.Driver.Interrupt.{
  is_zero, read_clear_interrupt_bits, abort_transfer, serve, wakeup, dispatch, is_spurious,
  is_complete, handle_awake, handle_interrupt, read_register,
}

eq_zero : (a : ℤ) → is_zero a ≡ true → a ≡ pos 0
eq_zero (pos n) h = ground arith
eq_zero (negsuc n) h = cc

wakeup-not :
    (chip : Chip) (status : ℕ) (d : Driver)
    → is_complete status d.bus_device ≡ false
    → (wakeup chip status d).0 ≢ true
unfolding wakeup
wakeup-not chip status d e h = ground arith

wakeup-woken :
    (chip : Chip) (status : ℕ) (d : Driver)
    → (wakeup chip status d).0 ≡ true
    → ((wakeup chip status d).1 ≡ d) × (is_complete status d.bus_device ≡ true)
unfolding wakeup
wakeup-woken chip status d h = elim (Bool-cases (is_complete status d.bus_device)) [
  | inl e ↦ rw e (refl, refl)
  | inr e ↦ absurd (wakeup-not chip status d e h)
]

complete-zero :
    (status : ℕ) (b : BusDevice)
    → is_complete status b ≡ true
    → is_zero b.receive_outstanding ≡ true
unfolding is_complete
complete-zero status b h = ground arith

-- `d` stands for the state in which the caller is woken.
record Woken (status : ℕ) (d : Driver) : Type 0 where
  pub none_outstanding : d.bus_device.receive_outstanding ≡ pos 0
  pub complete : is_complete status d.bus_device ≡ true

wakeup-Woken :
    (chip : Chip) (status : ℕ) (d : Driver)
    → (wakeup chip status d).0 ≡ true
    → Woken status (wakeup chip status d).1
wakeup-Woken chip status d h =
    let w = wakeup-woken chip status d h in
    rw w.0 (record {
      none_outstanding = eq_zero _ (complete-zero status d.bus_device w.1);
      complete = w.1;
    })

dispatch-Woken :
    (chip : Chip) (d : Driver)
    → (dispatch chip d).0 ≡ true
    → Woken (read_clear_interrupt_bits chip d).0 (dispatch chip d).1
unfolding dispatch
dispatch-Woken chip d =
    let read = read_clear_interrupt_bits chip d in
    if_both {A = Bool × Driver} (λ r. r.0 ≡ true → Woken read.0 r.1) (test_bit read.0 tx_abrt)
      (λ h. wakeup-Woken chip read.0 (abort_transfer read.1) h)
      (λ h. wakeup-Woken chip read.0 (serve chip read.0 read.1) h)

-- The status that the handler acts on: the one read behind DW_IC_ENABLE and the raw status.
abbrev pub status_read : Chip → Driver → ℕ
status_read chip d =
    let (enabled, port₁) = read_register chip dw_ic_enable d.port in
    let (status, port₂) = read_register chip dw_ic_raw_intr_stat port₁ in
    (read_clear_interrupt_bits chip (record d { line_enabled = false; port = port₂ })).0

-- An abort, a stop, or a message that cannot be sent.
abbrev pub has_reason : ℕ → BusDevice → Bool
has_reason status b =
    test_bit status tx_abrt || test_bit status stop_det || not (is_zero b.message_error)

complete-reason :
    (status : ℕ) (b : BusDevice) → is_complete status b ≡ true → has_reason status b ≡ true
unfolding is_complete
complete-reason status b h = ground arith

handle_awake-Woken :
    (chip : Chip) (d : Driver)
    → (handle_awake chip (record d { line_enabled = false })).0 ≡ true
    → Woken (status_read chip d) (handle_awake chip (record d { line_enabled = false })).1
unfolding handle_awake
handle_awake-Woken chip d =
    if_both {A = Bool × Driver} (λ r. r.0 ≡ true → Woken (status_read chip d) r.1) (is_spurious _ _)
      (λ h. cc) (λ h. dispatch-Woken chip _ h)

-- The handler wakes the sleeping caller only in a state with no byte outstanding, and only for an
-- abort or a stop in the status that it read, or for a message that cannot be sent.
pub handle_interrupt-woken :
    (chip : Chip) (d : Driver)
    → (handle_interrupt chip d).0 ≡ true
    → let b = (handle_interrupt chip d).1.bus_device in
      (b.receive_outstanding ≡ pos 0) × (has_reason (status_read chip d) b ≡ true)
unfolding handle_interrupt
handle_interrupt-woken chip d h =
    let masked = record d { line_enabled = false } in
    let kept =
      if_both {A = Bool × Driver} (λ r. r.0 ≡ true → Woken (status_read chip d) r.1)
        d.bus_device.awake (handle_awake-Woken chip d) (λ e. cc) h in
    (kept.none_outstanding, complete-reason _ _ kept.complete)
