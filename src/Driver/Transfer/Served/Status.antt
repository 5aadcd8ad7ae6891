-- ===== src/Driver/Transfer/Served/Status.antt =====
-- The status registers of a block that serves the transfer, and what the handler makes of them.
use voodoo_i2c.Base.{ℕ, ◌≡◌, refl, ap, ◌∙◌, Bool, true, false, ◌&&◌, ◌==◌, if◌then◌else◌, arith}
use voodoo_i2c.Base.Words.{u32}
use voodoo_i2c.Base.Int.{pos}
use voodoo_i2c.Registers.{Chip, Port, read_register}
use voodoo_i2c.Registers.Laws.{IsMapped, read_mapped}
use voodoo_i2c.Driver.Constants.{dw_ic_intr_stat, dw_ic_clr_stop_det}
use voodoo_i2c.Driver.Types.{BusDevice, Driver}
use voodoo_i2c.Driver.Transmit.{transfer_message_to_bus}
use voodoo_i2c.Driver.Interrupt.{
  clear_if, read_abort, read_clear_bits, read_clear_interrupt_bits, serve, is_complete, wakeup,
  dispatch, is_spurious, handle_awake, handle_interrupt,
}
use voodoo_i2c.Driver.Transfer.{deliver}

-- The driver as an interrupt hands it on.
abbrev pub handed : Driver → Port → ℕ → Driver
handed d p source = record d {
  bus_device = record d.bus_device { abort_source = source };
  port = p;
  line_enabled = false;
}

-- The raw status with so many stops.
abbrev pub raw_of : ℕ → ℕ
raw_of n = if n == 0 then 0x10 else 0x210

-- The interrupt reaches the handler of a driver that is awake.
pub deliver-awake :
    (chip : Chip) (d : Driver)
    → d.is_interrupt_registered ≡ true
    → d.line_enabled ≡ true
    → d.bus_device.awake ≡ true
    → deliver chip d ≡ (
        let handled = handle_awake chip (record d { line_enabled = false }) in
        (handled.0, record handled.1 { line_enabled = true }))
unfolding deliver handle_interrupt
deliver-awake chip d registered line awake =
    let masked : Driver = record d { line_enabled = false } in
    ap (λ b. if b then handle_interrupt chip d else (false, d)) ((λ i. registered i && line i))
    ∙ ap
        (λ b.
          let handled : Bool × Driver = if b then handle_awake chip masked else (false, masked) in
          (handled.0, record handled.1 { line_enabled = true }))
        awake

pub raw_not_spurious : (n : ℕ) → is_spurious 1 (raw_of n) ≡ false
unfolding is_spurious
raw_not_spurious n = ground arith

pub raw_u32 : (n : ℕ) → u32 (raw_of n) ≡ raw_of n
raw_u32 n = ground arith

module _ (chip : Chip) where
  pub read_value :
      (offset value : ℕ) {p : Port} {base : ℕ}
      → IsMapped p base
      → chip p.trace offset ≡ value
      → (read_register chip offset p).0 ≡ u32 value
  read_value offset value {p} mp e = ap (λ r. r.0) (read_mapped mp chip offset) ∙ ap u32 e

  -- What the handler does with one of the three statuses.
  pub dispatch-sending :
      (d : Driver)
      → (read_clear_interrupt_bits chip d).0 ≡ 0x10
      → dispatch chip d
        ≡ wakeup chip 0x10 (transfer_message_to_bus chip (read_clear_interrupt_bits chip d).1)
  unfolding dispatch serve
  dispatch-sending d e = rw e refl

  pub dispatch-still :
      (d : Driver) (stopped : Bool)
      → (read_clear_interrupt_bits chip d).0 ≡ (if stopped then 0x200 else 0)
      → dispatch chip d
        ≡ wakeup chip (if stopped then 0x200 else 0) (read_clear_interrupt_bits chip d).1
  unfolding dispatch serve
  dispatch-still d true e = rw e refl
  dispatch-still d false e = rw e refl

  pub wakeup-sending :
      (d : Driver)
      → d.bus_device.message_error ≡ pos 0
      → d.bus_device.access_intr_mask_workaround ≡ false
      → wakeup chip 0x10 d ≡ (false, d)
  unfolding wakeup is_complete
  wakeup-sending d no_error no_workaround = rw (no_error, no_workaround) refl

  -- The caller is woken at the stop.
  pub wakeup-still :
      (d : Driver) (stopped : Bool)
      → d.bus_device.message_error ≡ pos 0
      → d.bus_device.receive_outstanding ≡ pos 0
      → d.bus_device.access_intr_mask_workaround ≡ false
      → wakeup chip (if stopped then 0x200 else 0) d ≡ (stopped, d)
  unfolding wakeup is_complete
  wakeup-still d true no_error outstanding no_workaround = rw (outstanding) refl
  wakeup-still d false no_error outstanding no_workaround = rw (no_error, no_workaround) refl

  -- Which registers the handler clears.
  pub clear-none :
      (b : BusDevice) (p : Port) (sending : Bool)
      → (read_register chip dw_ic_intr_stat p).0 ≡ (if sending then 0x10 else 0)
      → read_clear_bits chip b p
        ≡ ((if sending then 0x10 else 0, b.abort_source), (read_register chip dw_ic_intr_stat p).1)
  unfolding read_clear_bits clear_if read_abort
  clear-none b p true e = rw e refl
  clear-none b p false e = rw e refl

  pub clear-stop :
      (b : BusDevice) (p : Port)
      → (read_register chip dw_ic_intr_stat p).0 ≡ 0x200
      → b.receive_outstanding ≡ pos 0
      → read_clear_bits chip b p ≡ (
        (0x200, b.abort_source),
        (read_register chip dw_ic_clr_stop_det (read_register chip dw_ic_intr_stat p).1).1,
      )
  unfolding read_clear_bits clear_if read_abort
  clear-stop b p e outstanding = rw (e, outstanding) refl
