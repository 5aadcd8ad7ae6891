-- ===== src/Driver/Interrupt/Aside.antt =====
-- The accesses of the interrupt handler beside the command register.
use voodoo_i2c.Base.{
  ℕ, ◌≡◌, refl, ◌∙◌, Bool, true, false, ◌==◌, Option, none, some, ◌∷◌, if_both, if◌then◌else◌,
}
use voodoo_i2c.Base.Bits.{test_bit}
use voodoo_i2c.Base.State.{Cmd}
use voodoo_i2c.Base.Words.{u32}
use voodoo_i2c.Registers.{Chip, Port, reads, writes, read_register, write_register}
use voodoo_i2c.Driver.Constants.{
  dw_ic_data_cmd, dw_ic_intr_mask, dw_ic_tx_abrt_source, dw_ic_clr_tx_abrt, tx_abrt,
  dw_ic_intr_stat, dw_ic_clr_rx_under, dw_ic_clr_rx_over, dw_ic_clr_tx_over, dw_ic_clr_rd_req,
  dw_ic_clr_rx_done, dw_ic_clr_activity, dw_ic_clr_stop_det, dw_ic_clr_start_det,
  dw_ic_clr_gen_call,
}
use voodoo_i2c.Driver.Types.{BusDevice}
use voodoo_i2c.Driver.Transmit.Words.{sent}
use voodoo_i2c.Driver.Receive.Slots.{received}
use voodoo_i2c.Driver.Interrupt.{clear_if, read_abort, read_clear_bits, retrigger}

-- Nothing was sent or received, and the window is as it was.
pub record IsAside (p q : Port) : Type 0 where
  pub words : sent q.trace ≡ sent p.trace
  pub bytes : received q.trace ≡ received p.trace
  pub window : q.mmap ≡ p.mmap

pub IsAside-refl : (p : Port) → IsAside p p
IsAside-refl p = record { words = refl; bytes = refl; window = refl }

infixl 5 ◌⨾◌
pub ◌⨾◌ : {p q r : Port} → IsAside p q → IsAside q r → IsAside p r
a ⨾ b = record {
  words = b.words ∙ a.words;
  bytes = b.bytes ∙ a.bytes;
  window = b.window ∙ a.window;
}

abbrev pub KeepsAside : {A : Type 0} → Cmd Port A → Type 0
KeepsAside m = (p : Port) → IsAside p (m p).1

pub read_register-KeepsAside :
    (chip : Chip) (offset : ℕ)
    → (offset == dw_ic_data_cmd) ≡ false
    → KeepsAside (read_register chip offset)
unfolding read_register
read_register-KeepsAside chip offset ne p = by_window p.mmap
  where
    came : Port
    came = record p { trace = reads offset (u32 (chip p.trace offset)) ∷ p.trace }

    outcome : Option ℕ → ℕ × Port
    outcome none = (0, p)
    outcome (some a) = if a == 0 then (0, p) else (u32 (chip p.trace offset), came)

    by_window : (o : Option ℕ) → IsAside p (outcome o).1
    by_window none = IsAside-refl p
    by_window (some a) =
        if_both {A = ℕ × Port} (λ r. IsAside p r.1) (a == 0) (IsAside-refl p)
          (record { words = refl; bytes = rw (ne) refl; window = refl })

pub write_register-KeepsAside :
    (value offset : ℕ)
    → (offset == dw_ic_data_cmd) ≡ false
    → KeepsAside (write_register value offset)
unfolding write_register
write_register-KeepsAside value offset ne p = by_window p.mmap
  where
    went : Port
    went = record p { trace = writes offset (u32 value) ∷ p.trace }

    outcome : Option ℕ → Unit {0} × Port
    outcome none = (tt, p)
    outcome (some a) = if a == 0 then (tt, p) else (tt, went)

    by_window : (o : Option ℕ) → IsAside p (outcome o).1
    by_window none = IsAside-refl p
    by_window (some a) =
        if_both {A = Unit {0} × Port} (λ r. IsAside p r.1) (a == 0) (IsAside-refl p)
          (record { words = rw (ne) refl; bytes = refl; window = refl })

clear_if-KeepsAside :
    (chip : Chip) (test : Bool) (offset : ℕ)
    → (offset == dw_ic_data_cmd) ≡ false
    → KeepsAside (clear_if chip test offset)
unfolding clear_if
clear_if-KeepsAside chip true offset ne p = read_register-KeepsAside chip offset ne p
clear_if-KeepsAside chip false offset ne p = IsAside-refl p

read_abort-KeepsAside : (chip : Chip) (stat source : ℕ) → KeepsAside (read_abort chip stat source)
unfolding read_abort
read_abort-KeepsAside chip stat source p =
    if_both {A = Cmd Port ℕ} (λ m. IsAside p (m p).1) (test_bit stat tx_abrt)
      (read_register-KeepsAside chip dw_ic_tx_abrt_source refl p
        ⨾ read_register-KeepsAside chip dw_ic_clr_tx_abrt refl _)
      (IsAside-refl p)

pub retrigger-KeepsAside : (chip : Chip) → KeepsAside (retrigger chip)
unfolding retrigger
retrigger-KeepsAside chip p =
    read_register-KeepsAside chip dw_ic_intr_mask refl p
    ⨾ write_register-KeepsAside 0 dw_ic_intr_mask refl _
    ⨾ write_register-KeepsAside _ dw_ic_intr_mask refl _

pub read_clear_bits-KeepsAside : (chip : Chip) (b : BusDevice) → KeepsAside (read_clear_bits chip b)
unfolding read_clear_bits
read_clear_bits-KeepsAside chip b p =
    read_register-KeepsAside chip dw_ic_intr_stat refl p
    ⨾ clear_if-KeepsAside chip _ dw_ic_clr_rx_under refl _
    ⨾ clear_if-KeepsAside chip _ dw_ic_clr_rx_over refl _
    ⨾ clear_if-KeepsAside chip _ dw_ic_clr_tx_over refl _
    ⨾ clear_if-KeepsAside chip _ dw_ic_clr_rd_req refl _
    ⨾ read_abort-KeepsAside chip _ b.abort_source _
    ⨾ clear_if-KeepsAside chip _ dw_ic_clr_rx_done refl _
    ⨾ clear_if-KeepsAside chip _ dw_ic_clr_activity refl _
    ⨾ clear_if-KeepsAside chip _ dw_ic_clr_stop_det refl _
    ⨾ clear_if-KeepsAside chip _ dw_ic_clr_start_det refl _
    ⨾ clear_if-KeepsAside chip _ dw_ic_clr_gen_call refl _
