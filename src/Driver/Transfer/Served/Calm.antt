-- ===== src/Driver/Transfer/Served/Calm.antt =====
-- The transmit handler sends words, and leaves the settings of the block but for the mask.
use voodoo_i2c.Base.{
  ℕ, zero, suc, ◌+◌, ◌≡◌, refl, ◌∙◌, Bool, false, not, ◌||◌, List, [], ◌∷◌, ◌==◌, ltb, if_both,
  arith,
}
use voodoo_i2c.Base.Words.{u32}
use voodoo_i2c.Registers.{Chip, Port, read_register, write_register}
use voodoo_i2c.Registers.Laws.{IsMapped, read_mapped, write_mapped, read_IsMapped, write_IsMapped}
use voodoo_i2c.Driver.Constants.{
  dw_ic_enable, dw_ic_tar, dw_ic_intr_mask, dw_ic_clr_stop_det, dw_ic_clr_intr, dw_ic_data_cmd,
  dw_ic_txflr, dw_ic_rxflr,
}
use voodoo_i2c.Driver.Types.{Message, Driver, Memory}
use voodoo_i2c.Driver.Transmit.{
  Fill, fill_fifo, has_room, may_request, request_byte, send_byte, command_bits, fill_loop,
  fill_start, begin_message, fill_message, send_messages, send_from, next_write,
}
use voodoo_i2c.Driver.Transmit.Words.{sent}
use voodoo_i2c.Driver.Transmit.Begun.{start-IsMapped}
use voodoo_i2c.Driver.Interrupt.Aside.{IsAside}
use voodoo_i2c.Driver.Transfer.Served.{last_write, stops, stops_since}
use voodoo_i2c.Driver.Transfer.Served.Stops.{stops-append}

-- The settings are as they were, and each stop since is a word sent since. The window is as it was.
pub record IsCalm (p q : Port) : Type 0 where
  pub window : q.mmap ≡ p.mmap
  pub enabled : last_write dw_ic_enable q.trace ≡ last_write dw_ic_enable p.trace
  pub target_set : last_write dw_ic_tar q.trace ≡ last_write dw_ic_tar p.trace
  pub mask_set : last_write dw_ic_intr_mask q.trace ≡ last_write dw_ic_intr_mask p.trace
  pub balance :
      stops_since q.trace + stops (sent p.trace) ≡ stops_since p.trace + stops (sent q.trace)

pub IsCalm-refl : (p : Port) → IsCalm p p
IsCalm-refl p = record {
  window = refl;
  enabled = refl;
  target_set = refl;
  mask_set = refl;
  balance = refl;
}

pub IsCalm-trans : {p q r : Port} → IsCalm p q → IsCalm q r → IsCalm p r
IsCalm-trans a b = record {
  window = b.window ∙ a.window;
  enabled = b.enabled ∙ a.enabled;
  target_set = b.target_set ∙ a.target_set;
  mask_set = b.mask_set ∙ a.mask_set;
  balance = omega (arith, a.balance, b.balance);
}

pub calm-IsMapped : {p q : Port} {base : ℕ} → IsMapped p base → IsCalm p q → IsMapped q base
calm-IsMapped m c = record { mapped = c.window ∙ m.mapped; nonzero = m.nonzero }

pub aside-IsMapped : {p q : Port} {base : ℕ} → IsMapped p base → IsAside p q → IsMapped q base
aside-IsMapped m aside = record { mapped = aside.window ∙ m.mapped; nonzero = m.nonzero }

pub read-IsCalm :
    (chip : Chip) (at : ℕ) {p : Port} {base : ℕ}
    → IsMapped p base
    → ((at == dw_ic_clr_stop_det) || (at == dw_ic_clr_intr)) ≡ false
    → IsCalm p (read_register chip at p).1
read-IsCalm chip at {p} m ne = rw (read_mapped m chip at) (record {
  window = refl;
  enabled = refl;
  target_set = refl;
  mask_set = refl;
  balance = rw (ne) refl;
})

data-IsCalm :
    (w : ℕ) {p : Port} {base : ℕ} → IsMapped p base → IsCalm p (write_register w dw_ic_data_cmd p).1
data-IsCalm w {p} m = rw (write_mapped m w dw_ic_data_cmd) (record {
  window = refl;
  enabled = refl;
  target_set = refl;
  mask_set = refl;
  balance = omega (arith, stops-append (sent p.trace) (u32 w ∷ []));
})

fill_fifo-IsCalm :
    (memory : Memory) (last reading : Bool) (n : ℕ) (s : Fill) {base : ℕ}
    → IsMapped s.port base
    → IsCalm s.port (fill_fifo memory last reading n s).1.port
unfolding fill_fifo
fill_fifo-IsCalm memory last reading zero s m = IsCalm-refl s.port
fill_fifo-IsCalm memory last reading (suc n) s m =
    let command = command_bits last (suc n) s.need_restart in
    let calm = λ (r : ℕ × Fill). IsCalm s.port r.1.port in
    if_both {A = ℕ × Fill} calm (has_room s)
      (if_both {A = ℕ × Fill} calm reading
        (if_both {A = ℕ × Fill} calm (may_request s)
          (IsCalm-trans (data-IsCalm _ m) (
            fill_fifo-IsCalm memory last reading n (request_byte command s) (write_IsMapped m _ _)))
          (IsCalm-refl s.port))
        (IsCalm-trans (data-IsCalm _ m) (
          fill_fifo-IsCalm memory last reading n (send_byte memory command s)
            (write_IsMapped m _ _))))
      (IsCalm-refl s.port)

module _ (chip : Chip) where
  one-IsCalm :
      (m : Message) (r : Bool) (d : Driver) {base : ℕ}
      → IsMapped d.port base
      → IsCalm d.port (fill_message chip m (begin_message m r d).1 (begin_message m r d).0).0.port
  unfolding fill_message begin_message fill_loop fill_start
  one-IsCalm m r d mp =
      let (begun, wants) = begin_message m r d in
      let first = read-IsCalm chip dw_ic_txflr mp refl in
      let second = read-IsCalm chip dw_ic_rxflr (read_IsMapped mp chip dw_ic_txflr) refl in
      IsCalm-trans first (
        IsCalm-trans second (
          fill_fifo-IsCalm d.memory _ _ _ (fill_start chip wants begun)
            (start-IsMapped chip wants begun mp)))

  send_messages-IsCalm :
      (address : ℕ) (ms : List Message) (r : Bool) (d : Driver) {base : ℕ}
      → IsMapped d.port base
      → IsCalm d.port (send_messages chip address ms r d).port
  unfolding send_messages
  send_messages-IsCalm address [] r d mp = IsCalm-refl d.port
  send_messages-IsCalm address (m ∷ ms) r d mp =
      let begun = begin_message m r d in
      let filled = fill_message chip m begun.1 begun.0 in
      let once = one-IsCalm m r d mp in
      let calm = λ (e : Driver). IsCalm d.port e.port in
      if_both calm (not (m.address == address) || (m.length == 0)) (IsCalm-refl d.port) (
        if_both calm (ltb 0 filled.0.bus_device.transaction_buffer_length) once (
          IsCalm-trans once (
            send_messages-IsCalm address ms filled.1 (next_write filled.0)
              (calm-IsMapped mp once))))

  pub send_from-IsCalm :
      (ms : List Message) (d : Driver) {base : ℕ}
      → IsMapped d.port base
      → IsCalm d.port (send_from chip ms d).port
  unfolding send_from
  send_from-IsCalm [] d mp = IsCalm-refl d.port
  send_from-IsCalm (m ∷ ms) d mp = send_messages-IsCalm m.address (m ∷ ms) false d mp
