-- ===== src/Driver/Receive/Drained.antt =====
-- The bytes that one message takes.
use voodoo_i2c.Driver.Receive.{store_drain}
use voodoo_i2c.Base.Lemmas.{not-pos}
use voodoo_i2c.Base.{ℕ, zero, suc, ◌≡◌, refl, true, false, List, [], ◌∷◌, ◌++◌, ltb, arith}
use voodoo_i2c.Base.Bits.{test_bit, set_bit, clear_bit}
use voodoo_i2c.Base.Words.{u32}
use voodoo_i2c.Registers.{Chip, Port, read_register}
use voodoo_i2c.Registers.Laws.{IsMapped, read_mapped, read_IsMapped}
use voodoo_i2c.Driver.Constants.{dw_ic_data_cmd, dw_ic_rxflr, i2c_m_rd, read_in_progress}
use voodoo_i2c.Driver.Types.{Message, BusDevice, Driver}
use voodoo_i2c.Driver.Receive.{Drain, read_byte, drain, next_read, buffer_at, drain_loop, length_at}
use voodoo_i2c.Driver.Receive.Slots.{
  received, addresses, slots_of, slots_left, Rx, Moves, Moves-refl, Moves-trans,
}

abbrev pub rx_drain : List ℕ → ℕ × Drain → Rx
rx_drain later r = record {
  left = addresses r.1.buffer r.0 ++ later;
  bytes = received r.1.port.trace;
  memory = r.1.memory;
  outstanding = r.1.receive_outstanding;
}

read_byte-Moves :
    (chip : Chip) (n : ℕ) (s : Drain) (later : List ℕ) {base : ℕ}
    → IsMapped s.port base
    → Moves (rx_drain later (suc n, s)) (rx_drain later (n, read_byte chip s))
read_byte-Moves chip n s later m = record {
  used = s.buffer ∷ [];
  came = u32 (chip s.port.trace dw_ic_data_cmd) ∷ [];
  slots_split = refl;
  bytes_grow = rw (read_mapped m chip dw_ic_data_cmd) refl;
  one_each = refl;
  stored = rw (read_mapped m chip dw_ic_data_cmd) refl;
  counted = refl;
}

drain-Moves :
    (chip : Chip) (n v : ℕ) (s : Drain) (later : List ℕ) {base : ℕ}
    → IsMapped s.port base
    → Moves (rx_drain later (n, s)) (rx_drain later (drain chip n v s))
unfolding drain
drain-Moves chip zero v s later m = Moves-refl _
drain-Moves chip (suc n) zero s later m = Moves-refl _
drain-Moves chip (suc n) (suc v) s later m =
    Moves-trans (read_byte-Moves chip n s later m)
      (drain-Moves chip n v (read_byte chip s) later (read_IsMapped m chip dw_ic_data_cmd))

drain-IsMapped :
    (chip : Chip) (n v : ℕ) (s : Drain) {base : ℕ}
    → IsMapped s.port base
    → IsMapped (drain chip n v s).1.port base
unfolding drain
drain-IsMapped chip zero v s m = m
drain-IsMapped chip (suc n) zero s m = m
drain-IsMapped chip (suc n) (suc v) s m =
    drain-IsMapped chip n v (read_byte chip s) (read_IsMapped m chip dw_ic_data_cmd)

-- The receiving side of the driver, with the messages from the index on.
abbrev pub rx_of : Driver → List Message → Rx
rx_of d ms = record {
  left = slots_left d.bus_device ms;
  bytes = received d.port.trace;
  memory = d.memory;
  outstanding = d.bus_device.receive_outstanding;
}

received-read :
    (chip : Chip) {p : Port} {base : ℕ}
    → IsMapped p base
    → received (read_register chip dw_ic_rxflr p).1.trace ≡ received p.trace
received-read chip m = rw (read_mapped m chip dw_ic_rxflr)

pub drain_loop-IsMapped :
    (chip : Chip) (m : Message) (d : Driver) {base : ℕ}
    → IsMapped d.port base
    → IsMapped (drain_loop chip m d).1.port base
unfolding drain_loop
drain_loop-IsMapped chip m d mp = drain-IsMapped chip _ _ _ (read_IsMapped mp chip dw_ic_rxflr)

-- The slots of a message that reads, and those behind it.
slots_left-read :
    (b : BusDevice) (m : Message) (ms : List Message)
    → test_bit m.flags i2c_m_rd ≡ true
    → slots_left b (m ∷ ms) ≡ addresses (buffer_at m b) (length_at m b) ++ slots_of ms
slots_left-read b m ms takes = ground arith

pub slots_left-skip :
    (b : BusDevice) (m : Message) (ms : List Message)
    → test_bit m.flags i2c_m_rd ≡ false
    → slots_left b (m ∷ ms) ≡ slots_left b ms
slots_left-skip b m ms skips = ground arith

pub drain_loop-Moves :
    (chip : Chip) (m : Message) (ms : List Message) (d : Driver) {base : ℕ}
    → IsMapped d.port base
    → test_bit m.flags i2c_m_rd ≡ true
    → Moves (rx_of d (m ∷ ms)) (rx_drain (slots_of ms) (drain_loop chip m d))
unfolding drain_loop
drain_loop-Moves chip m ms d mp takes =
    rw (slots_left-read d.bus_device m ms takes, ← received-read chip mp)
      (drain-Moves chip (length_at m d.bus_device) _ _ (slots_of ms)
        (read_IsMapped mp chip dw_ic_rxflr))

set_bit-test : (status : ℕ) → test_bit (set_bit status read_in_progress) read_in_progress ≡ true
set_bit-test status = ground arith

clear_bit-test :
    (status : ℕ) → test_bit (clear_bit status read_in_progress) read_in_progress ≡ false
clear_bit-test status = ground arith

pub slots_left-stored :
    (m : Message) (ms : List Message) (d : Driver) (r : ℕ × Drain)
    → test_bit m.flags i2c_m_rd ≡ true
    → ltb 0 r.0 ≡ true
    → slots_left (store_drain d r).bus_device (m ∷ ms) ≡ addresses r.1.buffer r.0 ++ slots_of ms
slots_left-stored m ms d r takes more =
    rw (more, takes) (rw (set_bit-test d.bus_device.status) refl)

pub slots_left-done :
    (ms : List Message) (d : Driver) (r : ℕ × Drain)
    → ltb 0 r.0 ≡ false
    → slots_left (next_read (store_drain d r)).bus_device ms
      ≡ addresses r.1.buffer r.0 ++ slots_of ms
slots_left-done ms d r done =
    rw (done, not-pos r.0 done) (rw (clear_bit-test d.bus_device.status) refl)
