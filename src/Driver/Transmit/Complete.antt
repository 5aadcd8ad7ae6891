-- ===== src/Driver/Transmit/Complete.antt =====
-- A call of the transmit handler gets on with the messages that are left.
use voodoo_i2c.Base.{
  ℕ, ◌+◌, ◌-◌, ◌≤◌, ◌<◌, ◌^◌, ◌≡◌, refl, sym, ◌∙◌, subst, Bool, true, false, List, [], ◌∷◌, ltb,
  if◌then◌else◌, drop, Bool-cases, inl, inr, arith, length,
}
use mathlib.Core.Bool.{false≢true}
use voodoo_i2c.Base.Lemmas.{drop-suc}
use voodoo_i2c.Base.Bits.{test_bit}
use voodoo_i2c.Registers.{Chip}
use voodoo_i2c.Registers.Laws.{IsMapped}
use voodoo_i2c.Driver.Constants.{write_in_progress}
use voodoo_i2c.Driver.Types.{Message, BusDevice, Driver}
use voodoo_i2c.Driver.Transmit.{send_messages, send_from, next_write, transfer_message_to_bus}
use voodoo_i2c.Driver.Transmit.Words.{pending}
use voodoo_i2c.Driver.Transmit.Refill.{
  Writes, bytes_left, messages_left, IsDrained, HasDepths, one, Sends, ltb_pos, bytes_left-idle,
  deep_after, good_test, IsUnderWay, one-Sends, either_pos,
}
use voodoo_i2c.Driver.Transmit.Frame.{transfer_message_to_bus-Untouched}

module _ (chip : Chip) (drained : IsDrained chip) where
  -- What a call of the handler leaves of the messages from the index on: one byte less, at the least.
  pub record Advances (address : ℕ) (ms : List Message) (d e : Driver) : Type 0 where
    pub rest : List Message
    pub at : messages_left e.bus_device ≡ rest
    pub writes : Writes address rest
    pub under_way : IsUnderWay e.bus_device
    pub fewer : bytes_left e.bus_device rest ≤ bytes_left d.bus_device ms - 1
    pub error : e.bus_device.message_error ≡ d.bus_device.message_error
    pub outstanding : e.bus_device.receive_outstanding ≡ d.bus_device.receive_outstanding
    pub count :
        e.bus_device.message_write_index + length rest
        ≡ d.bus_device.message_write_index + length ms

  -- The message went out whole, and the call goes on with the next.
  finished :
      (address : ℕ) (m : Message) (ms : List Message) (d f : Driver) {e : Driver} {base : ℕ}
      → Sends m d f base
      → ltb 0 f.bus_device.transaction_buffer_length ≡ false
      → Advances address ms (next_write f) e
      → Advances address (m ∷ ms) d e
  finished address m ms d f sends done a =
      let idle = bytes_left-idle (next_write f).bus_device ms (sends.status ∙ done) in
      record {
        rest = a.rest;
        at = a.at;
        writes = a.writes;
        under_way = a.under_way;
        fewer = omega (arith, a.fewer, idle, sends.fewer);
        error = a.error ∙ sends.error;
        outstanding = a.outstanding ∙ sends.outstanding;
        count = omega (arith, a.count, sends.index);
      }

  send_messages-Advances :
      (address : ℕ) (ms : List Message) (r : Bool) (d : Driver) {base : ℕ}
      → IsMapped d.port base
      → HasDepths d.bus_device
      → IsUnderWay d.bus_device
      → messages_left d.bus_device ≡ ms
      → Writes address ms
      → Advances address ms d (send_messages chip address ms r d)
  unfolding send_messages one
  send_messages-Advances address [] r d mp deep under_way e w = record {
    rest = [];
    at = e;
    writes = tt;
    under_way = under_way;
    fewer = omega arith;
    error = refl;
    outstanding = refl;
    count = refl;
  }
  send_messages-Advances address (m ∷ ms) r d {base} mp deep under_way e
        (writing, same, some_bytes, w) =
      let sends = one-Sends chip drained m r d mp deep writing some_bytes under_way in
      let filled = (one chip m r d).0 in
      rw (good_test m address same some_bytes)
        (elim (Bool-cases (ltb 0 filled.bus_device.transaction_buffer_length)) [
          | inl more ↦ rw more (record {
            rest = m ∷ ms;
            at = (λ i. drop (sends.index i) (sends.messages i)) ∙ e;
            writes = (writing, same, some_bytes, w);
            under_way = λ going. ltb_pos _ more;
            fewer = rw (sends.status ∙ more) (omega (arith, sends.fewer));
            error = sends.error;
            outstanding = sends.outstanding;
            count = omega (arith, sends.index);
          })
          | inr done ↦ rw done (
              finished address m ms d filled sends done (
                send_messages-Advances address ms (one chip m r d).1 (next_write filled)
                  sends.mapped (deep_after d filled sends deep)
                  (λ going. absurd (false≢true (sym (sends.status ∙ done) ∙ going)))
                  ((λ i. drop (sends.index i + 1) (sends.messages i))
                    ∙ drop-suc d.bus_device.message_write_index d.bus_device.messages m ms e)
                  w))
        ])

  pub transfer-Advances :
      (address : ℕ) (ms : List Message) (d : Driver) {base : ℕ}
      → IsMapped d.port base
      → HasDepths d.bus_device
      → IsUnderWay d.bus_device
      → messages_left d.bus_device ≡ ms
      → Writes address ms
      → Advances address ms d (transfer_message_to_bus chip d)
  unfolding transfer_message_to_bus send_from
  transfer-Advances address [] d mp deep under_way e w = record {
    rest = [];
    at = rw (e) e;
    writes = tt;
    under_way = rw (e) under_way;
    fewer = omega arith;
    error = rw (e) refl;
    outstanding = rw (e) refl;
    count = rw (e) refl;
  }
  transfer-Advances address (m ∷ ms) d mp deep under_way e w =
      let a : Advances address (m ∷ ms) d (send_messages chip m.address (m ∷ ms) false d) =
        subst (λ x. Advances address (m ∷ ms) d (send_messages chip x (m ∷ ms) false d)) (sym w.1)
          (send_messages-Advances address (m ∷ ms) false d mp deep under_way e w) in
      rw (e) (record {
        rest = a.rest;
        at = a.at;
        writes = a.writes;
        under_way = a.under_way;
        fewer = a.fewer;
        error = a.error;
        outstanding = a.outstanding;
        count = a.count;
      })

  pub transfer-deep :
      (d : Driver) → HasDepths d.bus_device → HasDepths (transfer_message_to_bus chip d).bus_device
  transfer-deep d deep =
      let kept = transfer_message_to_bus-Untouched chip d in
      let s = kept.device.transaction_fifo_depth in
      let r = kept.device.receive_fifo_depth in
      record {
        to_send = subst (λ n. 0 < n) (sym s) deep.to_send;
        to_send_int = subst (λ n. n < 2 ^ 31) (sym s) deep.to_send_int;
        to_receive = subst (λ n. 0 < n) (sym r) deep.to_receive;
        to_receive_int = subst (λ n. n < 2 ^ 31) (sym r) deep.to_receive_int;
      }

  pub no_bytes :
      (b : BusDevice) (address : ℕ) (ms : List Message)
      → Writes address ms
      → IsUnderWay b
      → bytes_left b ms ≤ 0
      → ms ≡ []
  no_bytes b address [] w under_way h = refl
  no_bytes b address (m ∷ ms) (writing, same, some_bytes, w) under_way h = absurd (
      omega
        (arith, either_pos (test_bit b.status write_in_progress) _ m.length under_way some_bytes))

  pub nothing_pending :
      (d : Driver) → messages_left d.bus_device ≡ [] → pending d.memory d.bus_device ≡ []
  nothing_pending d e = rw (e) (by_status (test_bit d.bus_device.status write_in_progress))
    where
      by_status : (going : Bool) → ◌≡◌ {A = List ℕ} (if going then [] else []) []
      by_status true = refl
      by_status false = refl
