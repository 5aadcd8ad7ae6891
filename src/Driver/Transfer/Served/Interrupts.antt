-- ===== src/Driver/Transfer/Served/Interrupts.antt =====
-- One interrupt of a block that serves the transfer.
use voodoo_i2c.Base.{ℕ, ◌≡◌, refl, sym, ap, ◌∙◌, subst, true, false, [], arith}
use Prim.Native.Nat.{bit_and}
use voodoo_i2c.Base.Words.{u32}
use voodoo_i2c.Registers.{Chip, Port, read_register}
use voodoo_i2c.Registers.Laws.{read_IsMapped}
use voodoo_i2c.Driver.Constants.{
  dw_ic_enable, dw_ic_raw_intr_stat, dw_ic_intr_stat, dw_ic_clr_stop_det,
}
use voodoo_i2c.Driver.Types.{Driver}
use voodoo_i2c.Driver.Transmit.{transfer_message_to_bus}
use voodoo_i2c.Driver.Interrupt.{read_clear_interrupt_bits, wakeup, dispatch, handle_awake}
use voodoo_i2c.Driver.Transmit.Refill.{messages_left}
use voodoo_i2c.Driver.Interrupt.Aside.{IsAside, ◌⨾◌, read_register-KeepsAside}
use voodoo_i2c.Driver.Transfer.{deliver}
use voodoo_i2c.Driver.Transfer.Served.{
  stops, stops_since, reported, IsServing, HasSettings, IsClean, HasStopped,
}
use voodoo_i2c.Driver.Transfer.Served.Trace.{last-read, since-read}
use voodoo_i2c.Driver.Transfer.Served.Calm.{IsCalm, IsCalm-trans, calm-IsMapped, read-IsCalm}
use voodoo_i2c.Driver.Transfer.Served.Status.{
  handed, raw_of, deliver-awake, raw_not_spurious, raw_u32, read_value, dispatch-sending,
  dispatch-still, wakeup-still, clear-none, clear-stop,
}

-- The port behind the two tests, and what the interrupt status is there.
pub record Looked (chip : Chip) (v : ℕ) (d : Driver) : Type 0 where
  pub port : Port
  pub calm : IsCalm d.port port
  pub aside : IsAside d.port port
  pub status : (read_register chip dw_ic_intr_stat port).0 ≡ v
  pub outcome : deliver chip d ≡ (
      let handled = dispatch chip (record d { port = port; line_enabled = false }) in
      (handled.0, record handled.1 { line_enabled = true }))

pub calm-HasSettings :
    {target mask : ℕ} {p q : Port}
    → IsCalm p q
    → HasSettings target mask p
    → HasSettings target mask q
calm-HasSettings c s = record {
  enabled = c.enabled ∙ s.enabled;
  target_set = c.target_set ∙ s.target_set;
  mask_set = c.mask_set ∙ s.mask_set;
}

-- Where no word was sent there is no stop.
pub calm-since : {p q : Port} → IsCalm p q → IsAside p q → stops_since q.trace ≡ stops_since p.trace
calm-since c aside = omega (arith, c.balance, ap stops aside.words)

reported_at :
    {target mask : ℕ} (n : ℕ) (p : Port)
    → HasSettings target mask p
    → stops_since p.trace ≡ n
    → reported p.trace ≡ raw_of n
reported_at n p s e = rw (s.enabled, e) refl

module _ {chip : Chip} (serving : IsServing chip) {target mask base : ℕ} where
  pub deliver-Looked :
      (n : ℕ) (d : Driver)
      → IsClean base d
      → d.line_enabled ≡ true
      → HasSettings target mask d.port
      → stops_since d.port.trace ≡ n
      → Looked chip (u32 (bit_and (raw_of n) mask)) d
  unfolding handle_awake
  deliver-Looked n d clean line s e =
      let p₁ = (read_register chip dw_ic_enable d.port).1 in
      let c₁ = read-IsCalm chip dw_ic_enable clean.mapped refl in
      let a₁ = read_register-KeepsAside chip dw_ic_enable refl d.port in
      let m₁ = read_IsMapped clean.mapped chip dw_ic_enable in
      let p₂ = (read_register chip dw_ic_raw_intr_stat p₁).1 in
      let c₂ = IsCalm-trans c₁ (read-IsCalm chip dw_ic_raw_intr_stat m₁ refl) in
      let a₂ = a₁ ⨾ read_register-KeepsAside chip dw_ic_raw_intr_stat refl p₁ in
      let m₂ = read_IsMapped m₁ chip dw_ic_raw_intr_stat in
      let on =
        read_value chip dw_ic_enable 1 clean.mapped (serving.enabled d.port.trace ∙ s.enabled) in
      let raw =
        read_value chip dw_ic_raw_intr_stat (raw_of n) m₁ (
          serving.raw_status p₁.trace
          ∙ reported_at n p₁ (calm-HasSettings c₁ s) (calm-since c₁ a₁ ∙ e))
        ∙ raw_u32 n in
      let set₂ = calm-HasSettings c₂ s in
      let looked : handle_awake chip (record d { line_enabled = false })
          ≡ dispatch chip (record d { port = p₂; line_enabled = false }) =
        rw (on, raw, raw_not_spurious n) refl in
      record {
        port = p₂;
        calm = c₂;
        aside = a₂;
        status = read_value chip dw_ic_intr_stat _ m₂ (
            serving.status p₂.trace
            ∙ (λ i. bit_and (reported_at n p₂ set₂ (calm-since c₂ a₂ ∙ e) i) (set₂.mask_set i)));
        outcome =
            deliver-awake chip d clean.registered line clean.awake
            ∙ ap (λ r. (r.0, record r.1 { line_enabled = true })) looked;
      }

-- The driver with its line on again, as an interrupt leaves it where nothing is sent.
abbrev still : Driver → Port → Driver
still d p = record (handed d p d.bus_device.abort_source) { line_enabled = true }

IsClean-still :
    {base : ℕ} (d : Driver) (p : Port)
    → IsClean base d
    → p.mmap ≡ d.port.mmap
    → IsClean base (still d p)
IsClean-still d p clean window = record {
  mapped = record { mapped = window ∙ clean.mapped.mapped; nonzero = clean.mapped.nonzero };
  awake = clean.awake;
  no_workaround = clean.no_workaround;
  registered = clean.registered;
  message_error = clean.message_error;
  command_error = clean.command_error;
  outstanding = clean.outstanding;
}

-- An interrupt of the empty FIFO hands the driver to the transmit handler.
pub record Fed (chip : Chip) (d : Driver) : Type 0 where
  pub port : Port
  pub calm : IsCalm d.port port
  pub aside : IsAside d.port port
  pub outcome : deliver chip d ≡ (
      let handled =
        wakeup chip 0x10 (transfer_message_to_bus chip (handed d port d.bus_device.abort_source)) in
      (handled.0, record handled.1 { line_enabled = true }))

module _ {chip : Chip} (serving : IsServing chip) {target base : ℕ} where
  pub deliver-Fed :
      (d : Driver)
      → IsClean base d
      → d.line_enabled ≡ true
      → HasSettings target 0x254 d.port
      → stops_since d.port.trace ≡ 0
      → Fed chip d
  unfolding read_clear_interrupt_bits
  deliver-Fed d clean line s e =
      let l = deliver-Looked serving 0 d clean line s e in
      let masked : Driver = record d { port = l.port; line_enabled = false } in
      let cleared = clear-none chip d.bus_device l.port true l.status in
      record {
        port = (read_register chip dw_ic_intr_stat l.port).1;
        calm =
            IsCalm-trans l.calm
              (read-IsCalm chip dw_ic_intr_stat (calm-IsMapped clean.mapped l.calm) refl);
        aside = l.aside ⨾ read_register-KeepsAside chip dw_ic_intr_stat refl l.port;
        outcome =
            l.outcome
            ∙ ap (λ r. (r.0, record r.1 { line_enabled = true }))
                (dispatch-sending chip masked (ap (λ r. r.0.0) cleared)
                  ∙ ap (λ r. wakeup chip 0x10 (transfer_message_to_bus chip (handed d r.1 r.0.1)))
                      cleared);
      }

  -- The interrupt of the stop clears it and wakes the caller.
  pub deliver-stop :
      (d : Driver)
      → IsClean base d
      → d.line_enabled ≡ true
      → HasSettings target 0x244 d.port
      → stops_since d.port.trace ≡ 1
      → messages_left d.bus_device ≡ []
      → ((deliver chip d).0 ≡ true)
        × HasStopped base target (deliver chip d).1
        × ((deliver chip d).1.line_enabled ≡ true)
  unfolding read_clear_interrupt_bits
  deliver-stop d clean line s e left =
      let l = deliver-Looked serving 1 d clean line s e in
      let m = calm-IsMapped clean.mapped l.calm in
      let masked : Driver = record d { port = l.port; line_enabled = false } in
      let p₁ = (read_register chip dw_ic_intr_stat l.port).1 in
      let c₁ = IsCalm-trans l.calm (read-IsCalm chip dw_ic_intr_stat m refl) in
      let m₁ = calm-IsMapped clean.mapped c₁ in
      let p₂ = (read_register chip dw_ic_clr_stop_det p₁).1 in
      let set₁ = calm-HasSettings c₁ s in
      let cleared = clear-stop chip d.bus_device l.port l.status clean.outstanding in
      let all : deliver chip d ≡ (true, still d p₂) =
        l.outcome
        ∙ ap (λ r. (r.0, record r.1 { line_enabled = true }))
            (dispatch-still chip masked true (ap (λ r. r.0.0) cleared)
              ∙ ap (λ r. wakeup chip 0x200 (handed d r.1 r.0.1)) cleared
              ∙ wakeup-still chip (handed d p₂ d.bus_device.abort_source) true clean.message_error
                  clean.outstanding clean.no_workaround) in
      (
        ap (λ r. r.0) all,
        subst (λ r. HasStopped base target r.1) (sym all)
            (record {
              clean =
                  IsClean-still d p₂ clean
                    ((read_register-KeepsAside chip dw_ic_clr_stop_det refl p₁).window ∙ c₁.window);
              settings = record {
                enabled = last-read m₁ chip dw_ic_clr_stop_det _ ∙ set₁.enabled;
                target_set = last-read m₁ chip dw_ic_clr_stop_det _ ∙ set₁.target_set;
                mask_set = last-read m₁ chip dw_ic_clr_stop_det _ ∙ set₁.mask_set;
              };
              left = left;
              none_out = since-read m₁ chip dw_ic_clr_stop_det;
            }),
        ap (λ r. r.1.line_enabled) all,
      )

  -- An interrupt behind the stop finds nothing to do.
  pub deliver-idle :
      (d : Driver)
      → HasStopped base target d
      → d.line_enabled ≡ true
      → HasStopped base target (deliver chip d).1 × ((deliver chip d).1.line_enabled ≡ true)
  unfolding read_clear_interrupt_bits
  deliver-idle d stopped line =
      let clean = stopped.clean in
      let l = deliver-Looked serving 0 d clean line stopped.settings stopped.none_out in
      let m = calm-IsMapped clean.mapped l.calm in
      let masked : Driver = record d { port = l.port; line_enabled = false } in
      let p₁ = (read_register chip dw_ic_intr_stat l.port).1 in
      let c₁ = IsCalm-trans l.calm (read-IsCalm chip dw_ic_intr_stat m refl) in
      let a₁ = l.aside ⨾ read_register-KeepsAside chip dw_ic_intr_stat refl l.port in
      let cleared = clear-none chip d.bus_device l.port false l.status in
      let all : deliver chip d ≡ (false, still d p₁) =
        l.outcome
        ∙ ap (λ r. (r.0, record r.1 { line_enabled = true }))
            (dispatch-still chip masked false (ap (λ r. r.0.0) cleared)
              ∙ ap (λ r. wakeup chip 0 (handed d r.1 r.0.1)) cleared
              ∙ wakeup-still chip (handed d p₁ d.bus_device.abort_source) false clean.message_error
                  clean.outstanding clean.no_workaround) in
      (
        subst (λ r. HasStopped base target r.1) (sym all)
            (record {
              clean = IsClean-still d p₁ clean c₁.window;
              settings = calm-HasSettings c₁ stopped.settings;
              left = stopped.left;
              none_out = calm-since c₁ a₁ ∙ stopped.none_out;
            }),
        ap (λ r. r.1.line_enabled) all,
      )
