-- ===== src/Driver/Sharing/Paired.antt =====
-- Sleep and wake between transfers: what holds through all interleavings.
use voodoo_i2c.Base.{
  ℕ, ◌≡◌, refl, sym, ◌∙◌, subst, Bool, true, false, ◌&&◌, List, if_both, Bool-cases, inl, inr,
}
use voodoo_i2c.Registers.{Chip}
use voodoo_i2c.Driver.Types.{success, is_success, Message, Driver}
use voodoo_i2c.Driver.Bus.{wait_bus_not_busy_i2c}
use voodoo_i2c.Driver.Interrupt.{handle_interrupt}
use voodoo_i2c.Driver.Interrupt.Frame.{handle_interrupt-Quiet}
use voodoo_i2c.Driver.Lifecycle.{set_power_state}
use voodoo_i2c.Driver.Lifecycle.Power.{IsPaired, set_power_state-IsPaired}
use voodoo_i2c.Driver.Transfer.{
  Sleep, deliver, request_transfer_i2c, reset_transfer, finish_transfer,
}
use voodoo_i2c.Driver.Sharing.{
  System, Shared, Stage, Move, call, lock_bus, enter_gate, request, refuse, sleep, pass_deadline,
  get_signal, go_on, try_again, leave_gate, run_out, switch_power, unlock_bus, use_result, thread,
  hardware, Reach, begin, further, begin_transfer,
}

-- The system registers the interrupt wherever a change of power asks for it.
abbrev Registers : {chip : Chip} {i : ℕ} {s t : Shared} {p q : Stage} → Move chip i s p t q → Type 0
Registers (switch_power {registered}) = registered ≡ success
Registers (call job) = Unit
Registers (lock_bus e) = Unit
Registers (enter_gate e) = Unit
Registers (request e) = Unit
Registers (refuse e) = Unit
Registers sleep = Unit
Registers pass_deadline = Unit
Registers get_signal = Unit
Registers (go_on e) = Unit
Registers (try_again e) = Unit
Registers (leave_gate e) = Unit
Registers run_out = Unit
Registers unlock_bus = Unit
Registers use_result = Unit

abbrev pub AlwaysRegisters : {chip : Chip} {d : Driver} {s : System} → Reach chip d s → Type 0
AlwaysRegisters begin = Unit
AlwaysRegisters (further r (thread i e move)) = Registers move × AlwaysRegisters r
AlwaysRegisters (further r hardware) = AlwaysRegisters r

and_right : (a : Bool) {b : Bool} → (a && b) ≡ true → b ≡ true
and_right true e = e
and_right false e = cc

module _ (chip : Chip) where
  begin-IsPaired :
      (ms : List Message) (d : Driver) → IsPaired d → IsPaired (begin_transfer chip ms d).1
  unfolding begin_transfer request_transfer_i2c reset_transfer
  begin-IsPaired ms d h =
      let same : IsPaired (record d { port = (wait_bus_not_busy_i2c chip d.port).1 }) = record {
        registered = h.registered;
        line = h.line;
      } in
      if_both {A = Bool × Driver} (λ r. IsPaired r.1) d.bus_device.awake
        (if_both {A = Bool × Driver} (λ r. IsPaired r.1)
          (is_success (wait_bus_not_busy_i2c chip d.port).0)
          (record { registered = h.registered; line = h.line }) same)
        h

  finish-IsPaired :
      (slept : Sleep) (d : Driver) → IsPaired d → IsPaired (finish_transfer chip slept d).1
  unfolding finish_transfer
  finish-IsPaired Sleep.timed_out d h = record { registered = h.registered; line = h.line }
  finish-IsPaired Sleep.awakened d h = record { registered = h.registered; line = h.line }
  finish-IsPaired Sleep.interrupted d h = record { registered = h.registered; line = h.line }

  line_after : (d : Driver) → (handle_interrupt chip d).1.line_enabled ≡ true
  unfolding handle_interrupt
  line_after d = refl

  -- An interrupt that reaches the handler finds the line on, and leaves it on.
  handle-IsPaired :
      (d : Driver) → IsPaired d → d.line_enabled ≡ true → IsPaired (handle_interrupt chip d).1
  handle-IsPaired d h on =
      let kept = handle_interrupt-Quiet chip d in
      let awake = kept.device.steady.awake in
      record {
        registered = kept.registered ∙ h.registered ∙ sym awake;
        line = line_after d ∙ sym on ∙ h.line ∙ sym awake;
      }

  deliver-IsPaired : (d : Driver) → IsPaired d → IsPaired (deliver chip d).1
  unfolding deliver
  deliver-IsPaired d h = elim (Bool-cases (d.is_interrupt_registered && d.line_enabled)) [
    | inl on ↦ rw on (handle-IsPaired d h (and_right d.is_interrupt_registered on))
    | inr off ↦ rw off h
  ]

  Move-IsPaired :
      {i : ℕ} {s t : Shared} {p q : Stage} (move : Move chip i s p t q)
      → Registers move
      → IsPaired s.driver
      → IsPaired t.driver
  Move-IsPaired (call job) trusted h = h
  Move-IsPaired (lock_bus e) trusted h = h
  Move-IsPaired (enter_gate e) trusted h = h
  Move-IsPaired {s = s} (request {ms} e) trusted h = begin-IsPaired ms s.driver h
  Move-IsPaired {s = s} (refuse {ms} e) trusted h = begin-IsPaired ms s.driver h
  Move-IsPaired sleep trusted h = h
  Move-IsPaired pass_deadline trusted h = h
  Move-IsPaired get_signal trusted h = h
  Move-IsPaired {s = s} (go_on {slept = slept} e) trusted h = finish-IsPaired slept s.driver h
  Move-IsPaired (try_again e) trusted h = h
  Move-IsPaired (leave_gate e) trusted h = h
  Move-IsPaired run_out trusted h = h
  Move-IsPaired {s = s} (switch_power {registered} {which_state}) trusted h =
      subst (λ r. IsPaired (set_power_state chip r which_state true s.driver)) (sym trusted)
        (set_power_state-IsPaired chip which_state true s.driver h)
  Move-IsPaired unlock_bus trusted h = h
  Move-IsPaired use_result trusted h = h

  -- Whatever threads call and however they and the interrupts interleave, in the middle of a call or
  -- not: where the system registers the interrupt whenever a change of power asks for it, the driver
  -- has its interrupt, and the line is on, exactly while it is awake.
  pub Reach-IsPaired :
      {d : Driver} {s : System} (r : Reach chip d s)
      → AlwaysRegisters r
      → IsPaired d
      → IsPaired s.shared.driver
  Reach-IsPaired begin trusted h = h
  Reach-IsPaired (further r (thread i e move)) (here, before) h =
      Move-IsPaired move here (Reach-IsPaired r before h)
  Reach-IsPaired (further {s} r hardware) trusted h =
      deliver-IsPaired s.shared.driver (Reach-IsPaired r trusted h)
