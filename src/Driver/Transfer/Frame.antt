-- ===== src/Driver/Transfer/Frame.antt =====
-- What the interrupts of a transfer leave alone.
use voodoo_i2c.Base.{ℕ, zero, suc, refl, Bool, ◌&&◌, List, [], ◌∷◌, if_both}
use voodoo_i2c.Registers.{Chip}
use voodoo_i2c.Driver.Types.{Message, Driver}
use voodoo_i2c.Driver.Same.{Handled-refl}
use voodoo_i2c.Driver.Interrupt.Frame.{Quiet, Quiet-refl, Quiet-trans, handle_interrupt-Quiet}
use voodoo_i2c.Driver.Transfer.{
  Event, interrupt, signal, Schedule, Sleep, deliver, deliver_early, command_sleep,
  request_transfer_i2c, reset_transfer,
}

deliver-Quiet : (chip : Chip) (d : Driver) → Quiet d (deliver chip d).1
unfolding deliver
deliver-Quiet chip d =
    if_both {A = Bool × Driver} (λ r. Quiet d r.1) (d.is_interrupt_registered && d.line_enabled)
      (handle_interrupt-Quiet chip d) (Quiet-refl d)

pub deliver_early-Quiet : (chip : Chip) (n : ℕ) (d : Driver) → Quiet d (deliver_early chip n d)
unfolding deliver_early
deliver_early-Quiet chip zero d = Quiet-refl d
deliver_early-Quiet chip (suc n) d =
    Quiet-trans (deliver-Quiet chip d) (deliver_early-Quiet chip n (deliver chip d).1)

pub command_sleep-Quiet :
    (chip : Chip) (es : List Event) (d : Driver) → Quiet d (command_sleep chip es d).1
unfolding command_sleep
command_sleep-Quiet chip [] d = Quiet-refl d
command_sleep-Quiet chip (signal ∷ es) d = Quiet-refl d
command_sleep-Quiet chip (interrupt ∷ es) d =
    if_both {A = Sleep × Driver} (λ r. Quiet d r.1) (deliver chip d).0 (deliver-Quiet chip d)
      (Quiet-trans (deliver-Quiet chip d) (command_sleep-Quiet chip es (deliver chip d).1))

-- The device and the registration behind the sleep, but for the fields that the transfer uses.
pub slept-Quiet :
    (chip : Chip) (schedule : Schedule) (messages : List Message) (d : Driver)
    → let reset = record d { bus_device = reset_transfer messages d.bus_device } in
      let requested = deliver_early chip schedule.before_sleep (request_transfer_i2c chip reset) in
      let slept = (command_sleep chip schedule.during_sleep requested).1 in
      Quiet reset (deliver_early chip schedule.after_sleep slept)
unfolding request_transfer_i2c
slept-Quiet chip schedule messages d =
    let reset = record d { bus_device = reset_transfer messages d.bus_device } in
    let requested = request_transfer_i2c chip reset in
    let early = deliver_early chip schedule.before_sleep requested in
    let asked : Quiet reset requested = record {
      device = Handled-refl reset.bus_device;
      registered = refl;
    } in
    Quiet-trans asked (
      Quiet-trans (deliver_early-Quiet chip schedule.before_sleep requested) (
        Quiet-trans (command_sleep-Quiet chip schedule.during_sleep early)
          (deliver_early-Quiet chip schedule.after_sleep _)))
