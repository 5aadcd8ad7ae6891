-- ===== src/Driver/Transfer/Served/Request.antt =====
-- The start of such a transfer: the driver as the request leaves it.
use voodoo_i2c.Base.{ℕ, ◌<◌, ◌≡◌, refl, true, false, List, ◌∷◌, ◌++◌, arith, replicate}
use mathlib.Core.Bool.{false≢true}
use voodoo_i2c.Registers.{Chip}
use voodoo_i2c.Registers.Laws.{IsMapped}
use voodoo_i2c.Driver.Types.{Message, Driver}
use voodoo_i2c.Driver.Transmit.Refill.{Writes, total_length, bytes_left, HasDepths}
use voodoo_i2c.Driver.Transfer.{
  Event, interrupt, Schedule, request_transfer_i2c, reset_transfer, request_port,
}
use voodoo_i2c.Driver.Transfer.Steps.{request_port-IsAside}
use voodoo_i2c.Driver.Transfer.Served.{IsWriting}
use voodoo_i2c.Driver.Transfer.Served.Stops.{stops-pending}
use voodoo_i2c.Driver.Transfer.Served.Calm.{aside-IsMapped}
use voodoo_i2c.Driver.Transfer.Served.Settings.{target_of, request_message-HasSettings}

-- An awake driver with its interrupt registered and the line on, over a mapped window, and without
-- the workaround.
pub record IsStarted (base : ℕ) (d : Driver) : Type 0 where
  pub mapped : IsMapped d.port base
  pub depths : HasDepths d.bus_device
  pub awake : d.bus_device.awake ≡ true
  pub no_workaround : d.bus_device.access_intr_mask_workaround ≡ false
  pub registered : d.is_interrupt_registered ≡ true
  pub line : d.line_enabled ≡ true

-- Interrupts through the whole of the sleep, and behind it.
abbrev pub served_schedule : ℕ → ℕ → List Event → Schedule
served_schedule n k es = record {
  before_sleep = 0;
  during_sleep = replicate n interrupt ++ es;
  after_sleep = k;
}

module _ (chip : Chip) (m : Message) (ms : List Message) where
  -- The driver as the request leaves it.
  abbrev pub requested : Driver → Driver
  requested d =
      request_transfer_i2c chip (record d { bus_device = reset_transfer (m ∷ ms) d.bus_device })

  pub requested-IsWriting :
      (address base : ℕ) (d : Driver)
      → IsStarted base d
      → Writes address (m ∷ ms)
      → IsWriting base address (target_of m) (m ∷ ms) (requested d)
  unfolding request_transfer_i2c reset_transfer request_port
  requested-IsWriting address base d started w =
      let reset : Driver = record d { bus_device = reset_transfer (m ∷ ms) d.bus_device } in
      let aside = request_port-IsAside chip reset (m ∷ ms) in
      let (settings, none_out) =
        request_message-HasSettings chip reset.bus_device m d.port started.mapped in
      record {
        clean = record {
          mapped = aside-IsMapped started.mapped aside;
          awake = started.awake;
          no_workaround = started.no_workaround;
          registered = started.registered;
          message_error = refl;
          command_error = refl;
          outstanding = refl;
        };
        settings = settings;
        depths = record {
          to_send = started.depths.to_send;
          to_send_int = started.depths.to_send_int;
          to_receive = started.depths.to_receive;
          to_receive_int = started.depths.to_receive_int;
        };
        under_way = λ going. absurd (false≢true going);
        left = refl;
        writes = w;
        count = omega arith;
        one_stop = omega (
          arith,
          none_out,
          stops-pending address d.memory (requested d).bus_device (m ∷ ms) w
              (λ going. absurd (false≢true going)) (omega arith),
        );
      }

  pub line_kept : (d : Driver) → d.line_enabled ≡ true → (requested d).line_enabled ≡ true
  unfolding request_transfer_i2c
  line_kept d line = line

  pub all_left :
      {n : ℕ} (d : Driver)
      → total_length (m ∷ ms) < n
      → bytes_left (requested d).bus_device (m ∷ ms) < n
  unfolding request_transfer_i2c reset_transfer
  all_left d h = h
