-- ===== src/Driver/Sharing/Tests.antt =====
-- Two threads: one transfers, the other puts the driver to sleep first.
use voodoo_i2c.Base.{ℕ, ◌≡◌, refl, [], ◌∷◌}
use voodoo_i2c.Driver.Types.{success}
use voodoo_i2c.Driver.Samples.{quiet_chip, driver, write_message}
use voodoo_i2c.Driver.Sharing.{
  System, transfer, power, call, lock_bus, enter_gate, switch_power, unlock_bus, thread, hardware,
  Reach, begin, further, Job,
}
use voodoo_i2c.Driver.Sharing.Owners.{Reach-exclusive}
use voodoo_i2c.Driver.Lifecycle.Power.{IsPaired}
use voodoo_i2c.Driver.Sharing.Paired.{Reach-IsPaired}
use voodoo_i2c.Driver.Sharing.Live.{CanMove, Reach-CanMove}
use voodoo_i2c.Driver.Sharing.Serial.{IsSerial}
use voodoo_i2c.Driver.Sharing.Serial.Reached.{Reach-IsSerial}

abbrev write : Job
write = transfer (write_message ∷ [])

abbrev to_sleep : Job
to_sleep = power success 0

record Run : Type 0 where
  last : System
  path : Reach quiet_chip driver last

-- Thread 1 has switched the power off, and thread 0 is behind the gate.
abbrev contended : Run
contended = record {
  last = _;
  path =
      further
        (further
          (further
            (further
              (further
                (further (further begin (thread 0 refl (call write)))
                  (thread 1 refl (call to_sleep)))
                (thread 1 refl (lock_bus refl)))
              (thread 1 refl switch_power))
            (thread 1 refl unlock_bus))
          (thread 0 refl (lock_bus refl)))
        (thread 0 refl (enter_gate refl));
}

abbrev interrupted : Run
interrupted = record { last = _; path = further contended.path hardware }

Reach-exclusive_example : ◌≡◌ {A = ℕ} 0 0
Reach-exclusive_example = Reach-exclusive contended.path 0 0 refl refl

Reach-CanMove_example : (j : ℕ) × CanMove quiet_chip contended.last j
Reach-CanMove_example = Reach-CanMove contended.path 0 refl

Reach-IsSerial_example : IsSerial quiet_chip driver interrupted.last
Reach-IsSerial_example = Reach-IsSerial interrupted.path

driver-IsPaired : IsPaired driver
driver-IsPaired = record { registered = refl; line = refl }

Reach-IsPaired_example : IsPaired interrupted.last.shared.driver
Reach-IsPaired_example =
    Reach-IsPaired quiet_chip interrupted.path (tt, (tt, (tt, (refl, (tt, (tt, (tt, tt)))))))
      driver-IsPaired
