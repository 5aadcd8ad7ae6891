-- ===== src/Driver/Transfer/Result.antt =====
-- What a transfer returns.
use voodoo_i2c.Base.{
  ℕ, zero, suc, ◌≤◌, ◌≡◌, ◌≢◌, refl, true, false, List, arith, Bool-cases, inl, inr, if_both,
}
use voodoo_i2c.Base.Int.{negsuc, pos, ℤ}
use voodoo_i2c.Registers.{Chip}
use voodoo_i2c.Driver.Types.{IoReturn, success, Message, BusDevice, Driver}
use voodoo_i2c.Driver.Bus.{wait_bus_not_busy_i2c}
use voodoo_i2c.Driver.Interrupt.{is_zero}
use voodoo_i2c.Driver.Transfer.{
  Schedule, Sleep, reset_transfer, transfer_result, finish_transfer, run_transfer,
  prepare_transfer_i2c, is_not_ready, retry, transfer_i2c_gated, is_success,
}
use voodoo_i2c.Driver.Transfer.Frame.{slept-Quiet}

result-ready : (b : BusDevice) → b.command_error ≤ 1 → is_not_ready (transfer_result b) ≡ false
unfolding transfer_result
result-ready b h = ground arith

finish-ready :
    (chip : Chip) (slept : Sleep) (d : Driver)
    → d.bus_device.command_error ≤ 1
    → is_not_ready (finish_transfer chip slept d).0 ≡ false
unfolding finish_transfer
finish-ready chip Sleep.timed_out d h = refl
finish-ready chip Sleep.awakened d h = result-ready d.bus_device h
finish-ready chip Sleep.interrupted d h = result-ready d.bus_device h

run-ready :
    (chip : Chip) (schedule : Schedule) (messages : List Message) (d : Driver)
    → is_not_ready (run_transfer chip schedule messages d).0 ≡ false
unfolding run_transfer reset_transfer
run-ready chip schedule messages d =
    let kept = slept-Quiet chip schedule messages d in
    finish-ready chip _ _ (kept.device.error_bit (omega arith))

pub prepare-ready :
    (chip : Chip) (schedule : Schedule) (messages : List Message) (d : Driver)
    → is_not_ready (prepare_transfer_i2c chip schedule messages d).0 ≡ false
unfolding prepare_transfer_i2c
prepare-ready chip schedule messages d =
    if_both {A = IoReturn × Driver} (λ r. is_not_ready r.0 ≡ false) d.bus_device.awake
      (if_both {A = IoReturn × Driver} (λ r. is_not_ready r.0 ≡ false)
        (is_success (wait_bus_not_busy_i2c chip d.port).0) (run-ready chip schedule messages _)
        refl)
      refl

retry-once :
    (chip : Chip) (schedules : ℕ → Schedule) (messages : List Message) (n : ℕ) (d : Driver)
    → retry chip schedules messages n d ≡ prepare_transfer_i2c chip (schedules n) messages d
unfolding retry
retry-once chip schedules messages zero d = refl
retry-once chip schedules messages (suc n) d =
    rw (prepare-ready chip (schedules (suc n)) messages d) refl

-- The retry loop of `transferI2CGated` never makes a second try: whatever the chip answers and
-- whatever interrupts come, the code for a try that may be repeated is never returned, so the whole
-- loop does what its first try does.
pub transfer_i2c_gated-once :
    (chip : Chip) (schedules : ℕ → Schedule) (messages : List Message) (d : Driver)
    → transfer_i2c_gated chip schedules messages d
      ≡ prepare_transfer_i2c chip (schedules 5) messages d
unfolding transfer_i2c_gated
transfer_i2c_gated-once chip schedules messages d = retry-once chip schedules messages 5 d

-- The state behind a transfer that reports success.
pub record Clean (d : Driver) : Type 0 where
  pub no_message_error : d.bus_device.message_error ≡ pos 0
  pub no_command_error : d.bus_device.command_error ≡ 0

zero_of : (a : ℤ) → is_zero a ≡ true → a ≡ pos 0
zero_of (pos n) h = ground arith
zero_of (negsuc n) h = cc

result-Clean : (d : Driver) → transfer_result d.bus_device ≡ success → Clean d
unfolding transfer_result
result-Clean d h = record {
  no_message_error = zero_of _ (ground arith);
  no_command_error = ground arith;
}

finish-Clean :
    (chip : Chip) (slept : Sleep) (d : Driver)
    → (finish_transfer chip slept d).0 ≡ success
    → Clean (finish_transfer chip slept d).1
unfolding finish_transfer
finish-Clean chip Sleep.timed_out d h = cc
finish-Clean chip Sleep.awakened d h =
    let c = result-Clean d h in
    record { no_message_error = c.no_message_error; no_command_error = c.no_command_error }
finish-Clean chip Sleep.interrupted d h =
    let c = result-Clean d h in
    record { no_message_error = c.no_message_error; no_command_error = c.no_command_error }

run-Clean :
    (chip : Chip) (schedule : Schedule) (messages : List Message) (d : Driver)
    → (run_transfer chip schedule messages d).0 ≡ success
    → Clean (run_transfer chip schedule messages d).1
unfolding run_transfer
run-Clean chip schedule messages d h = finish-Clean chip _ _ h

asleep-fails :
    (chip : Chip) (schedule : Schedule) (messages : List Message) (d : Driver)
    → d.bus_device.awake ≡ false
    → (prepare_transfer_i2c chip schedule messages d).0 ≢ success
unfolding prepare_transfer_i2c
asleep-fails chip schedule messages d e h = ground arith

-- A transfer reports success only while the driver is awake, and only if no message was rejected
-- and no abort was noted.
pub prepare_transfer_i2c-success :
    (chip : Chip) (schedule : Schedule) (messages : List Message) (d : Driver)
    → (prepare_transfer_i2c chip schedule messages d).0 ≡ success
    → (d.bus_device.awake ≡ true) × Clean (prepare_transfer_i2c chip schedule messages d).1
unfolding prepare_transfer_i2c
prepare_transfer_i2c-success chip schedule messages d h = (
  elim (Bool-cases d.bus_device.awake) [
    | inl e ↦ e
    | inr e ↦ absurd (asleep-fails chip schedule messages d e h)
  ],
  if_both {A = IoReturn × Driver} (λ r. r.0 ≡ success → Clean r.1) d.bus_device.awake
      (if_both {A = IoReturn × Driver} (λ r. r.0 ≡ success → Clean r.1)
        (is_success (wait_bus_not_busy_i2c chip d.port).0) (run-Clean chip schedule messages _)
        (λ e. cc))
      (λ e. cc) h,
)
