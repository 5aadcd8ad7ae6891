-- ===== src/Driver/Lifecycle/Power.antt =====
-- Sleep and wake: whatever is asked, the driver ends in the state asked for.
use voodoo_i2c.Base.{
  ◌&&◌, ℕ, Bool, true, false, not, ◌≡◌, refl, ◌==◌, if◌then◌else◌, if_both, ◌∙◌, sym,
}
use voodoo_i2c.Registers.{Chip}
use voodoo_i2c.Driver.Types.{Driver, IoReturn, success}
use voodoo_i2c.Driver.Lifecycle.{
  set_power_state, go_to_sleep, wake_up, start_i2c_interrupt, stop_i2c_interrupt,
}

-- The driver is awake exactly when it has its interrupt, and the line is off without it.
pub record IsPaired (d : Driver) : Type 0 where
  pub registered : d.is_interrupt_registered ≡ d.bus_device.awake
  pub line : d.line_enabled ≡ d.bus_device.awake

go_to_sleep-IsPaired : (chip : Chip) (d : Driver) → IsPaired d → IsPaired (go_to_sleep chip d)
unfolding go_to_sleep stop_i2c_interrupt
go_to_sleep-IsPaired chip d h = record {
  registered = refl;
  line = off_line d.is_interrupt_registered h.registered;
}
  where
    off_line : (b : Bool) → b ≡ d.bus_device.awake → (if b then false else d.line_enabled) ≡ false
    off_line true e = refl
    off_line false e = h.line ∙ sym e

wake_up-IsPaired : (chip : Chip) (d : Driver) → IsPaired d → IsPaired (wake_up chip success d)
unfolding wake_up start_i2c_interrupt
wake_up-IsPaired chip d h = record {
  registered = taken d.is_interrupt_registered d.is_interrupt_registered refl;
  line = taken d.is_interrupt_registered d.line_enabled (h.line ∙ sym h.registered);
}
  where
    taken : (b c : Bool) → c ≡ b → (if not b && true then true else c) ≡ true
    taken true c e = e
    taken false c e = refl

-- Where the system registers the interrupt when it is asked to, any change of power keeps the driver
-- awake exactly when it has its interrupt, and the line on exactly then.
pub set_power_state-IsPaired :
    (chip : Chip) (which_state : ℕ) (is_self : Bool) (d : Driver)
    → IsPaired d
    → IsPaired (set_power_state chip success which_state is_self d)
unfolding set_power_state
set_power_state-IsPaired chip which_state is_self d h =
    let sleeping = if_both IsPaired d.bus_device.awake (go_to_sleep-IsPaired chip d h) h in
    let waking = if_both IsPaired d.bus_device.awake h (wake_up-IsPaired chip d h) in
    if_both IsPaired (not is_self) h (if_both IsPaired (which_state == 0) sleeping waking)

-- A change of power asked of this service ends in the power that is asked for.
pub set_power_state-awake :
    (chip : Chip) (registered : IoReturn) (which_state : ℕ) (d : Driver)
    → (set_power_state chip registered which_state true d).bus_device.awake ≡ not (which_state == 0)
unfolding set_power_state go_to_sleep wake_up start_i2c_interrupt stop_i2c_interrupt
set_power_state-awake chip registered which_state d =
    ends (which_state == 0) d.bus_device.awake refl
  where
    ends :
        (z b : Bool)
        → d.bus_device.awake ≡ b
        → (if z
            then (if b then go_to_sleep chip d else d)
            else (if b then d else wake_up chip registered d)).bus_device.awake
          ≡ not z
    ends true true e = refl
    ends true false e = e
    ends false true e = e
    ends false false e = refl

-- A driver in the state asked for is left as it is.
set_power_state-settled :
    (chip : Chip) (registered : IoReturn) (which_state : ℕ) (d : Driver)
    → d.bus_device.awake ≡ not (which_state == 0)
    → set_power_state chip registered which_state true d ≡ d
unfolding set_power_state
set_power_state-settled chip registered which_state d h =
    stays (which_state == 0) d.bus_device.awake h
  where
    stays :
        (z b : Bool)
        → b ≡ not z
        → (if z
            then (if b then go_to_sleep chip d else d)
            else (if b then d else wake_up chip registered d))
          ≡ d
    stays true true e = absurd cc
    stays true false e = refl
    stays false true e = refl
    stays false false e = absurd cc

-- A second request to this service for the same power changes nothing: no register is accessed either.
set_power_state-again :
    (chip : Chip) (registered : IoReturn) (which_state : ℕ) (d : Driver)
    → set_power_state chip registered which_state true
        (set_power_state chip registered which_state true d)
      ≡ set_power_state chip registered which_state true d
set_power_state-again chip registered which_state d =
    set_power_state-settled chip registered which_state _
      (set_power_state-awake chip registered which_state d)
