-- ===== src/Driver/Lifecycle/Start.antt =====
-- What a start of the driver leaves behind.
use voodoo_i2c.Base.{Bool, true, false, ◌≡◌, refl}
use voodoo_i2c.Registers.{Chip}
use voodoo_i2c.Driver.Types.{is_success}
use voodoo_i2c.Driver.Bus.{initialise_bus}
use voodoo_i2c.Driver.Lifecycle.{
  Lock, no_lock, allocated, freed, free_lock, Service, release_resources, stop_i2c_interrupt,
  BusDevice, Port,
}

abbrev pub is_allocated : Lock → Bool
is_allocated no_lock = false
is_allocated allocated = true
is_allocated freed = false

free_lock-freed : (l : Lock) → is_allocated (free_lock l) ≡ false
unfolding free_lock
free_lock-freed no_lock = refl
free_lock-freed allocated = refl
free_lock-freed freed = refl

-- Nothing that a start takes is held.
pub record IsReleased (s : Service) : Type 0 where
  pub lock : is_allocated s.i2c_bus_lock ≡ false
  pub loop : s.work_loop ≡ false
  pub gate : s.command_gate ≡ false
  pub registered : s.driver.is_interrupt_registered ≡ false

pub release-IsReleased : (s : Service) → IsReleased (release_resources s)
unfolding release_resources stop_i2c_interrupt
release-IsReleased s = record {
  lock = free_lock-freed s.i2c_bus_lock;
  loop = refl;
  gate = refl;
  registered = refl;
}

-- Everything that a start takes is held.
pub record IsRunning (s : Service) : Type 0 where
  pub lock : s.i2c_bus_lock ≡ allocated
  pub loop : s.work_loop ≡ true
  pub gate : s.command_gate ≡ true
  pub powered : s.is_powered ≡ true
  pub registered : s.driver.is_interrupt_registered ≡ true
  pub line : s.driver.line_enabled ≡ true
  pub published : s.is_registered ≡ true

-- The lock, the work loop and the gate are held, and the interrupt is not registered.
pub record HasGate (s : Service) : Type 0 where
  pub lock : s.i2c_bus_lock ≡ allocated
  pub loop : s.work_loop ≡ true
  pub gate : s.command_gate ≡ true
  pub unregistered : s.driver.is_interrupt_registered ≡ false

module _ (chip : Chip) where
  -- What remains of a start: the service runs; or all is released; or, where the bus cannot be
  -- initialised, the lock, the work loop and the gate are still held.
  pub data Left : Bool × Service → Type 0 where
    running : {s : Service} → IsRunning s → Left (true, s)
    released : {s : Service} → IsReleased s → Left (false, s)
    kept :
        {s : Service} (b : BusDevice) (p : Port)
        → is_success (initialise_bus chip b p).0 ≡ false
        → HasGate s
        → Left (false, s)
