-- ===== src/Services/Plane/Laws.antt =====
-- What comes into the plane goes out of it.
use voodoo_i2c.Base.{Option, ℕ, ◌≡◌, refl, true, false, ◌==◌, [], ◌∷◌, arith}
use voodoo_i2c.Services.Plane.{
  entry, logging_level, start_logger, stop_logger, detach_from, PlaneService, Plane, attach_device,
  detach, detach_device,
}

same_id : (n : ℕ) → (n == n) ≡ true
same_id n = ground arith

-- A service that is attached and detached again leaves the plane as it was, whether it was in it
-- before or not.
pub detach_device-attach_device :
    (s : PlaneService) (plane : Plane) → (detach_device s (attach_device s plane).1).1 ≡ plane
unfolding detach_device attach_device detach
detach_device-attach_device s plane = rw (same_id s.service_id) refl

-- The logger that has started stays attached to its provider when it stops.
pub stop_logger-start_logger :
    (self provider : ℕ) (argument : Option ℕ)
    → (logging_level argument == 0) ≡ false
    → (self == provider) ≡ false
    → stop_logger self provider (start_logger true argument self (entry provider) []).1
      ≡ (self, entry provider) ∷ []
unfolding stop_logger start_logger detach_from
stop_logger-start_logger self provider argument loud other = rw (loud, other) refl
