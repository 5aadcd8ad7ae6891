-- ===== src/Services/Plane.antt =====
-- VoodooI2CServices.cpp and VoodooI2CLogger.cpp: a service that says that it supports the plane is
-- attached in it to the root or to its parent in the service plane, and detached when it goes.
pub mod Laws
use voodoo_i2c.Base.{
  ℕ, Bool, true, false, not, ◌&&◌, Option, none, some, List, [], ◌∷◌, ◌==◌, leb, if◌then◌else◌,
}

-- The root of the registry, or an entry with a number that names it.
pub data Entry : Type 0 where
  root : Entry
  entry : ℕ → Entry

-- The attachments of the plane, the newest first: a child with its parent.
abbrev pub Plane : Type 0
Plane = List (ℕ × Entry)

-- A service: its property `isI2CController`, where it has one, and its parent in the service plane.
pub record PlaneService : Type 0 where
  pub service_id : ℕ
  pub is_controller : Option Bool
  pub service_parent : Entry

abbrev pub has_property : Option Bool → Bool
has_property none = false
has_property (some b) = b

abbrev pub parent_of : PlaneService → Entry
parent_of s = if has_property s.is_controller then root else s.service_parent

unfoldable pub attach_device : PlaneService → Plane → Bool × Plane
attach_device s plane = (true, (s.service_id, parent_of s) ∷ plane)

-- Takes the newest attachment of a child away, which is to its parent in the plane.
unfoldable pub detach : ℕ → Plane → Plane
detach child [] = []
detach child ((c, parent) ∷ rest) =
    let others = detach child rest in if c == child then rest else (c, parent) ∷ others

unfoldable pub detach_device : PlaneService → Plane → Bool × Plane
detach_device s plane = (true, detach s.service_id plane)

abbrev pub same_entry : Entry → Entry → Bool
same_entry root root = true
same_entry root (entry n) = false
same_entry (entry m) root = false
same_entry (entry m) (entry n) = m == n

-- Takes the newest link of this child to this parent away.
unfoldable pub detach_from : ℕ → Entry → Plane → Plane
detach_from child parent [] = []
detach_from child parent ((c, p) ∷ rest) =
    let others = detach_from child parent rest in
    if (c == child) && same_entry p parent then rest else (c, p) ∷ others

-- The services: the plane, and whether they listen for devices that come and go.
pub record Services : Type 0 where
  pub plane : Plane
  pub has_matchers : Bool

unfoldable pub start_services : Bool → ℕ → Services → Bool × Services
start_services super_starts self s =
    if not super_starts
    then (false, s)
    else (true, record { plane = (self, root) ∷ []; has_matchers = true })

unfoldable pub stop_services : ℕ → Services → Services
stop_services self s = record { plane = detach_from self root s.plane; has_matchers = false }

-- The logger: 0 is silent, 1 normal and 2 debug. The argument is the boot argument, a byte.
unfoldable pub logging_level : Option ℕ → ℕ
logging_level none = 1
logging_level (some argument) = if leb argument 2 then argument else 1

unfoldable pub start_logger : Bool → Option ℕ → ℕ → Entry → Plane → Bool × Plane
start_logger super_starts argument self provider plane =
    if not super_starts
    then (false, plane)
    else if logging_level argument == 0
    then (false, plane)
    else (true, (self, provider) ∷ plane)

-- `detachFromChild` takes the provider for a child of the logger.
unfoldable pub stop_logger : ℕ → ℕ → Plane → Plane
stop_logger self provider plane = detach_from provider (entry self) plane
