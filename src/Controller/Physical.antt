-- ===== src/Controller/Physical.antt =====
-- VoodooI2CController.cpp, without the register window: the mapping of the memory, the nub, and how
-- the controller comes and goes. What the system answers is an argument.
pub mod Laws
use voodoo_i2c.Base.{ℕ, Bool, true, false, not, ◌&&◌, Option, none, some, if◌then◌else◌}
use voodoo_i2c.Base.State.{Cmd}
use voodoo_i2c.Registers.{Port}
use voodoo_i2c.Driver.Types.{IoReturn, success, is_success, device_error, error}

-- `is_powered` stands for `PMinit` with no `PMstop` after it.
pub record Controller : Type 0 where
  pub port : Port
  pub awake : Bool
  pub has_provider : Bool
  pub is_open : Bool
  pub has_nub : Bool
  pub is_powered : Bool
  pub is_registered : Bool

-- `init`: the structure of the physical device is zeroed, but for `awake`.
pub init : Bool → Controller → Bool × Controller
init is_initialised c =
    if is_initialised
    then (
      true,
      record c { port = record c.port { mmap = none }; awake = true; has_provider = false },
    )
    else (false, c)

-- Whether the result is the controller, and not null.
pub probe : Bool → Bool
probe is_probed = is_probed

-- A controller of no bus of its own does nothing about its power.
pub set_power_state : ℕ → Controller → Controller
set_power_state which_state c = c

-- Nothing if the provider has no memory; else the mapping, if it succeeds, as its address.
abbrev pub MapAnswer : Type 0
MapAnswer = Option (Option ℕ)

pub map_memory : MapAnswer → Cmd Controller IoReturn
map_memory none c = (device_error, c)
map_memory (some none) c = (device_error, record c { port = record c.port { mmap = none } })
map_memory (some (some address)) c =
    (success, record c { port = record c.port { mmap = some address } })

pub unmap_memory : Controller → Controller
unmap_memory c = record c { port = record c.port { mmap = none } }

pub record NubAnswer : Type 0 where
  pub is_initialised : Bool
  pub is_attached : Bool
  pub is_started : Bool

-- A nub that cannot be started is detached and released.
pub publish_nub : NubAnswer → Cmd Controller IoReturn
publish_nub nub c =
    let published = nub.is_initialised && nub.is_attached && nub.is_started in
    (if published then success else error, record c { has_nub = published })

pub release_resources : Controller → Controller
release_resources c = record c {
  has_nub = false;
  port = record c.port { mmap = none };
  is_open = if c.has_provider then false else c.is_open;
  has_provider = false;
  is_powered = false;
}

-- `opens` is the answer of the provider's `open`, which is only logged.
pub start : Bool → Bool → Cmd Controller Bool
start is_started opens c =
    if is_started
    then (true, record c { has_provider = true; is_powered = true; is_open = opens })
    else (false, release_resources c)

pub stop : Controller → Controller
stop c = release_resources c
