-- ===== src/Driver/Lifecycle.antt =====
-- How the driver comes and goes: `init`, `probe`, `start`, `publishNubs`, `setPowerState`,
-- `releaseResources`, `stop`, and the registering of the interrupt. What the system answers is an
-- argument.
pub mod Power
pub mod Start
pub mod Stop
use voodoo_i2c.Base.{
  ℕ, zero, suc, Bool, true, false, not, ◌&&◌, Option, none, some, List, [], ◌∷◌, ◌++◌, ◌==◌, length,
  take, get_elem?, if◌then◌else◌,
}
use voodoo_i2c.Base.Bits.{test_bit, set_bit}
use voodoo_i2c.Base.Int.{pos}
use voodoo_i2c.Base.State.{Cmd, ◌>>=◌, ◌>>◌, pure}
use voodoo_i2c.Registers.{Chip, Port, read_register}
use voodoo_i2c.Driver.Constants.{
  dw_ic_con, dw_ic_comp_type, dw_ic_comp_type_value, con_bus_clear_ctrl, con_default,
  functionality_bits,
}
use voodoo_i2c.Driver.Types.{
  IoReturn, success, is_success, no_resources, still_open, off, on, BusConfig, BusDevice, Driver,
}
use voodoo_i2c.Driver.Bus.{toggle_bus_state, toggle_interrupts, initialise_bus}
use voodoo_i2c.Driver.Config.{Registry, Acpi, get_bus_config, no_config}

-- `init`: the structure is zeroed, but for `awake`.
abbrev pub initial_device : BusDevice
initial_device = record {
  abort_source = 0;
  acpi_config = no_config;
  awake = true;
  bus_config = 0;
  command_error = 0;
  functionality = 0;
  messages = [];
  message_error = pos 0;
  message_number = 0;
  message_read_index = 0;
  message_write_index = 0;
  receive_buffer_length = 0;
  receive_buffer = 0;
  receive_fifo_depth = 0;
  receive_outstanding = pos 0;
  status = 0;
  transaction_buffer_length = 0;
  transaction_buffer = 0;
  transaction_fifo_depth = 0;
  access_intr_mask_workaround = false;
}

-- Whether the nub's provider is a controller nub, and what the block says it is.
pub probe : Chip → Bool → Bool → Cmd Port Bool
probe chip is_probed is_nub p =
    let (reg, p₁) = read_register chip dw_ic_comp_type p in
    if is_probed && is_nub then (reg == dw_ic_comp_type_value, p₁) else (false, p)

-- The first argument is the answer of `registerInterrupt`.
pub start_i2c_interrupt : IoReturn → Cmd Driver IoReturn
start_i2c_interrupt registered d =
    let taken = not d.is_interrupt_registered && is_success registered in
    (
      if d.is_interrupt_registered then still_open else registered,
      record d {
        line_enabled = if taken then true else d.line_enabled;
        is_interrupt_registered = if taken then true else d.is_interrupt_registered;
      },
    )

pub stop_i2c_interrupt : Driver → Driver
stop_i2c_interrupt d = record d {
  line_enabled = if d.is_interrupt_registered then false else d.line_enabled;
  is_interrupt_registered = false;
}

pub go_to_sleep : Chip → Driver → Driver
go_to_sleep chip d = stop_i2c_interrupt (record d {
  bus_device = record d.bus_device { awake = false };
  port = (toggle_bus_state chip off d.port).1;
})

abbrev pub wake_port : Chip → BusDevice → Cmd Port (Unit {0})
wake_port chip b = do toggle_bus_state chip on; initialise_bus chip b; toggle_interrupts chip off

pub wake_up : Chip → IoReturn → Driver → Driver
wake_up chip registered d =
    let (done, p) = wake_port chip d.bus_device d.port in
    (start_i2c_interrupt registered
      (record d { bus_device = record d.bus_device { awake = true }; port = p })).1

-- `is_self` stands for `whatDevice == this`. The result is always kIOPMAckImplied.
pub set_power_state : Chip → IoReturn → ℕ → Bool → Driver → Driver
set_power_state chip registered which_state is_self d =
    if not is_self
    then d
    else if which_state == 0
    then if d.bus_device.awake then go_to_sleep chip d else d
    else if d.bus_device.awake
    then d
    else wake_up chip registered d

-- One child of the ACPI device: how far a nub for it gets.
pub record Child : Type 0 where
  pub name : ℕ
  pub is_attached : Bool
  pub is_started : Bool

-- The pointer to the lock. A lock that is freed keeps its pointer.
pub data Lock : Type 0 where
  no_lock allocated freed : Lock

-- The driver as a service, with the array `device_nubs` in its order.
pub record Service : Type 0 where
  pub driver : Driver
  pub i2c_bus_lock : Lock
  pub work_loop : Bool
  pub command_gate : Bool
  pub is_powered : Bool
  pub properties : Option BusConfig
  pub is_registered : Bool
  pub device_nubs : Option (List Child)

abbrev pub add_nub : Option (List Child) → Child → Option (List Child)
add_nub none child = none
add_nub (some nubs) child =
    if child.is_attached && child.is_started then some (nubs ++ child ∷ []) else some nubs

pub add_nubs : List Child → Option (List Child) → Option (List Child)
add_nubs [] nubs = nubs
add_nubs (child ∷ children) nubs = add_nubs children (add_nub nubs child)

pub publish_nubs : Option (List Child) → Cmd Service IoReturn
publish_nubs none s = (no_resources, s)
publish_nubs (some children) s =
    (success, record s { device_nubs = add_nubs children s.device_nubs })

pub set_bus_config_properties : Service → Service
set_bus_config_properties s = record s { properties = some s.driver.bus_device.acpi_config }

-- `if (i2c_bus_lock) IOLockFree(i2c_bus_lock)`; a lock that is freed twice stays freed here.
pub free_lock : Lock → Lock
free_lock no_lock = no_lock
free_lock allocated = freed
free_lock freed = freed

pub release_resources : Service → Service
release_resources s = record s {
  driver = stop_i2c_interrupt s.driver;
  command_gate = false;
  work_loop = false;
  i2c_bus_lock = free_lock s.i2c_bus_lock;
}

-- What the system answers to `start`.
pub record System : Type 0 where
  pub is_started : Bool
  pub has_lock : Bool
  pub has_work_loop : Bool
  pub has_gate : Bool
  pub is_gate_added : Bool
  pub registered : IoReturn
  pub children : Option (List Child)

abbrev pub give_up : Service → Bool × Service
give_up s = (false, release_resources s)

-- Reads DW_IC_CON, where the firmware may have enabled the bus clear.
pub set_functionality : Chip → Driver → Driver
set_functionality chip d =
    let (con, p) = read_register chip dw_ic_con d.port in
    record d {
      bus_device = record d.bus_device {
        functionality = functionality_bits;
        bus_config =
            if test_bit con con_bus_clear_ctrl
            then set_bit con_default con_bus_clear_ctrl
            else con_default;
      };
      port = p;
    }

-- The last part, from the registering of the interrupt on.
pub open_service : System → Cmd Service Bool
open_service system s =
    let (result, d) = start_i2c_interrupt system.registered s.driver in
    let s₁ = record s { driver = d } in
    if is_success result
    then (true, (publish_nubs system.children (record s₁ { is_registered = true })).1)
    else give_up s₁

-- The middle part: the failure of the bus does not release what was taken.
pub start_bus : Chip → System → Cmd Service Bool
start_bus chip system s =
    let d = set_functionality chip s.driver in
    let (result, p) = initialise_bus chip d.bus_device d.port in
    if is_success result
    then open_service system
        (record s { driver = record d { port = (toggle_interrupts chip off p).1 } })
    else (false, record s { driver = record d { port = p } })

pub power_on : Chip → System → Registry → Acpi → Cmd Service Bool
power_on chip system registry acpi s =
    let (result, d) = get_bus_config chip registry acpi s.driver in
    let s₁ = record s { driver = d; is_powered = true } in
    if is_success result then start_bus chip system (set_bus_config_properties s₁) else give_up s₁

pub start : Chip → System → Registry → Acpi → Cmd Service Bool
start chip system registry acpi s =
    let s₁ = record s { i2c_bus_lock = if system.has_lock then allocated else no_lock } in
    let s₂ = record s₁ { work_loop = true } in
    let s₃ = record s₂ { command_gate = system.has_gate } in
    if not system.is_started
    then (false, s)
    else if not system.has_lock
    then give_up s₁
    else if not system.has_work_loop
    then give_up s₁
    else if not (system.has_gate && system.is_gate_added)
    then give_up s₃
    else power_on chip system registry acpi s₃

-- What a stop does to a nub.
pub data NubCall : Type 0 where
  stop_nub detach_nub : Child → NubCall

-- `while (device_nubs->getCount() > 0)`: the first argument is the count of the array. The last
-- object is stopped, detached and removed; the result is the calls, and what is left of the array.
pub stop_nubs : ℕ → List Child → List NubCall × List Child
stop_nubs zero nubs = ([], nubs)
stop_nubs (suc last) nubs = elim (get_elem? nubs last) [
  | none ↦ ([], nubs)
  | some nub ↦
      let (calls, left) = stop_nubs last (take last nubs) in
      (stop_nub nub ∷ detach_nub nub ∷ calls, left)
]

abbrev pub stop_all : Option (List Child) → List NubCall × List Child
stop_all none = ([], [])
stop_all (some nubs) = stop_nubs (length nubs) nubs

pub stop : Chip → Cmd Service (List NubCall)
stop chip s =
    let d = s.driver in
    let p = if d.bus_device.awake then (toggle_bus_state chip off d.port).1 else d.port in
    let s₁ = release_resources (record s { driver = record d { port = p }; device_nubs = none }) in
    ((stop_all s.device_nubs).0, record s₁ { is_powered = false })
