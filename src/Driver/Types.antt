-- ===== src/Driver/Types.antt =====
-- The structures of VoodooI2CControllerDriver.hpp, the driver's state, and the status codes.
-- Memory is a function from addresses to bytes; a pointer is an address. A C array of messages and
-- its length travel as one list.
use voodoo_i2c.Base.{ℕ, ◌%◌, Bool, true, false, List, ◌==◌, if◌then◌else◌}
use voodoo_i2c.Base.Int.{ℤ}
use voodoo_i2c.Registers.{Port}

-- The IOReturn codes that the driver gives.
pub data IoReturn : Type 0 where
  success error no_memory timeout busy not_ready still_open no_resources cannot_lock : IoReturn
  device_error no_power not_found unsupported unsupported_mode : IoReturn

abbrev pub is_success : IoReturn → Bool
is_success success = true
is_success _ = false

pub data BusState : Type 0 where
  off on : BusState

abbrev pub to_word : BusState → ℕ
to_word BusState.off = 0
to_word BusState.on = 1

pub record Message : Type 0 where
  pub address : ℕ
  pub buffer : ℕ
  pub flags : ℕ
  pub length : ℕ

pub record BusConfig : Type 0 where
  pub ss_hcnt : ℕ
  pub fs_hcnt : ℕ
  pub ss_lcnt : ℕ
  pub fs_lcnt : ℕ
  pub sda_hold : ℕ

pub record BusDevice : Type 0 where
  pub abort_source : ℕ
  pub acpi_config : BusConfig
  pub awake : Bool
  pub bus_config : ℕ
  pub command_error : ℕ
  pub functionality : ℕ
  pub messages : List Message
  pub message_error : ℤ
  pub message_number : ℕ
  pub message_read_index : ℕ
  pub message_write_index : ℕ
  pub receive_buffer_length : ℕ
  pub receive_buffer : ℕ
  pub receive_fifo_depth : ℕ
  pub receive_outstanding : ℤ
  pub status : ℕ
  pub transaction_buffer_length : ℕ
  pub transaction_buffer : ℕ
  pub transaction_fifo_depth : ℕ
  pub access_intr_mask_workaround : Bool

-- `line_enabled` is the interrupt line of the nub's provider.
-- `behind_messages` is what is read as a message behind the end of the array of messages.
pub record Driver : Type 0 where
  pub bus_device : BusDevice
  pub port : Port
  pub memory : ℕ → ℕ
  pub behind_messages : Message
  pub line_enabled : Bool
  pub is_interrupt_registered : Bool

abbrev pub Memory : Type 0
Memory = ℕ → ℕ

abbrev pub store_byte : Memory → ℕ → ℕ → Memory
store_byte memory a v b = if b == a then v % 256 else memory b
