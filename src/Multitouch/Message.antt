-- ===== src/Multitouch/Message.antt =====
-- The messages to VoodooInput, as "Multitouch Support/Native/VoodooI2CNativeEngine.cpp" fills them in.
use voodoo_i2c.Base.{ℕ, Bool, false, List}

-- What VoodooInput's headers fix: the number of slots of a message, the values of its enumerations,
-- and what a field keeps of a value that is stored in it.
pub record Layout : Type 0 where
  pub max_transducers : ℕ
  pub index_finger : ℕ
  pub thumb : ℕ
  pub palm : ℕ
  pub finger_input : ℕ
  pub stylus_input : ℕ
  pub store_coordinate : ℕ → ℕ
  pub store_width : ℕ → ℕ
  pub store_pressure : ℕ → ℕ
  pub store_buttons : ℕ → ℕ

pub record TouchCoordinates : Type 0 where
  pub touch_x : ℕ
  pub touch_y : ℕ
  pub touch_pressure : ℕ
  pub touch_width : ℕ

pub record InputTransducer : Type 0 where
  pub input_id : ℕ
  pub finger_type : ℕ
  pub input_type : ℕ
  pub is_active : Bool
  pub is_button_down : Bool
  pub is_valid_input : Bool
  pub supports_pressure : Bool
  pub current_coordinates : TouchCoordinates
  pub previous_coordinates : TouchCoordinates
  pub input_time : ℕ

abbrev pub cleared : InputTransducer
cleared = record {
  input_id = 0;
  finger_type = 0;
  input_type = 0;
  is_active = false;
  is_button_down = false;
  is_valid_input = false;
  supports_pressure = false;
  current_coordinates = record { touch_x = 0; touch_y = 0; touch_pressure = 0; touch_width = 0 };
  previous_coordinates = record { touch_x = 0; touch_y = 0; touch_pressure = 0; touch_width = 0 };
  input_time = 0;
}

-- What `messageClient` carries.
pub data Sent : Type 0 where
  input_event : ℕ → ℕ → ℕ → List InputTransducer → Sent
  relative_pointer : ℕ → ℕ → ℕ → Sent
  update_properties : ℕ → Sent
