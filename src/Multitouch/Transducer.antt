-- ===== src/Multitouch/Transducer.antt =====
-- "Multitouch Support/VoodooI2CDigitiserTransducer.hpp" and .cpp, VoodooI2CDigitiserStylus.cpp and
-- MultitouchHelpers.hpp: what a satellite tells the interface.
use voodoo_i2c.Base.{ℕ, Bool, false, not, Option, none, some, List, if◌then◌else◌, ◌==◌}
use voodoo_i2c.Base.Int.{ℤ, pos}

-- The value is a UInt16, the time a UInt64.
pub record ValueWithTime : Type 0 where
  pub value : ℕ
  pub timestamp : ℕ

pub record TimeTrackedValue : Type 0 where
  pub current : ValueWithTime
  pub last : ValueWithTime

abbrev pub value_of : TimeTrackedValue → ℕ
value_of v = v.current.value

abbrev pub last_of : TimeTrackedValue → ℕ
last_of v = v.last.value

-- `operator bool`
abbrev pub is_set : TimeTrackedValue → Bool
is_set v = not (v.current.value == 0)

unfoldable pub update : ℕ → ℕ → TimeTrackedValue → TimeTrackedValue
update v time tracked = record {
  current = record { value = v; timestamp = time };
  last = tracked.current;
}

abbrev pub untracked : TimeTrackedValue
untracked = record {
  current = record { value = 0; timestamp = 0 };
  last = record { value = 0; timestamp = 0 };
}

pub data TransducerType : Type 0 where
  finger stylus puck : TransducerType

pub record Coordinates : Type 0 where
  pub x : TimeTrackedValue
  pub y : TimeTrackedValue
  pub z : TimeTrackedValue

pub record Dimensions : Type 0 where
  pub width : TimeTrackedValue
  pub height : TimeTrackedValue

pub record AziAltiOrientation : Type 0 where
  pub azimuth : TimeTrackedValue
  pub altitude : TimeTrackedValue
  pub twist : TimeTrackedValue

pub record TiltOrientation : Type 0 where
  pub x_tilt : TimeTrackedValue
  pub y_tilt : TimeTrackedValue

-- The HID element is a number that names it.
pub record Transducer : Type 0 where
  pub physical_button : TimeTrackedValue
  pub has_secondary_button : Bool
  pub coordinates : Coordinates
  pub last_coordinates : Coordinates
  pub dimensions : Dimensions
  pub last_dimensions : Dimensions
  pub azi_alti_orientation : AziAltiOrientation
  pub tilt_orientation : TiltOrientation
  pub confidence : TimeTrackedValue
  pub tip_switch : TimeTrackedValue
  pub tip_pressure : TimeTrackedValue
  pub touch_major : TimeTrackedValue
  pub touch_minor : TimeTrackedValue
  pub logical_max_x : ℤ
  pub logical_max_y : ℤ
  pub logical_max_z : ℤ
  pub pressure_physical_max : ℤ
  pub id : ℕ
  pub secondary_id : ℕ
  pub in_range : Bool
  pub is_valid : Bool
  pub kind : TransducerType
  pub collection : Option ℕ
  pub event_mask : ℕ
  pub timestamp : ℕ

abbrev nowhere : Coordinates
nowhere = record { x = untracked; y = untracked; z = untracked }

abbrev no_size : Dimensions
no_size = record { width = untracked; height = untracked }

-- An object that has just been made: its memory is cleared and the initialisers of its fields give 0.
abbrev pub allocated : Transducer
allocated = record {
  physical_button = untracked;
  has_secondary_button = false;
  coordinates = nowhere;
  last_coordinates = nowhere;
  dimensions = no_size;
  last_dimensions = no_size;
  azi_alti_orientation = record { azimuth = untracked; altitude = untracked; twist = untracked };
  tilt_orientation = record { x_tilt = untracked; y_tilt = untracked };
  confidence = untracked;
  tip_switch = untracked;
  tip_pressure = untracked;
  touch_major = untracked;
  touch_minor = untracked;
  logical_max_x = pos 0;
  logical_max_y = pos 0;
  logical_max_z = pos 0;
  pressure_physical_max = pos 0;
  id = 0;
  secondary_id = 0;
  in_range = false;
  is_valid = false;
  kind = finger;
  collection = none;
  event_mask = 0;
  timestamp = 0;
}

-- `transducer` and `stylus`, where the Boolean says whether the object could be made.
unfoldable pub new_transducer : Bool → TransducerType → Option ℕ → Option Transducer
new_transducer is_made type_of element =
    if is_made
    then some (record allocated {
      kind = type_of;
      collection = element;
      in_range = false;
      confidence = update 1 0 untracked;
    })
    else none

unfoldable pub new_stylus : Bool → TransducerType → Option ℕ → Option Transducer
new_stylus is_made type_of element =
    if is_made
    then some (record allocated { kind = type_of; collection = element; in_range = false })
    else none

-- The contacts are a UInt8. There is no object behind the end of the array.
pub record MultitouchEvent : Type 0 where
  pub contact_count : ℕ
  pub transducers : List Transducer

pub data MultitouchReturn : Type 0 where
  continue break : MultitouchReturn
