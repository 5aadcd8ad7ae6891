-- ===== src/Multitouch/Contacts.antt =====
-- The contacts of a report in "Multitouch Support/Native/VoodooI2CNativeEngine.cpp": what is stored of
-- each, and which is marked as the thumb.
use voodoo_i2c.Base.{
  ℕ, zero, suc, ◌+◌, ◌/◌, ◌%◌, Bool, true, false, not, ◌&&◌, ◌||◌, Option, none, some, List, leb,
  get_elem?, set, if◌then◌else◌,
}
use voodoo_i2c.Multitouch.Message.{Layout, InputTransducer}
use voodoo_i2c.Multitouch.Transducer.{
  Transducer, TransducerType, finger, stylus, puck, value_of, last_of, is_set,
}
use voodoo_i2c.Multitouch.ForceClick.{ForceClick}

abbrev pub is_finger : TransducerType → Bool
is_finger finger = true
is_finger stylus = false
is_finger puck = false

abbrev pub is_stylus : TransducerType → Bool
is_stylus finger = false
is_stylus stylus = true
is_stylus puck = false

-- The slots filled so far.
pub record Contacts : Type 0 where
  pub slots : List InputTransducer
  pub valid_touch_count : ℕ
  pub force_click : ForceClick

abbrev pub is_valid_at : List InputTransducer → ℕ → Bool
is_valid_at slots i = elim (get_elem? slots i) [ none ↦ false | some t ↦ t.is_valid_input ]

-- The second loop. It is `none` where it reads behind the end of the array.
unfoldable pub find_thumb : List InputTransducer → ℕ → ℕ → ℕ → ℕ → Option ℕ
find_thumb slots zero i y_max thumb_index = some thumb_index
find_thumb slots (suc n) i y_max thumb_index = elim (get_elem? slots i) [
  | none ↦ none
  | some t ↦
      if t.is_valid_input && leb y_max t.current_coordinates.touch_y
      then find_thumb slots n (suc i) t.current_coordinates.touch_y i
      else find_thumb slots n (suc i) y_max thumb_index
]

module _ (layout : Layout) where
  -- The slot of contact i, before the emulation of Force Touch.
  unfoldable pub translate : ℕ → ℕ → Transducer → InputTransducer
  translate i time t = record {
    input_id = t.secondary_id;
    finger_type = if is_set t.confidence then layout.index_finger + i % 4 else layout.palm;
    input_type = if is_finger t.kind then layout.finger_input else layout.stylus_input;
    is_active = is_set t.tip_switch;
    is_button_down = not t.has_secondary_button && is_set t.physical_button;
    is_valid_input = t.is_valid;
    supports_pressure = false;
    current_coordinates = record {
      touch_x = layout.store_coordinate (value_of t.coordinates.x);
      touch_y = layout.store_coordinate (value_of t.coordinates.y);
      touch_pressure = layout.store_pressure (value_of t.tip_pressure);
      touch_width = layout.store_width (value_of t.tip_pressure / 2);
    };
    previous_coordinates = record {
      touch_x = layout.store_coordinate (last_of t.coordinates.x);
      touch_y = layout.store_coordinate (last_of t.coordinates.y);
      touch_pressure = layout.store_pressure (last_of t.tip_pressure);
      touch_width = layout.store_width (last_of t.tip_pressure / 2);
    };
    input_time = time;
  }

  unfoldable pub emulate : InputTransducer → InputTransducer
  emulate t = record t {
    supports_pressure = true;
    is_button_down = false;
    current_coordinates = record t.current_coordinates {
      touch_pressure = layout.store_pressure 0xff;
      touch_width = layout.store_width 10;
    };
  }

  unfoldable pub mark_thumb : ℕ → List InputTransducer → Option (List InputTransducer)
  mark_thumb i slots = elim (get_elem? slots i) [
    | none ↦ none
    | some t ↦ some (set slots i (record t { finger_type = layout.thumb }))
  ]

  -- The part of the report from `if (valid_touch_count >= 4` up to the message.
  unfoldable pub assign_thumb :
      Transducer → ℕ → ℕ → List InputTransducer → Option (List InputTransducer)
  assign_thumb first contact_count valid_count slots =
      if leb 4 valid_count || is_set first.physical_button
      then elim (find_thumb slots contact_count 0 0 0) [
        | none ↦ none
        | some thumb_index ↦ mark_thumb thumb_index slots
      ]
      else some slots
