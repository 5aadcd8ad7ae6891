-- ===== src/Multitouch/Samples.antt =====
-- Values for the witnesses: a message layout, transducers and engines.

use voodoo_i2c.Base.{replicate, ℕ, ◌%◌, true, false, [], ◌∷◌, none, some, ◌==◌, if◌then◌else◌, suc}
use voodoo_i2c.Multitouch.Transducer.{
  Transducer, MultitouchEvent, allocated, update, untracked, stylus, MultitouchReturn, break,
  continue,
}
use voodoo_i2c.Multitouch.ForceClick.{
  Reading, Preferences, clicking, force_suppressed, boolean, number, unread, other,
}
use voodoo_i2c.Multitouch.Native.{Layout, NativeEngine}
use voodoo_i2c.Multitouch.Interface.{Engine}

-- Ten slots.
abbrev pub layout : Layout
layout = record {
  max_transducers = 10;
  index_finger = 2;
  thumb = 1;
  palm = 7;
  finger_input = 1;
  stylus_input = 2;
  store_coordinate = λ n. n;
  store_width = λ n. n % 256;
  store_pressure = λ n. n % 256;
  store_buttons = λ n. n % 256;
}

-- A clock that stands at a second, and no property in the registry.
abbrev pub readings : ℕ → Reading
readings i = record { now = 1000000000; preferences = none }

abbrev pub touch : ℕ → ℕ → Transducer
touch x y = record allocated {
  coordinates = record allocated.coordinates { x = update x 1 untracked; y = update y 1 untracked };
  confidence = update 1 0 untracked;
  is_valid = true;
}

abbrev pub pen : Transducer
pen = record allocated { kind = stylus; is_valid = true }

abbrev pub pressed : Transducer
pressed = record (touch 30 40) { physical_button = update 1 1 untracked }

abbrev pub two_fingers : MultitouchEvent
two_fingers = record { contact_count = 2; transducers = pressed ∷ touch 10 90 ∷ [] }

abbrev pub idle : NativeEngine
idle = record {
  voodoo_input_instance = none;
  references = λ c. 0;
  stylus_check = 0;
  force = record { is_enabled = false; update_time = 0 };
}

abbrev pub in_use : NativeEngine
in_use = record idle { voodoo_input_instance = some 7; references = λ c. if c == 7 then 1 else 0 }

abbrev pub ns : ℕ → ℕ
ns t = t

-- Eleven contacts for ten slots.
abbrev pub crowded : MultitouchEvent
crowded = record { contact_count = 11; transducers = replicate 11 (touch 1 1) }

abbrev pub drawing : MultitouchEvent
drawing = record { contact_count = 0; transducers = pen ∷ [] }

abbrev pub tapping : Preferences
tapping = (clicking, number 1) ∷ (force_suppressed, boolean false) ∷ (unread 3, other) ∷ []

abbrev pub tapping' : Preferences
tapping' = (force_suppressed, boolean false) ∷ (unread 3, other) ∷ (clicking, number 1) ∷ []

abbrev pub plain_engine : Engine
plain_engine = record { engine_id = 1; score = 0 }

abbrev pub strong_engine : Engine
strong_engine = record { engine_id = 2; score = 9 }

-- Each engine counts its calls; the strong one keeps the report.
abbrev pub count_calls : Engine → ℕ → MultitouchReturn × ℕ
count_calls e calls = (if e.score == 9 then break else continue, suc calls)
