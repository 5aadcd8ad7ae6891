-- ===== src/Multitouch/Native.antt =====
-- "Multitouch Support/Native/VoodooI2CNativeEngine.cpp": the engine that hands reports to VoodooInput.
pub mod Clients
pub mod Thumb
pub mod Slots
pub mod Outcomes
pub mod Overrun
pub mod Offset
pub use voodoo_i2c.Multitouch.Contacts.{is_finger, is_stylus, Contacts, is_valid_at}
unfoldable pub use voodoo_i2c.Multitouch.Contacts.{
  find_thumb, translate, emulate, mark_thumb, assign_thumb,
}
pub use voodoo_i2c.Multitouch.Message.{
  Layout, TouchCoordinates, InputTransducer, cleared, Sent, input_event, relative_pointer,
  update_properties,
}
use voodoo_i2c.Base.{
  ℕ, zero, suc, ◌+◌, ◌-◌, ◌/◌, ◌%◌, Bool, true, false, not, ◌&&◌, ◌||◌, Option, none, some, List,
  [], ◌∷◌, ltb, leb, length, get_elem?, set, replicate, if◌then◌else◌, ◌==◌,
}
use voodoo_i2c.Multitouch.Transducer.{
  Transducer, MultitouchEvent, MultitouchReturn, continue, break, TransducerType, finger, stylus,
  puck, value_of, last_of, is_set,
}
use voodoo_i2c.Multitouch.ForceClick.{Reading, ForceClick, is_force_click_enabled}

-- A client is a number that names it. `references` counts the references that the engine has taken
-- on each client and not given back.
pub record NativeEngine : Type 0 where
  pub voodoo_input_instance : Option ℕ
  pub references : ℕ → ℕ
  pub stylus_check : ℕ
  pub force : ForceClick

module _ (layout : Layout) (nanoseconds : ℕ → ℕ) (readings : ℕ → Reading) where
  abbrev pub has_single_press : Transducer → Bool
  has_single_press first = not first.has_secondary_button && is_set first.physical_button

  -- `readings i` is what the clock and the registry say while contact i is translated.
  unfoldable pub translate_contact :
      ℕ → ℕ → Transducer → Transducer → ForceClick → InputTransducer × ForceClick
  translate_contact i time first t f =
      let (is_enabled, f₁) = is_force_click_enabled nanoseconds (readings i) f in
      if has_single_press first
      then (
        (if is_enabled
            then emulate layout (translate layout i time t)
            else translate layout i time t),
        f₁,
      )
      else (translate layout i time t, f)

  -- A slot behind the end of the array is `none`: the source writes there all the same.
  unfoldable pub fill_slot : ℕ → ℕ → Transducer → Transducer → Contacts → Option Contacts
  fill_slot i time first t c =
      let (input, f) = translate_contact i time first t c.force_click in
      if ltb i (length c.slots)
      then some (record {
        slots = set c.slots i input;
        valid_touch_count = if t.is_valid then suc c.valid_touch_count else c.valid_touch_count;
        force_click = f;
      })
      else none

  -- The first loop, for n contacts from the one with number i on.
  unfoldable pub fill_slots :
      MultitouchEvent → ℕ → ℕ → Transducer → ℕ → ℕ → Contacts → Option Contacts
  fill_slots event time check first zero i c = some c
  fill_slots event time check first (suc n) i c = elim (get_elem? event.transducers (i + check)) [
    | none ↦ fill_slots event time check first n (suc i) c
    | some t ↦ elim (fill_slot i time first t c) [
      | none ↦ none
      | some c₁ ↦ fill_slots event time check first n (suc i) c₁
    ]
  ]

  abbrev pub no_contacts : ForceClick → Contacts
  no_contacts f = record {
    slots = replicate layout.max_transducers cleared;
    valid_touch_count = 0;
    force_click = f;
  }

  -- `if (firstTransducer->type == kDigitiserTransducerStylus) stylus_check = 1`
  abbrev pub check_after : Transducer → ℕ → ℕ
  check_after first check = if is_stylus first.kind then 1 else check

  -- The buttons of a trackpoint, for a trackpad with two.
  abbrev pub pointer_events : ℕ → ℕ → Transducer → List Sent
  pointer_events client time first =
      if first.has_secondary_button
      then relative_pointer client (layout.store_buttons (value_of first.physical_button)) time ∷ []
      else []

  abbrev pub Outcome : Type 0
  Outcome = MultitouchReturn × List Sent × NativeEngine

  abbrev pub with_slots :
      ℕ
      → MultitouchEvent
      → ℕ
      → Transducer
      → ForceClick
      → NativeEngine
      → List InputTransducer
      → Outcome
  with_slots client event time first f e slots = (
    break,
    input_event client time event.contact_count slots ∷ pointer_events client time first,
    record e { stylus_check = check_after first e.stylus_check; force = f },
  )

  unfoldable pub report_to : ℕ → MultitouchEvent → ℕ → Transducer → NativeEngine → Option Outcome
  report_to client event time first e =
      elim (fill_slots event time (check_after first e.stylus_check) first event.contact_count 0
        (no_contacts e.force)) [
          | none ↦ none
          | some c ↦
              elim (assign_thumb layout first event.contact_count c.valid_touch_count c.slots) [
                | none ↦ none
                | some slots ↦ some (with_slots client event time first c.force_click e slots)
              ]
        ]

  unfoldable pub handle_interrupt_report : MultitouchEvent → ℕ → NativeEngine → Option Outcome
  handle_interrupt_report event time e = elim e.voodoo_input_instance [
    | none ↦ some (continue, [], e)
    | some client ↦ elim (get_elem? event.transducers 0) [
      | none ↦ some (break, [], e)
      | some first ↦ report_to client event time first e
    ]
  ]

-- `start`: its checks of the provider are the Booleans of the base class and of the cast. The
-- properties that it sets are the interface's sizes.
unfoldable pub start : Bool → Bool → NativeEngine → Bool × NativeEngine
start super_starts is_interface e =
    if not super_starts
    then (false, e)
    else if not is_interface
    then (false, e)
    else (true, record e { voodoo_input_instance = none; stylus_check = 0 })

unfoldable pub on_property_change : NativeEngine → List Sent
on_property_change e = elim e.voodoo_input_instance [
  | none ↦ []
  | some client ↦ update_properties client ∷ []
]

-- The Boolean says whether the client has the property that marks VoodooInput. No client is `none`.
unfoldable pub handle_open : Option (ℕ × Bool) → NativeEngine → Bool × NativeEngine
handle_open none e = (false, e)
handle_open (some (client, is_marked)) e =
    if is_marked
    then (
      true,
      record e {
        voodoo_input_instance = some client;
        references = λ c. if c == client then suc (e.references c) else e.references c;
      },
    )
    else (false, e)

unfoldable pub handle_is_open : ℕ → NativeEngine → Bool
handle_is_open client e = elim e.voodoo_input_instance [ none ↦ false | some c ↦ client == c ]

unfoldable pub handle_close : ℕ → NativeEngine → NativeEngine
handle_close client e =
    if handle_is_open client e
    then record e {
      voodoo_input_instance = none;
      references = λ c. if c == client then e.references c - 1 else e.references c;
    }
    else e
