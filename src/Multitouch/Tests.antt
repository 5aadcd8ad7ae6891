-- ===== src/Multitouch/Tests.antt =====
-- Reports and engines with concrete values.

use voodoo_i2c.Base.{◌≤◌, ◌≡◌, ◌≢◌, refl, ◌⊎◌, ◌↔◌, true, List, [], ◌∷◌, ◌++◌, none, some, arith}
use voodoo_i2c.Multitouch.ForceClick.{Key, clicking, force_suppressed, unread, read_preferences}
use voodoo_i2c.Multitouch.ForceClick.Preferences.{get_object, read_preferences-unordered}
use voodoo_i2c.Multitouch.ForceClick.Stale.{ask, ask-stale}
use voodoo_i2c.Multitouch.Native.{
  NativeEngine, InputTransducer, handle_interrupt_report, handle_open, handle_close, report_to,
  fill_slots, fill_slot, assign_thumb, translate_contact, find_thumb, mark_thumb,
}
use voodoo_i2c.Multitouch.Native.Outcomes.{
  IsTranslated, IsMarked, report, handle_interrupt_report-IsTranslated,
}
use voodoo_i2c.Multitouch.Native.Overrun.{handle_interrupt_report-overrun}
use voodoo_i2c.Multitouch.Native.Offset.{SendsShifted, handle_all-SendsShifted}
use voodoo_i2c.Multitouch.Native.Clients.{
  here, further, open_step, close_step, HoldsClient, Reachable-HoldsClient,
}
use voodoo_i2c.Multitouch.Interface.{Engine, OrderedSet, start_engine, will_terminate}
use voodoo_i2c.Multitouch.Interface as interface
use voodoo_i2c.Multitouch.Interface.Dispatch.{Served, handle_interrupt_report-Served}
use voodoo_i2c.Multitouch.Interface.Membership.{will_terminate-start_engine}
use voodoo_i2c.Multitouch.Interface.Listed.{listed}
use voodoo_i2c.Multitouch.Samples.{
  layout, readings, touch, pen, pressed, two_fingers, idle, in_use, ns, crowded, drawing, tapping,
  tapping', plain_engine, strong_engine, count_calls,
}
use mathlib.Core.List.{Memᴰ}

handle_interrupt_report-IsTranslated_example :
    (slots : List InputTransducer) × (slots' : List InputTransducer) × (handle_interrupt_report
        layout ns readings two_fingers 5 in_use
      ≡ some (report layout ns readings two_fingers 5 7 pressed in_use slots'))
    × IsTranslated layout ns readings two_fingers 5 7 pressed in_use slots
    × IsMarked layout pressed 2 slots slots'
handle_interrupt_report-IsTranslated_example =
    handle_interrupt_report-IsTranslated layout ns readings two_fingers 5 7 pressed in_use refl refl
      (omega arith) (omega arith)

handle_interrupt_report-overrun_example :
    handle_interrupt_report layout ns readings crowded 5 in_use ≡ none
handle_interrupt_report-overrun_example =
    handle_interrupt_report-overrun layout ns readings crowded 5 7 (touch 1 1) in_use (touch 1 1)
      refl refl (omega arith) refl

abbrev in_use_after : NativeEngine
in_use_after = record in_use { stylus_check = 1 }

-- Two fingers after the pen.
handle_all-SendsShifted_example :
    SendsShifted layout ns (two_fingers, 6, readings) 7 pressed in_use_after
unfolding handle_interrupt_report report_to fill_slots fill_slot assign_thumb translate_contact
    find_thumb mark_thumb
handle_all-SendsShifted_example =
    handle_all-SendsShifted layout ns drawing 5 readings [] (two_fingers, 6, readings) 7 7 pen
      pressed in_use in_use_after refl refl refl refl refl refl (omega arith) (omega arith)

-- Client 8 opens the engine that client 7 has, and client 7 closes it, which is not its any more.
Reachable-HoldsClient_example :
    HoldsClient
      (handle_close 7 (handle_open (some (8, true)) (handle_open (some (7, true)) idle).1).1)
Reachable-HoldsClient_example = Reachable-HoldsClient {e = idle} refl (
    further
      (further (further here (open_step idle (some (7, true)))) (open_step _ (some (8, true))))
      (close_step _ 7))

read_preferences-unordered_example : read_preferences tapping true ≡ read_preferences tapping' true
read_preferences-unordered_example =
    read_preferences-unordered tapping tapping' true (refl, (refl, (refl, tt)))
      (refl, (refl, (refl, tt))) same_entries
  where
    same_entries : (k : Key) → get_object k tapping ≡ get_object k tapping'
    same_entries clicking = refl
    same_entries force_suppressed = refl
    same_entries (unread n) = refl

ask-stale_example :
    (ask ns
      (readings 0 ∷ readings 1 ∷ [])
      (record { is_enabled = true; update_time = 1000000000 })).0
    ≡ true ∷ true ∷ []
ask-stale_example =
    ask-stale ns (readings 0 ∷ readings 1 ∷ [])
      (record { is_enabled = true; update_time = 1000000000 }) (refl, (refl, tt))

abbrev engines : listed.Engines
engines = listed.set_object strong_engine (listed.set_object plain_engine listed.with_capacity)

handle_interrupt_report-Served_example :
    (rest : List Engine) × ((interface.handle_interrupt_report listed count_calls engines 0).0
        ++ rest
      ≡ listed.objects engines)
    × Served count_calls
        (interface.handle_interrupt_report listed count_calls engines 0).0
        rest
        0
        (interface.handle_interrupt_report listed count_calls engines 0).1
    × ((a : Engine)
        → Memᴰ a (interface.handle_interrupt_report listed count_calls engines 0).0
        → (b : Engine) → Memᴰ b rest
        → b.score ≤ a.score)
handle_interrupt_report-Served_example = handle_interrupt_report-Served listed count_calls engines 0

will_terminate-start_engine_example :
    (s₁ : listed.Engines) × (start_engine listed true plain_engine (some engines) ≡ (true, some s₁))
    × ((b : Engine)
        → Memᴰ b (listed.objects s₁) ↔ ((b ≡ plain_engine) ⊎ Memᴰ b (listed.objects engines)))
    × ((b : Engine)
        → Memᴰ b (listed.objects (will_terminate listed plain_engine s₁))
          ↔ ((b ≢ plain_engine) × Memᴰ b (listed.objects engines)))
will_terminate-start_engine_example = will_terminate-start_engine listed plain_engine engines
