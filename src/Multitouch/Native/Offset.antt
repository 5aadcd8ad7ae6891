-- ===== src/Multitouch/Native/Offset.antt =====
-- The offset between contacts and transducers, over any number of reports.
use voodoo_i2c.Base.{
  ℕ, ◌≡◌, refl, subst, Option, none, some, List, [], ◌∷◌, inl, inr, if_both, Option-cases,
  get_elem?, ◌+◌, ◌<◌, ◌≤◌, ap, ◌∙◌, arith, lt→ltb,
}
use mathlib.Core.Option.{none-ne-some, some-injective}
use voodoo_i2c.Multitouch.Transducer.{
  Transducer, MultitouchEvent, MultitouchReturn, continue, break,
}
use voodoo_i2c.Multitouch.Native.Outcomes.{
  handle-report_to, check, report, IsMarked, handle_interrupt_report-IsTranslated,
}
use voodoo_i2c.Multitouch.Native.Slots.{slot_after, force_at}
use voodoo_i2c.Multitouch.ForceClick.{Reading}
use voodoo_i2c.Multitouch.Native.{
  Layout, NativeEngine, Sent, no_contacts, check_after, fill_slots, assign_thumb, is_stylus,
  report_to, handle_interrupt_report, stylus, InputTransducer, cleared, translate_contact,
}

-- A report, with its time and what the clock and the registry say meanwhile.
abbrev pub Report : Type 0
Report = MultitouchEvent × ℕ × (ℕ → Reading)

module _ (layout : Layout) (nanoseconds : ℕ → ℕ) where
  abbrev pub handle_all : List Report → NativeEngine → Option NativeEngine
  handle_all [] e = some e
  handle_all ((event, time, readings) ∷ rest) e =
      elim (handle_interrupt_report layout nanoseconds readings event time e) [
        | none ↦ none
        | some (result, sent, e') ↦ handle_all rest e'
      ]

  -- The engine after a report, where there is one, reads contact i from transducer i + 1.
  abbrev IsShifted : Option (MultitouchReturn × List Sent × NativeEngine) → Type 0
  IsShifted none = Unit {0}
  IsShifted (some (result, sent, e)) = e.stylus_check ≡ 1

  module _ (readings : ℕ → Reading) (event : MultitouchEvent) (time : ℕ) (e : NativeEngine) where
    report_to-IsShifted :
        (client : ℕ) (first : Transducer)
        → check_after layout nanoseconds readings first e.stylus_check ≡ 1
        → IsShifted (report_to layout nanoseconds readings client event time first e)
    unfolding report_to
    report_to-IsShifted client first h =
        elim (Option-cases (
          fill_slots layout nanoseconds readings event time
            (check_after layout nanoseconds readings first e.stylus_check) first event.contact_count
            0 (no_contacts layout nanoseconds readings e.force))) [
              | inl failed ↦ rw (report_to, failed) tt
              | inr (c, filled) ↦
                  elim (Option-cases
                    (assign_thumb layout first event.contact_count c.valid_touch_count c.slots)) [
                      | inl failed ↦ rw (report_to, filled, failed) tt
                      | inr (slots, marked) ↦ rw (report_to, filled, marked) h
                    ]
            ]

    handle-IsShifted :
        e.stylus_check ≡ 1
        → IsShifted (handle_interrupt_report layout nanoseconds readings event time e)
    unfolding handle_interrupt_report
    handle-IsShifted h = by_instance e.voodoo_input_instance (get_elem? event.transducers 0)
      where
        by_instance :
            (o : Option ℕ) (f : Option Transducer)
            → IsShifted (elim o [
              | none ↦ some (continue, [], e)
              | some client ↦ elim f [
                | none ↦ some (break, [], e)
                | some first ↦ report_to layout nanoseconds readings client event time first e
              ]
            ])
        by_instance none f = h
        by_instance (some client) none = h
        by_instance (some client) (some first) =
            report_to-IsShifted client first
              (if_both {A = ℕ} (λ v. v ≡ 1) (is_stylus first.kind) refl h)

  -- What holds of the engine after a report, and of whatever is done with it then.
  after-IsShifted :
      (o : Option (MultitouchReturn × List Sent × NativeEngine))
      (next : NativeEngine → Option NativeEngine) (e' : NativeEngine)
      → ((e : NativeEngine) → e.stylus_check ≡ 1 → next e ≡ some e' → e'.stylus_check ≡ 1)
      → IsShifted o
      → elim o [ none ↦ none | some (result, sent, e) ↦ next e ] ≡ some e'
      → e'.stylus_check ≡ 1
  after-IsShifted none next e' keeps h absent = absurd (none-ne-some e' absent)
  after-IsShifted (some (result, sent, e)) next e' keeps h done = keeps e h done

  handle_all-keeps :
      (reports : List Report) (e e' : NativeEngine)
      → e.stylus_check ≡ 1
      → handle_all reports e ≡ some e'
      → e'.stylus_check ≡ 1
  handle_all-keeps [] e e' h done = subst (λ x. x.stylus_check ≡ 1) (some-injective e e' done) h
  handle_all-keeps ((event, time, readings) ∷ rest) e e' h done =
      after-IsShifted (handle_interrupt_report layout nanoseconds readings event time e)
        (handle_all rest) e' (λ e₁. handle_all-keeps rest e₁ e')
        (handle-IsShifted readings event time e h) done

  -- From the first report that a stylus leads on, an open engine looks for contact i behind the
  -- transducer with number i, whatever leads the reports after it.
  handle_all-shifted :
      (event : MultitouchEvent) (time : ℕ) (readings : ℕ → Reading) (rest : List Report)
      (client : ℕ) (first : Transducer) (e e' : NativeEngine)
      → e.voodoo_input_instance ≡ some client
      → get_elem? event.transducers 0 ≡ some first
      → first.kind ≡ stylus
      → handle_all ((event, time, readings) ∷ rest) e ≡ some e'
      → e'.stylus_check ≡ 1
  handle_all-shifted event time readings rest client first e e' opened at_0 led done =
      after-IsShifted (report_to layout nanoseconds readings client event time first e)
        (handle_all rest) e' (λ e₁. handle_all-keeps rest e₁ e')
        (report_to-IsShifted readings event time e client first (rw (led) refl))
        (subst
          (λ o. elim o [ none ↦ none | some (result, sent, e₁) ↦ handle_all rest e₁ ] ≡ some e')
          (handle-report_to layout nanoseconds readings event time client first e opened at_0) done)

  -- A report sends one message, slot i of which, before a thumb is marked, has the transducer with
  -- number i + 1 for each contact i, or is clear where there is no such transducer.
  abbrev pub SendsShifted :
      (MultitouchEvent × ℕ × (ℕ → Reading)) → ℕ → Transducer → NativeEngine → Type 0
  SendsShifted (event, time, readings) client first e =
      (slots : List InputTransducer) × (slots' : List InputTransducer) × (handle_interrupt_report
          layout nanoseconds readings event time e
        ≡ some (report layout nanoseconds readings event time client first e slots'))
      × ((i : ℕ)
          → i < event.contact_count
          → get_elem? slots i ≡ elim (get_elem? event.transducers (i + 1)) [
            | none ↦ some cleared
            | some t ↦
                some
                  (translate_contact layout nanoseconds readings i time first t
                    (force_at layout nanoseconds readings event time 1 first e.force i)).0
          ])
      × IsMarked layout first event.contact_count slots slots'

  -- Once a stylus has led a report, and whatever leads the reports after it, the next report of an
  -- open engine, with no more contacts than a message has slots, sends each contact from the
  -- transducer behind its own.
  pub handle_all-SendsShifted :
      (event : MultitouchEvent) (time : ℕ) (readings : ℕ → Reading) (rest : List Report)
      (next : Report) (client client' : ℕ) (first first' : Transducer) (e e' : NativeEngine)
      → e.voodoo_input_instance ≡ some client
      → get_elem? event.transducers 0 ≡ some first
      → first.kind ≡ stylus
      → handle_all ((event, time, readings) ∷ rest) e ≡ some e'
      → e'.voodoo_input_instance ≡ some client'
      → get_elem? next.0.transducers 0 ≡ some first'
      → next.0.contact_count ≤ layout.max_transducers
      → 0 < layout.max_transducers
      → SendsShifted next client' first' e'
  handle_all-SendsShifted event time readings rest (event', time', readings') client client' first
        first' e e' opened at_0 led done opened' at_0' room some_slot =
      let shifted =
        handle_all-shifted event time readings rest client first e e' opened at_0 led done in
      let one : check layout nanoseconds readings' event' time' client' first' e' ≡ 1 =
        if_both {A = ℕ} (λ v. v ≡ 1) (is_stylus first'.kind) refl shifted in
      let (slots, slots', sends, (lengths, at), marked) =
        handle_interrupt_report-IsTranslated layout nanoseconds readings' event' time' client'
          first' e' opened' at_0' room some_slot in
      (
        slots,
        slots',
        sends,
        λ i below.
            at i (omega (arith, below, room))
            ∙ rw (lt→ltb i event'.contact_count below) (
                ap
                  (λ k.
                    slot_after layout nanoseconds readings' event' time' k first' e'.force i
                      (some cleared))
                  one),
        marked,
      )
