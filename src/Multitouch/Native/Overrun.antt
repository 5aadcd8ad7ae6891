-- ===== src/Multitouch/Native/Overrun.antt =====
-- A report of more contacts than a message has slots.
use voodoo_i2c.Base.{
  ℕ, zero, suc, ◌+◌, ◌≤◌, ◌<◌, ◌≡◌, refl, sym, ◌∙◌, subst, ◌⊎◌, inl, inr, false, none, some, ltb,
  length, get_elem?, arith, Option-cases, length-set, length-replicate,
}
use voodoo_i2c.Multitouch.Transducer.{Transducer, MultitouchEvent}
use voodoo_i2c.Multitouch.ForceClick.{Reading}
use voodoo_i2c.Multitouch.Native.{
  Layout, NativeEngine, Contacts, cleared, no_contacts, translate_contact, fill_slot, fill_slots,
  report_to, handle_interrupt_report,
}
use voodoo_i2c.Multitouch.Native.Slots.{after_slot, fill_slot-after_slot}
use voodoo_i2c.Multitouch.Native.Outcomes.{check, handle-report_to}

module _ (layout : Layout) (nanoseconds : ℕ → ℕ) (readings : ℕ → Reading) (event : MultitouchEvent)
    (time check_at : ℕ) (first : Transducer) where
  fill_slot-outside :
      (i : ℕ) (t : Transducer) (c : Contacts)
      → ltb i (length c.slots) ≡ false
      → fill_slot layout nanoseconds readings i time first t c ≡ none
  unfolding fill_slot
  fill_slot-outside i t c h = rw (fill_slot, h) refl

  at_end : (i n : ℕ) → i ≤ n → (ltb i n ≡ false × (i ≡ n)) ⊎ (i < n)
  at_end i n h = ground arith

  fill_slots-outside :
      (n i : ℕ) (c : Contacts) (t : Transducer)
      → i ≤ length c.slots
      → length c.slots < i + n
      → get_elem? event.transducers (length c.slots + check_at) ≡ some t
      → fill_slots layout nanoseconds readings event time check_at first n i c ≡ none
  unfolding fill_slots after_slot
  fill_slots-outside zero i c t below above at = absurd (omega (arith, below, above))
  fill_slots-outside (suc n) i c t below above at = elim (at_end i (length c.slots) below) [
    | inl (h, e) ↦
        let at_i = subst (λ m. get_elem? event.transducers (m + check_at) ≡ some t) (sym e) at in
        rw (fill_slots, at_i, fill_slot-outside i t c h) refl
    | inr lt ↦ elim (Option-cases (get_elem? event.transducers (i + check_at))) [
      | inl missing ↦
          rw (fill_slots, missing) (fill_slots-outside n (suc i) c t (omega arith) (omega arith) at)
      | inr (u, found) ↦
          let same =
            length-set c.slots i
              (translate_contact layout nanoseconds readings i time first u c.force_click).0 in
          rw
            (
              fill_slots,
              found,
              fill_slot-after_slot layout nanoseconds readings event time check_at first i u c lt,
            )
            (fill_slots-outside n (suc i)
              (after_slot layout nanoseconds readings event time check_at first i u c) t
              (rw (same) (omega arith)) (rw (same) (omega arith)) (rw (same) at))
    ]
  ]

module _ (layout : Layout) (nanoseconds : ℕ → ℕ) (readings : ℕ → Reading) (event : MultitouchEvent)
    (time client : ℕ) (first : Transducer) (e : NativeEngine) where
  -- An open engine given a report of more contacts than a message has slots, where there is a
  -- transducer for the first of those too many, writes behind the end of the message.
  pub handle_interrupt_report-overrun :
      (t : Transducer)
      → e.voodoo_input_instance ≡ some client
      → get_elem? event.transducers 0 ≡ some first
      → layout.max_transducers < event.contact_count
      → get_elem? event.transducers
          (layout.max_transducers + check layout nanoseconds readings event time client first e)
        ≡ some t
      → handle_interrupt_report layout nanoseconds readings event time e ≡ none
  unfolding report_to
  handle_interrupt_report-overrun t opened at_0 above at =
      let size = length-replicate layout.max_transducers cleared in
      handle-report_to layout nanoseconds readings event time client first e opened at_0
      ∙ rw
          (
            report_to,
            fill_slots-outside layout nanoseconds readings event time
                (check layout nanoseconds readings event time client first e) first
                event.contact_count 0 (no_contacts layout nanoseconds readings e.force) t
                (omega arith) (rw (size) (omega arith)) (rw (size) at),
          )
          refl
