-- ===== src/Multitouch/Native/Outcomes.antt =====
-- What one report does: the message, its slots, and the engine after it.
use voodoo_i2c.Base.{
  ℕ, zero, suc, ◌+◌, ◌≤◌, ◌<◌, ◌≡◌, refl, sym, ap, ◌∙◌, subst, inl, inr, Bool, true, false, ◌&&◌,
  ◌||◌, Option, none, some, List, [], leb, ltb, length, get_elem?, set, replicate, arith,
  Bool-cases, if◌then◌else◌, length-replicate, get_elem?-replicate, get_elem?-below,
}
use mathlib.Core.Bool.{false≢true}
use mathlib.Core.Option.{some-injective}
use voodoo_i2c.Multitouch.Transducer.{Transducer, MultitouchEvent, continue, break, is_set}
use voodoo_i2c.Multitouch.ForceClick.{Reading}
use voodoo_i2c.Multitouch.Native.{
  Layout, InputTransducer, NativeEngine, cleared, is_valid_at, find_thumb, mark_thumb, assign_thumb,
  no_contacts, check_after, with_slots, report_to, handle_interrupt_report, MultitouchReturn, Sent,
}
use voodoo_i2c.Multitouch.Native.Thumb.{IsThumb, find_thumb-IsThumb, find_thumb-below}
use voodoo_i2c.Multitouch.Native.Slots.{
  IsFresh, count_valid, slot_after, force_at, fill_slots-IsFilled,
}

-- Four valid touches or a pressed button call for a thumb.
abbrev pub has_thumb : Transducer → List InputTransducer → Bool
has_thumb first slots = leb 4 (count_valid slots) || is_set first.physical_button

-- The slots that are sent, from the ones that the loop has filled: one of them is marked, the lowest
-- valid touch where there is a valid one.
abbrev pub IsMarked : Layout → Transducer → ℕ → List InputTransducer → List InputTransducer → Type 0
IsMarked layout first count slots slots' =
    (has_thumb first slots ≡ true
      → (k : ℕ) × (t : InputTransducer) × (get_elem? slots k ≡ some t)
        × (slots' ≡ set slots k (record t { finger_type = layout.thumb }))
        × ((i : ℕ) → i < count → is_valid_at slots i ≡ true → IsThumb slots count k))
    × (has_thumb first slots ≡ false → slots' ≡ slots)

module _ (layout : Layout) (first : Transducer) where
  mark_thumb-some :
      (slots : List InputTransducer) (k : ℕ) (t : InputTransducer)
      → get_elem? slots k ≡ some t
      → mark_thumb layout k slots ≡ some (set slots k (record t { finger_type = layout.thumb }))
  unfolding mark_thumb
  mark_thumb-some slots k t e = rw (mark_thumb, e) refl

  assign_thumb-found :
      (count : ℕ) (slots : List InputTransducer) (k : ℕ)
      → has_thumb first slots ≡ true
      → find_thumb slots count 0 0 0 ≡ some k
      → assign_thumb layout first count (count_valid slots) slots ≡ mark_thumb layout k slots
  unfolding assign_thumb
  assign_thumb-found count slots k h e = rw (assign_thumb, h, e) refl

  assign_thumb-IsMarked :
      (count : ℕ) (slots : List InputTransducer)
      → count ≤ length slots
      → 0 < length slots
      → (slots' : List InputTransducer) × (assign_thumb layout first count (count_valid slots) slots
          ≡ some slots')
        × IsMarked layout first count slots slots'
  unfolding assign_thumb
  assign_thumb-IsMarked count slots room some_slot = elim (Bool-cases (has_thumb first slots)) [
    | inl h ↦
        let (k, e, lt) = find_thumb-below slots count room some_slot in
        let (t, at_k) = get_elem?-below slots k lt in
        (
          set slots k (record t { finger_type = layout.thumb }),
          assign_thumb-found count slots k h e ∙ mark_thumb-some slots k t at_k,
          (
            λ called. (
              k,
              t,
              at_k,
              refl,
              λ i below valid.
                  let (k', e', is_thumb) = find_thumb-IsThumb slots count i room below valid in
                  subst (λ m. IsThumb slots count m) (some-injective k' k (sym e' ∙ e)) is_thumb,
            ),
            λ not_called. absurd (false≢true (sym not_called ∙ h)),
          ),
        )
    | inr h ↦
        (slots, rw (h) refl, (λ called. absurd (false≢true (sym h ∙ called)), λ not_called. refl))
  ]

from_0 : (n : ℕ) → 0 + n ≡ n
from_0 n = omega arith

below_0 : (i n : ℕ) → (leb 0 i && ltb i (0 + n)) ≡ ltb i n
below_0 i n = ground arith

replicate-IsFresh : (n j : ℕ) → is_valid_at (replicate n cleared) j ≡ false
replicate-IsFresh zero j = refl
replicate-IsFresh (suc n) zero = refl
replicate-IsFresh (suc n) (suc j) = replicate-IsFresh n j

count_valid-cleared : (n : ℕ) → count_valid (replicate n cleared) ≡ 0
count_valid-cleared zero = refl
count_valid-cleared (suc n) = omega (arith, count_valid-cleared n)

module _ (layout : Layout) (nanoseconds : ℕ → ℕ) (readings : ℕ → Reading) (event : MultitouchEvent)
    (time client : ℕ) (first : Transducer) (e : NativeEngine) where
  -- Contact i is read from the transducer with number i, or i + 1 after a stylus.
  abbrev pub check : ℕ
  check = check_after layout nanoseconds readings first e.stylus_check

  -- The slots before one of them is marked: slot i has the transducer of contact i, and every other
  -- slot is clear.
  abbrev pub IsTranslated : List InputTransducer → Type 0
  IsTranslated slots =
      (length slots ≡ layout.max_transducers)
      × ((i : ℕ)
          → i < layout.max_transducers
          → get_elem? slots i ≡ (
              if ltb i event.contact_count
              then slot_after layout nanoseconds readings event time check first e.force i
                  (some cleared)
              else some cleared))

  abbrev pub report : List InputTransducer → MultitouchReturn × List Sent × NativeEngine
  report slots =
      with_slots layout nanoseconds readings client event time first
        (force_at layout nanoseconds readings event time check first e.force event.contact_count) e
        slots

  pub handle-report_to :
      e.voodoo_input_instance ≡ some client
      → get_elem? event.transducers 0 ≡ some first
      → handle_interrupt_report layout nanoseconds readings event time e
        ≡ report_to layout nanoseconds readings client event time first e
  unfolding handle_interrupt_report
  handle-report_to opened at_0 =
      ap (λ o. elim o [ none ↦ some (continue, [], e) | some c ↦ after c ]) opened
      ∙ ap
          (λ o. elim o [
            | none ↦ some (break, [], e)
            | some f ↦ report_to layout nanoseconds readings client event time f e
          ])
          at_0
    where
      after : ℕ → Option (MultitouchReturn × List Sent × NativeEngine)
      after c = elim (get_elem? event.transducers 0) [
        | none ↦ some (break, [], e)
        | some f ↦ report_to layout nanoseconds readings c event time f e
      ]

  cleared-IsFresh : IsFresh (replicate layout.max_transducers cleared) 0
  cleared-IsFresh j h = replicate-IsFresh layout.max_transducers j

  -- An open engine given a first transducer, with no more contacts than a message has slots, which is
  -- at least one, sends one message and stops the report. The slots of it are the translated contacts,
  -- one of them marked as the thumb where there are four valid touches or the button is pressed.
  pub handle_interrupt_report-IsTranslated :
      e.voodoo_input_instance ≡ some client
      → get_elem? event.transducers 0 ≡ some first
      → event.contact_count ≤ layout.max_transducers
      → 0 < layout.max_transducers
      → (slots : List InputTransducer) × (slots' : List InputTransducer) × (handle_interrupt_report
            layout nanoseconds readings event time e
          ≡ some (report slots'))
        × IsTranslated slots
        × IsMarked layout first event.contact_count slots slots'
  unfolding report_to
  handle_interrupt_report-IsTranslated opened at_0 room some_slot =
      let (c, filled, (lengths, forces, counts, at)) =
        fill_slots-IsFilled layout nanoseconds readings event time check first e.force
          event.contact_count 0 (no_contacts layout nanoseconds readings e.force)
          (rw (length-replicate layout.max_transducers cleared) (omega arith))
          (refl, sym (count_valid-cleared layout.max_transducers), cleared-IsFresh) in
      let same_length = lengths ∙ length-replicate layout.max_transducers cleared in
      let (slots', marked, is_marked) =
        assign_thumb-IsMarked layout first event.contact_count c.slots (rw (same_length) room)
          (rw (same_length) some_slot) in
      (
        c.slots,
        slots',
        handle-report_to opened at_0
            ∙ rw (report_to, filled, counts, marked)
                (ap
                  (λ f.
                    some
                      (with_slots layout nanoseconds readings client event time first f e slots'))
                  (forces
                    ∙ ap (force_at layout nanoseconds readings event time check first e.force)
                        (from_0 event.contact_count))),
        (
          same_length,
          λ i lt.
              at i
              ∙ rw (get_elem?-replicate layout.max_transducers i cleared lt)
                  (rw (below_0 i event.contact_count) refl),
        ),
        is_marked,
      )
