-- ===== src/Multitouch/Native/Slots.antt =====
-- The slots of a message after the loop over the contacts.
use voodoo_i2c.Base.{
  ℕ, zero, suc, ◌+◌, ◌≤◌, ◌<◌, ◌≡◌, refl, sym, ap, ◌∙◌, subst, ◌⊎◌, inl, inr, Bool, true, false,
  ◌&&◌, Option, none, some, List, [], ◌∷◌, leb, ltb, length, get_elem?, set, arith, Option-cases,
  if◌then◌else◌, if_both, ◌≢◌, lt→ltb, length-set, get_elem?-set_self, get_elem?-set_ne,
}
use voodoo_i2c.Multitouch.Transducer.{Transducer, MultitouchEvent}
use voodoo_i2c.Multitouch.ForceClick.{Reading, ForceClick, is_force_click_enabled}
use voodoo_i2c.Multitouch.Native.{
  Layout, InputTransducer, Contacts, is_valid_at, translate, emulate, translate_contact,
  has_single_press, fill_slot, fill_slots,
}

abbrev pub count_valid : List InputTransducer → ℕ
count_valid [] = 0
count_valid (t ∷ ts) = (if t.is_valid_input then 1 else 0) + count_valid ts

-- Nothing has been put into the slots from i on.
abbrev pub IsFresh : List InputTransducer → ℕ → Type 0
IsFresh slots i = (j : ℕ) → i ≤ j → is_valid_at slots j ≡ false

count_valid-set :
    (slots : List InputTransducer) (i : ℕ) (t : InputTransducer)
    → i < length slots
    → is_valid_at slots i ≡ false
    → count_valid (set slots i t) ≡ count_valid slots + (if t.is_valid_input then 1 else 0)
count_valid-set [] i t h fresh = elim h [ ]
count_valid-set (s ∷ ss) zero t h fresh = rw (fresh) (omega arith)
count_valid-set (s ∷ ss) (suc i) t h fresh =
    omega (arith, count_valid-set ss i t (omega arith) fresh)

same_or_not : (i j : ℕ) → (i ≡ j) ⊎ (i ≢ j)
same_or_not i j = ground arith

tests_agree :
    (i n j : ℕ) → i ≢ j → (leb (suc i) j && ltb j (suc i + n)) ≡ (leb i j && ltb j (i + suc n))
tests_agree i n j ne = ground arith

outside : (i n : ℕ) → (leb (suc i) i && ltb i (suc i + n)) ≡ false
outside i n = ground arith

empty : (i j : ℕ) → (leb i j && ltb j (i + 0)) ≡ false
empty i j = ground arith

bump : (b : Bool) (n m : ℕ) → n ≡ m → (if b then suc n else n) ≡ m + (if b then 1 else 0)
bump true n m e = omega arith
bump false n m e = omega arith

inside : (i n : ℕ) → (leb i i && ltb i (i + suc n)) ≡ true
inside i n = ground arith

module _ (layout : Layout) (nanoseconds : ℕ → ℕ) (readings : ℕ → Reading) (event : MultitouchEvent)
    (time check : ℕ) (first : Transducer) where
  -- The state of the preferences when contact i is looked at, from the one at the start.
  abbrev pub force_at : ForceClick → ℕ → ForceClick
  force_at f zero = f
  force_at f (suc i) = elim (get_elem? event.transducers (i + check)) [
    | none ↦ force_at f i
    | some t ↦ (translate_contact layout nanoseconds readings i time first t (force_at f i)).1
  ]

  -- Slot i of the message: the transducer of contact i, or what was there where there is none.
  abbrev pub slot_after : ForceClick → ℕ → Option InputTransducer → Option InputTransducer
  slot_after f i before = elim (get_elem? event.transducers (i + check)) [
    | none ↦ before
    | some t ↦ some (translate_contact layout nanoseconds readings i time first t (force_at f i)).0
  ]

  -- Contacts i to i + n have been put into their slots, and no other slot has changed.
  abbrev pub IsFilled : ForceClick → ℕ → ℕ → Contacts → Contacts → Type 0
  IsFilled f i n c c' =
      (length c'.slots ≡ length c.slots)
      × (c'.force_click ≡ force_at f (i + n))
      × (c'.valid_touch_count ≡ count_valid c'.slots)
      × ((j : ℕ)
          → get_elem? c'.slots j ≡ (
              if leb i j && ltb j (i + n)
              then slot_after f j (get_elem? c.slots j)
              else get_elem? c.slots j))

  unfoldable pub after_slot : ℕ → Transducer → Contacts → Contacts
  after_slot i t c =
      let (input, f) = translate_contact layout nanoseconds readings i time first t c.force_click in
      record {
        slots = set c.slots i input;
        valid_touch_count = if t.is_valid then suc c.valid_touch_count else c.valid_touch_count;
        force_click = f;
      }

  pub fill_slot-after_slot :
      (i : ℕ) (t : Transducer) (c : Contacts)
      → i < length c.slots
      → fill_slot layout nanoseconds readings i time first t c ≡ some (after_slot i t c)
  unfolding fill_slot after_slot
  fill_slot-after_slot i t c h = rw (lt→ltb i _ h) refl

  translate_contact-valid :
      (i : ℕ) (t : Transducer) (f : ForceClick)
      → (translate_contact layout nanoseconds readings i time first t f).0.is_valid_input
        ≡ t.is_valid
  unfolding translate_contact translate emulate
  translate_contact-valid i t f =
      if_both {A = InputTransducer × ForceClick} (λ r. r.0.is_valid_input ≡ t.is_valid)
        (has_single_press layout nanoseconds readings first)
        (if_both {A = InputTransducer} (λ r. r.is_valid_input ≡ t.is_valid)
          (is_force_click_enabled nanoseconds (readings i) f).0 refl refl)
        refl

  -- One step of the loop, and the rest of it.
  widen :
      (f : ForceClick) (i n : ℕ) (c c₁ c' : Contacts)
      → length c₁.slots ≡ length c.slots
      → get_elem? c₁.slots i ≡ slot_after f i (get_elem? c.slots i)
      → ((j : ℕ) → i ≢ j → get_elem? c₁.slots j ≡ get_elem? c.slots j)
      → IsFilled f (suc i) n c₁ c'
      → IsFilled f i (suc n) c c'
  widen f i n c c₁ c' same_length at_i elsewhere (lengths, forces, counts, at) = (
    lengths ∙ same_length,
    forces ∙ ap (force_at f) (omega arith),
    counts,
    λ j. elim (same_or_not i j) [
      | inl e ↦ subst (λ m. Shape m) e here
      | inr ne ↦ at j ∙ rw (tests_agree i n j ne, elsewhere j ne) refl
    ],
  )
    where
      Shape : ℕ → Type 0
      Shape j = get_elem? c'.slots j ≡ (
          if leb i j && ltb j (i + suc n)
          then slot_after f j (get_elem? c.slots j)
          else get_elem? c.slots j)

      here : Shape i
      here = at i ∙ rw (outside i n, inside i n) at_i

  slot_after-none :
      (f : ForceClick) (i : ℕ) (o : Option InputTransducer)
      → get_elem? event.transducers (i + check) ≡ none
      → slot_after f i o ≡ o
  slot_after-none f i o e = rw (slot_after, e) refl

  slot_after-some :
      (f : ForceClick) (i : ℕ) (o : Option InputTransducer) (t : Transducer)
      → get_elem? event.transducers (i + check) ≡ some t
      → slot_after f i o
        ≡ some (translate_contact layout nanoseconds readings i time first t (force_at f i)).0
  slot_after-some f i o t e = rw (slot_after, e) refl

  force_at-none :
      (f : ForceClick) (i : ℕ)
      → get_elem? event.transducers (i + check) ≡ none
      → force_at f (suc i) ≡ force_at f i
  force_at-none f i e = rw (force_at, e) refl

  force_at-some :
      (f : ForceClick) (i : ℕ) (t : Transducer)
      → get_elem? event.transducers (i + check) ≡ some t
      → force_at f (suc i)
        ≡ (translate_contact layout nanoseconds readings i time first t (force_at f i)).1
  force_at-some f i t e = rw (force_at, e) refl

  abbrev pub IsReady : ForceClick → ℕ → Contacts → Type 0
  IsReady f i c =
      (c.force_click ≡ force_at f i)
      × (c.valid_touch_count ≡ count_valid c.slots)
      × IsFresh c.slots i

  after_slot-IsReady :
      (f : ForceClick) (i : ℕ) (t : Transducer) (c : Contacts)
      → get_elem? event.transducers (i + check) ≡ some t
      → i < length c.slots
      → IsReady f i c
      → IsReady f (suc i) (after_slot i t c)
  unfolding after_slot
  after_slot-IsReady f i t c e h (forces, counts, fresh) = (
    rw (forces) (sym (force_at-some f i t e)),
    counted,
    λ j j_le.
        rw (is_valid_at, get_elem?-set_ne c.slots {i = i} {j = j} (input) (omega arith))
          (fresh j (omega arith)),
  )
    where
      input : InputTransducer
      input = (translate_contact layout nanoseconds readings i time first t c.force_click).0

      counted :
          (if t.is_valid then suc c.valid_touch_count else c.valid_touch_count)
          ≡ count_valid (set c.slots i input)
      counted =
          bump t.is_valid _ _ counts
          ∙ ap (λ b. count_valid c.slots + (if b then 1 else 0))
              (sym (translate_contact-valid i t c.force_click))
          ∙ sym (count_valid-set c.slots i input h (fresh i (omega arith)))

  pub fill_slots-IsFilled :
      (f : ForceClick) (n i : ℕ) (c : Contacts)
      → i + n ≤ length c.slots
      → IsReady f i c
      → (c' : Contacts) × (fill_slots layout nanoseconds readings event time check first n i c
          ≡ some c')
        × IsFilled f i n c c'
  unfolding fill_slots after_slot
  fill_slots-IsFilled f zero i c room (forces, counts, fresh) =
      (c, refl, (refl, forces ∙ ap (force_at f) (omega arith), counts, λ j. rw (empty i j) refl))
  fill_slots-IsFilled f (suc n) i c room ready =
      elim (Option-cases (get_elem? event.transducers (i + check))) [
        | inl e ↦
            let (forces, counts, fresh) = ready in
            let (c', done, filled) =
              fill_slots-IsFilled f n (suc i) c (omega arith)
                (forces ∙ sym (force_at-none f i e), counts, λ j h. fresh j (omega arith)) in
            (
              c',
              rw (fill_slots, e) done,
              widen f i n c c c' refl (sym (slot_after-none f i _ e)) (λ j ne. refl) filled,
            )
        | inr (t, e) ↦
            let h : i < length c.slots = omega arith in
            let (c', done, filled) =
              fill_slots-IsFilled f n (suc i) (after_slot i t c)
                (rw
                  (length-set c.slots i
                    (translate_contact layout nanoseconds readings i time first t c.force_click).0)
                  (omega arith))
                (after_slot-IsReady f i t c e h ready) in
            (
              c',
              rw (fill_slots, e, fill_slot-after_slot i t c h) done,
              widen f i n c (after_slot i t c) c' (length-set c.slots i _)
                  (get_elem?-set_self c.slots i _ h
                    ∙ rw (ready.0) (sym (slot_after-some f i _ t e)))
                  (λ j ne. get_elem?-set_ne c.slots _ ne) filled,
            )
      ]
