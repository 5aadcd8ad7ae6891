-- ===== src/Multitouch/Native/Thumb.antt =====
-- The search for the thumb: the touch that is lowest on the pad, the last one of several.
use voodoo_i2c.Base.{
  if◌then◌else◌, ℕ, zero, suc, ◌+◌, ◌≤◌, ◌<◌, ◌≡◌, refl, sym, ◌∙◌, subst, ◌⊎◌, inl, inr, Bool, true,
  false, ◌&&◌, Option, none, some, List, leb, length, get_elem?, arith, Bool-cases, get_elem?-below,
  leb→le,
}
use mathlib.Core.Bool.{false≢true}
use voodoo_i2c.Multitouch.Native.{InputTransducer, is_valid_at, find_thumb}

abbrev pub y_at : List InputTransducer → ℕ → ℕ
y_at slots i = elim (get_elem? slots i) [ none ↦ 0 | some t ↦ t.current_coordinates.touch_y ]

-- Among the first b slots, k is valid and lowest, and later ones are strictly higher.
abbrev pub IsThumb : List InputTransducer → ℕ → ℕ → Type 0
IsThumb slots b k =
    (k < b)
    × (is_valid_at slots k ≡ true)
    × ((j : ℕ)
        → j < b
        → is_valid_at slots j ≡ true
        → (y_at slots j ≤ y_at slots k) × (k < j → y_at slots j < y_at slots k))

abbrev pub NoneValid : List InputTransducer → ℕ → Type 0
NoneValid slots b = (j : ℕ) → j < b → is_valid_at slots j ≡ false

-- What the search knows after b slots.
abbrev Searched : List InputTransducer → ℕ → ℕ → ℕ → Type 0
Searched slots b y k =
    (IsThumb slots b k × (y ≡ y_at slots k)) ⊎ (NoneValid slots b × (y ≡ 0) × (k ≡ 0))

at_or_below : (i j : ℕ) → j < suc i → (j < i) ⊎ (j ≡ i)
at_or_below i j h = omega arith

and-left : (a b : Bool) → (a && b) ≡ true → a ≡ true
and-left a b h = ground arith

and-right : (a b : Bool) → (a && b) ≡ true → b ≡ true
and-right a b h = ground arith

higher : (y y' : ℕ) (valid : Bool) → valid ≡ true → (valid && leb y y') ≡ false → y' < y
higher y y' valid h left = ground arith

module _ (slots : List InputTransducer) (i : ℕ) (t : InputTransducer) where
  pub valid_at : get_elem? slots i ≡ some t → is_valid_at slots i ≡ t.is_valid_input
  valid_at e = rw (is_valid_at, e) refl

  pub y_at_lem : get_elem? slots i ≡ some t → y_at slots i ≡ t.current_coordinates.touch_y
  y_at_lem e = rw (y_at, e) refl

  find_thumb-step :
      (n y k : ℕ)
      → get_elem? slots i ≡ some t
      → find_thumb slots (suc n) i y k ≡ (
          if t.is_valid_input && leb y t.current_coordinates.touch_y
          then find_thumb slots n (suc i) t.current_coordinates.touch_y i
          else find_thumb slots n (suc i) y k)
  unfolding find_thumb
  find_thumb-step n y k e = rw (find_thumb, e) refl

module _ (slots : List InputTransducer) where
  bound :
      (b y k : ℕ)
      → Searched slots b y k
      → (j : ℕ) → j < b
      → is_valid_at slots j ≡ true
      → y_at slots j ≤ y
  bound b y k (inl ((lt, known, best), same)) j j_lt valid = omega (arith, (best j j_lt valid).0)
  bound b y k (inr (none_valid, zero_y, zero_k)) j j_lt valid =
      absurd (false≢true (sym (none_valid j j_lt) ∙ valid))

  take_slot :
      (i y k : ℕ)
      → is_valid_at slots i ≡ true
      → y ≤ y_at slots i
      → Searched slots i y k
      → Searched slots (suc i) (y_at slots i) i
  take_slot i y k valid above known = inl (
    (
      omega arith,
      valid,
      λ j j_lt j_valid. elim (at_or_below i j j_lt) [
        | inl below ↦ (omega (arith, bound i y k known j below j_valid), λ h. omega arith)
        | inr e ↦ (rw e (omega arith), λ h. omega arith)
      ],
    ),
    refl,
  )

  -- Slot i is not valid, or strictly higher than the one that is known.
  skip_slot :
      (i y k : ℕ)
      → (is_valid_at slots i ≡ true → y_at slots i < y)
      → Searched slots i y k
      → Searched slots (suc i) y k
  skip_slot i y k lower (inl ((lt, known, best), same)) = inl (
    (
      omega arith,
      known,
      λ j j_lt j_valid. elim (at_or_below i j j_lt) [
        | inl below ↦ best j below j_valid
        | inr e ↦
            let less = lower (subst (λ n. is_valid_at slots n ≡ true) e j_valid) in
            (rw (e, sym same) (omega (arith, less)), λ h. rw (e, sym same) less)
      ],
    ),
    same,
  )
  skip_slot i y k lower (inr (none_valid, zero_y, zero_k)) = inr (
    λ j j_lt. elim (at_or_below i j j_lt) [
      | inl below ↦ none_valid j below
      | inr e ↦ elim (Bool-cases (is_valid_at slots j)) [
        | inl valid ↦
            let less = lower (subst (λ n. is_valid_at slots n ≡ true) e valid) in
            absurd (omega (arith, less, zero_y))
        | inr invalid ↦ invalid
      ]
    ],
    zero_y,
    zero_k,
  )

  Found : Option ℕ → ℕ → Type 0
  Found search b = (r : ℕ) × (search ≡ some r) × ((y : ℕ) × Searched slots b y r)

  find_thumb-Found :
      (n i y k : ℕ)
      → i + n ≤ length slots
      → Searched slots i y k
      → Found (find_thumb slots n i y k) (i + n)
  unfolding find_thumb Found
  find_thumb-Found zero i y k room known =
      (k, refl, (y, subst (λ b. Searched slots b y k) (omega arith) known))
  find_thumb-Found (suc n) i y k room known =
      let (t, e) = get_elem?-below slots i (omega arith) in
      let at_valid = valid_at slots i t e in
      let at_y = y_at_lem slots i t e in
      let next : suc i + n ≡ i + suc n = omega arith in
      elim (Bool-cases (t.is_valid_input && leb y t.current_coordinates.touch_y)) [
        | inl taken ↦
            let valid = and-left t.is_valid_input _ taken in
            let above = leb→le y _ (and-right t.is_valid_input _ taken) in
            rw (find_thumb-step slots i t n y k e, taken)
              (subst (λ b. Found (find_thumb slots n (suc i) t.current_coordinates.touch_y i) b)
                next
                (find_thumb-Found n (suc i) t.current_coordinates.touch_y i (omega arith) (
                  subst (λ v. Searched slots (suc i) v i) at_y
                    (take_slot i y k (at_valid ∙ valid) (omega (arith, above, at_y)) known))))
        | inr left ↦
            rw (find_thumb-step slots i t n y k e, left)
              (subst (λ b. Found (find_thumb slots n (suc i) y k) b) next
                (find_thumb-Found n (suc i) y k (omega arith) (
                  skip_slot i y k
                    (λ valid.
                      let less = higher y _ t.is_valid_input (sym at_valid ∙ valid) left in
                      omega (arith, less, at_y))
                    known)))
      ]

-- The search stays inside the array. Where one of the contacts is valid, it ends at a valid contact
-- with no other one lower on the pad, and the last of those as low.
pub find_thumb-IsThumb :
    (slots : List InputTransducer) (count i : ℕ)
    → count ≤ length slots
    → i < count
    → is_valid_at slots i ≡ true
    → (k : ℕ) × (find_thumb slots count 0 0 0 ≡ some k) × IsThumb slots count k
unfolding Found
find_thumb-IsThumb slots count i room below valid =
    let start : NoneValid slots 0 = λ j h. absurd (omega (arith, h)) in
    let (k, e, (y, known)) =
      find_thumb-Found slots count 0 0 0 (omega arith) (inr (start, refl, refl)) in
    elim known [
      | inl (is_thumb, same) ↦ (k, e, subst (λ b. IsThumb slots b k) (omega arith) is_thumb)
      | inr (none_valid, zero_y, zero_k) ↦
          absurd (false≢true (sym (none_valid i (omega arith)) ∙ valid))
    ]

pub find_thumb-below :
    (slots : List InputTransducer) (count : ℕ)
    → count ≤ length slots
    → 0 < length slots
    → (k : ℕ) × (find_thumb slots count 0 0 0 ≡ some k) × (k < length slots)
unfolding Found
find_thumb-below slots count room some_slot =
    let start : NoneValid slots 0 = λ j h. absurd (omega (arith, h)) in
    let (k, e, (y, known)) =
      find_thumb-Found slots count 0 0 0 (omega arith) (inr (start, refl, refl)) in
    elim known [
      | inl ((lt, valid, best), same) ↦ (k, e, omega (arith, lt))
      | inr (none_valid, zero_y, zero_k) ↦ (k, e, omega (arith, zero_k))
    ]
