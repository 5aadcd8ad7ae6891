-- ===== src/Multitouch/Interface/Membership.antt =====
-- Engines come with `start` and go with `willTerminate`.

use voodoo_i2c.Base.{◌≡◌, ◌≢◌, refl, sym, ◌∙◌, ap, ◌⊎◌, ◌↔◌, inl, inr, true, some, Bool-cases}
use mathlib.Core.Bool.{false≢true}
use voodoo_i2c.Multitouch.Interface.{
  Engine, OrderedSet, start_engine, will_terminate, handle_is_open, handle_open, handle_close,
}
use mathlib.Core.List.{Memᴰ}

module _ (set : OrderedSet) where
  open set use {Engines, set_object, remove_object, contains_object, objects}

  Mem-will_terminate :
      (a b : Engine) (s : Engines)
      → Memᴰ b (objects (will_terminate set a s)) ↔ ((b ≢ a) × Memᴰ b (objects s))
  unfolding will_terminate handle_is_open handle_close
  Mem-will_terminate a b s = elim (Bool-cases (contains_object a s)) [
    | inl inside ↦ rw (inside) (set.mem-remove a b s)
    | inr outside ↦ rw (outside) (
      λ m. (
        λ e.
            false≢true
              (sym outside ∙ ap (λ x. contains_object x s) (sym e) ∙ (set.mem-contains b s).1 m),
        m,
      ),
      λ h. h.1,
    )
  ]

  -- An engine that starts on an interface is one of its engines, besides those that were there; when
  -- it is terminated it no longer is, and the others are those that were there without it.
  pub will_terminate-start_engine :
      (a : Engine) (s : Engines)
      → (s₁ : Engines) × (start_engine set true a (some s) ≡ (true, some s₁))
        × ((b : Engine) → Memᴰ b (objects s₁) ↔ ((b ≡ a) ⊎ Memᴰ b (objects s)))
        × ((b : Engine)
            → Memᴰ b (objects (will_terminate set a s₁)) ↔ ((b ≢ a) × Memᴰ b (objects s)))
  unfolding start_engine handle_open
  will_terminate-start_engine a s = (
    set_object a s,
    refl,
    λ b. set.mem-set a b s,
    λ b.
        let without = Mem-will_terminate a b (set_object a s) in
        (
          λ m.
              let (ne, there) = without.0 m in
              (ne, elim ((set.mem-set a b s).0 there) [ inl e ↦ absurd (ne e) | inr old ↦ old ]),
          λ h. without.1 (h.0, (set.mem-set a b s).1 (inr h.1)),
        ),
  )
