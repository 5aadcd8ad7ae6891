-- ===== src/Multitouch/ForceClick/Stale.antt =====
-- Calls of `isForceClickEnabled` one after another.
use voodoo_i2c.Base.{ℕ, Bool, true, ◌≡◌, refl, ap, List, [], ◌∷◌, length, replicate}
use voodoo_i2c.Multitouch.ForceClick.{Reading, ForceClick, is_recent, is_force_click_enabled}

module _ (nanoseconds : ℕ → ℕ) where
  -- The answers of a number of calls, with what the engine knows after them.
  abbrev pub ask : List Reading → ForceClick → List Bool × ForceClick
  ask [] f = ([], f)
  ask (r ∷ rs) f =
      let (answer, f₁) = is_force_click_enabled nanoseconds r f in
      let (answers, f₂) = ask rs f₁ in (answer ∷ answers, f₂)

  -- Each call comes less than a second after the one before it.
  abbrev pub IsSteady : List Reading → ForceClick → Type 0
  IsSteady [] f = Unit {0}
  IsSteady (r ∷ rs) f =
      (is_recent nanoseconds r.now f ≡ true) × IsSteady rs (record f { update_time = r.now })

  -- While calls come less than a second apart, each gives the answer of the first and the
  -- preferences are not read, however long that goes on: a call moves the time that it compares.
  pub ask-stale :
      (rs : List Reading) (f : ForceClick)
      → IsSteady rs f
      → (ask rs f).0 ≡ replicate (length rs) f.is_enabled
  unfolding is_force_click_enabled
  ask-stale [] f h = refl
  ask-stale (r ∷ rs) f h =
      rw (h.0) (ap (f.is_enabled ∷◌) (ask-stale rs (record f { update_time = r.now }) h.1))
