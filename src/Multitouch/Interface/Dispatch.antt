-- ===== src/Multitouch/Interface/Dispatch.antt =====
-- Which engines get a report.

use voodoo_i2c.Base.{◌≤◌, ◌≡◌, refl, ap, sym, subst, ◌⊎◌, inl, inr, List, [], ◌∷◌, ◌++◌}
use voodoo_i2c.Multitouch.Transducer.{MultitouchReturn, continue, break}
use voodoo_i2c.Multitouch.Interface.{
  Engine, IsOrdered, OrderedSet, dispatch, handle_interrupt_report,
}
use voodoo_i2c.Multitouch.Interface.Order.{score_le}
use mathlib.Core.List.{Memᴰ}

module _ {S : Type 0} (handle : Engine → S → MultitouchReturn × S) where
  -- The engines pass the report on, one after the other.
  pub data Passed : List Engine → S → S → Type 0 where
    all_passed : (s : S) → Passed [] s s
    passed :
        (e : Engine) (rest : List Engine) (s s' : S)
        → (handle e s).0 ≡ continue
        → Passed rest (handle e s).1 s'
        → Passed (e ∷ rest) s s'

  -- The report reaches the end of the list, or it stops at an engine that breaks: the engines called,
  -- the others, and the states before and after.
  pub data Served : List Engine → List Engine → S → S → Type 0 where
    reached_all : (es : List Engine) (s s' : S) → Passed es s s' → Served es [] s s'
    stopped_at :
        (before : List Engine) (e : Engine) (after : List Engine) (s s₁ : S)
        → Passed before s s₁
        → (handle e s₁).0 ≡ break
        → Served (before ++ e ∷ []) after s (handle e s₁).1

  serve_more :
      (e : Engine) (called rest : List Engine) (s s' : S)
      → (handle e s).0 ≡ continue
      → Served called rest (handle e s).1 s'
      → Served (e ∷ called) rest s s'
  serve_more e called rest s s' goes_on (reached_all _ _ _ all) =
      reached_all (e ∷ called) s s' (passed e called s s' goes_on all)
  serve_more e _ rest s _ goes_on (stopped_at before last after _ s₁ all stops) =
      stopped_at (e ∷ before) last after s s₁ (passed e before s s₁ goes_on all) stops

  dispatch-continue :
      (e : Engine) (es : List Engine) (s : S)
      → (handle e s).0 ≡ continue
      → dispatch handle (e ∷ es) s
        ≡ (e ∷ (dispatch handle es (handle e s).1).0, (dispatch handle es (handle e s).1).1)
  unfolding dispatch
  dispatch-continue e es s h = rw (dispatch, h) refl

  dispatch-break :
      (e : Engine) (es : List Engine) (s : S)
      → (handle e s).0 ≡ break
      → dispatch handle (e ∷ es) s ≡ (e ∷ [], (handle e s).1)
  unfolding dispatch
  dispatch-break e es s h = rw (dispatch, h) refl

  abbrev IsServed : List Engine → S → List Engine × S → Type 0
  IsServed es s outcome =
      (rest : List Engine) × (outcome.0 ++ rest ≡ es) × Served outcome.0 rest s outcome.1

  result-cases : (r : MultitouchReturn) → (r ≡ continue) ⊎ (r ≡ break)
  result-cases continue = inl refl
  result-cases break = inr refl

  dispatch-IsServed : (es : List Engine) (s : S) → IsServed es s (dispatch handle es s)
  unfolding dispatch
  dispatch-IsServed [] s = ([], refl, reached_all [] s s (all_passed s))
  dispatch-IsServed (e ∷ es) s = elim (result-cases (handle e s).0) [
    | inl goes_on ↦
        let (rest, all, served) = dispatch-IsServed es (handle e s).1 in
        subst (λ o. IsServed (e ∷ es) s o) (sym (dispatch-continue e es s goes_on))
          (rest, ap (e ∷◌) all, serve_more e _ rest s _ goes_on served)
    | inr stops ↦
        subst (λ o. IsServed (e ∷ es) s o) (sym (dispatch-break e es s stops))
          (es, refl, stopped_at [] e es s s (all_passed s) stops)
  ]

score-append :
    (called rest : List Engine)
    → IsOrdered (called ++ rest)
    → (a : Engine) → Memᴰ a called
    → (b : Engine) → Memᴰ b rest
    → b.score ≤ a.score
score-append [] rest ordered a m b mb = elim m [ ]
score-append (x ∷ xs) rest ordered a (Memᴰ.head e) b mb =
    rw (e) (score_le x b (ordered.0 b (mem_behind xs rest b mb)))
  where
    mem_behind : (xs rest : List Engine) (b : Engine) → Memᴰ b rest → Memᴰ b (xs ++ rest)
    mem_behind [] rest b m = m
    mem_behind (x ∷ xs) rest b m = Memᴰ.tail (mem_behind xs rest b m)
score-append (x ∷ xs) rest ordered a (Memᴰ.tail m) b mb = score-append xs rest ordered.1 a m b mb

-- Whatever the engines and their handlers, a report goes to the engines of the interface from the
-- highest score down, each after the one before it has passed the report on, and stops at the first
-- that breaks; the engines left out have scores no higher than those called, and there are none of
-- them where no engine breaks.
pub handle_interrupt_report-Served :
    {S : Type 0} (set : OrderedSet) (handle : Engine → S → MultitouchReturn × S)
    (engines : set.Engines) (s : S)
    → (rest : List Engine) × ((handle_interrupt_report set handle engines s).0 ++ rest
        ≡ set.objects engines)
      × Served handle
          (handle_interrupt_report set handle engines s).0
          rest
          s
          (handle_interrupt_report set handle engines s).1
      × ((a : Engine)
          → Memᴰ a (handle_interrupt_report set handle engines s).0
          → (b : Engine) → Memᴰ b rest
          → b.score ≤ a.score)
unfolding handle_interrupt_report
handle_interrupt_report-Served set handle engines s =
    let (rest, all, served) = dispatch-IsServed handle (set.objects engines) s in
    (
      rest,
      all,
      served,
      score-append (dispatch handle (set.objects engines) s).0 rest
          (subst (λ l. IsOrdered l) (sym all) (set.objects-IsOrdered engines)),
    )
