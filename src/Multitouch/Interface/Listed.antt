-- ===== src/Multitouch/Interface/Listed.antt =====
-- An ordered set as a list, with an engine put before those whose scores are no higher: it shows that
-- what the interface asks of the system's ordered set can be met.

use mathlib.Core.Bool.{false≢true}
use voodoo_i2c.Base.{
  ℕ, ◌≤◌, ◌≡◌, ◌≢◌, refl, sym, ◌∙◌, subst, ◌⊎◌, ◌↔◌, inl, inr, Bool, true, false, ◌&&◌, ◌||◌, List,
  [], ◌∷◌, leb, leb→le, ◌==◌, arith, if◌then◌else◌, Bool-cases,
}
use voodoo_i2c.Multitouch.Interface.{Engine, IsOrdered, OrderedSet}
use voodoo_i2c.Multitouch.Interface.Order.{score_le, le_score}
use mathlib.Core.List.{Memᴰ}

unfoldable pub same_engine : Engine → Engine → Bool
same_engine a b = a.engine_id == b.engine_id && a.score == b.score

both_same : (m n j k : ℕ) → (m == n && j == k) ≡ true → (m ≡ n) × (j ≡ k)
both_same m n j k h = ground arith

same_pair : (m j : ℕ) → (m == m && j == j) ≡ true
same_pair m j = ground arith

pub same_engine_iff : (a b : Engine) → (same_engine a b ≡ true) ↔ (a ≡ b)
unfolding same_engine
same_engine_iff a b = (
  λ h.
      let (ids, scores) = both_same a.engine_id b.engine_id a.score b.score h in
      λ i. record { engine_id = ids i; score = scores i },
  λ e. subst (λ x. same_engine a x ≡ true) e (same_pair a.engine_id a.score),
)

unfoldable pub insert : Engine → List Engine → List Engine
insert a [] = a ∷ []
insert a (b ∷ rest) =
    let below = insert a rest in if leb b.score a.score then a ∷ b ∷ rest else b ∷ below

unfoldable pub remove : Engine → List Engine → List Engine
remove a [] = []
remove a (b ∷ rest) = let others = remove a rest in if same_engine a b then others else b ∷ others

unfoldable pub contains : Engine → List Engine → Bool
contains a [] = false
contains a (b ∷ rest) = same_engine a b || contains a rest

mem-cons_iff : (a b : Engine) (l : List Engine) → Memᴰ b (a ∷ l) ↔ ((b ≡ a) ⊎ Memᴰ b l)
mem-cons_iff a b l = (to, λ h. elim h [ inl e ↦ Memᴰ.head e | inr m ↦ Memᴰ.tail m ])
  where
    to : Memᴰ b (a ∷ l) → (b ≡ a) ⊎ Memᴰ b l
    to (Memᴰ.head e) = inl e
    to (Memᴰ.tail m) = inr m

pub mem-insert : (a b : Engine) (l : List Engine) → Memᴰ b (insert a l) ↔ ((b ≡ a) ⊎ Memᴰ b l)
unfolding insert
mem-insert a b [] = mem-cons_iff a b []
mem-insert a b (c ∷ rest) = elim (Bool-cases (leb c.score a.score)) [
  | inl h ↦ rw (h) (mem-cons_iff a b (c ∷ rest))
  | inr h ↦ rw (h) (
    λ m. elim ((mem-cons_iff c b _).0 m) [
      | inl e ↦ inr (Memᴰ.head e)
      | inr n ↦ elim ((mem-insert a b rest).0 n) [ inl e ↦ inl e | inr k ↦ inr (Memᴰ.tail k) ]
    ],
    λ m. elim m [
      | inl e ↦ Memᴰ.tail ((mem-insert a b rest).1 (inl e))
      | inr k ↦ elim ((mem-cons_iff c b _).0 k) [
        | inl e ↦ Memᴰ.head e
        | inr n ↦ Memᴰ.tail ((mem-insert a b rest).1 (inr n))
      ]
    ],
  )
]

pub insert-IsOrdered : (a : Engine) (l : List Engine) → IsOrdered l → IsOrdered (insert a l)
unfolding insert
insert-IsOrdered a [] h = (λ b m. elim m [ ], tt)
insert-IsOrdered a (c ∷ rest) h = elim (Bool-cases (leb c.score a.score)) [
  | inl lower ↦ rw (lower) (
    λ b m. le_score a b (elim ((mem-cons_iff c b _).0 m) [
      | inl e ↦ rw (e) (leb→le _ _ lower)
      | inr n ↦ omega (arith, score_le c b (h.0 b n), leb→le _ _ lower)
    ]),
    h,
  )
  | inr higher ↦ rw (higher) (
    λ b m. elim ((mem-insert a b rest).0 m) [
      | inl e ↦ rw (e) (le_score c a (below c.score a.score higher))
      | inr n ↦ h.0 b n
    ],
    insert-IsOrdered a rest h.1,
  )
]
  where
    below : (m n : ℕ) → leb m n ≡ false → n ≤ m
    below m n h = ground arith

pub mem-remove : (a b : Engine) (l : List Engine) → Memᴰ b (remove a l) ↔ ((b ≢ a) × Memᴰ b l)
unfolding remove
mem-remove a b [] = (λ m. elim m [ ], λ h. h.1)
mem-remove a b (c ∷ rest) = elim (Bool-cases (same_engine a c)) [
  | inl same ↦
      let a_is = (same_engine_iff a c).0 same in
      rw (same) (
        λ m. let (ne, n) = (mem-remove a b rest).0 m in (ne, Memᴰ.tail n),
        λ h. (mem-remove a b rest).1 (
          h.0,
          elim ((mem-cons_iff c b _).0 h.1) [ inl e ↦ absurd (h.0 (e ∙ sym a_is)) | inr n ↦ n ],
        ),
      )
  | inr other ↦ rw (other) (
    λ m. elim ((mem-cons_iff c b _).0 m) [
      | inl e ↦
          (λ b_is. false≢true (sym other ∙ (same_engine_iff a c).1 (sym b_is ∙ e)), Memᴰ.head e)
      | inr n ↦ let (ne, k) = (mem-remove a b rest).0 n in (ne, Memᴰ.tail k)
    ],
    λ h. elim ((mem-cons_iff c b _).0 h.1) [
      | inl e ↦ Memᴰ.head e
      | inr n ↦ Memᴰ.tail ((mem-remove a b rest).1 (h.0, n))
    ],
  )
]

pub remove-IsOrdered : (a : Engine) (l : List Engine) → IsOrdered l → IsOrdered (remove a l)
unfolding remove
remove-IsOrdered a [] h = tt
remove-IsOrdered a (c ∷ rest) h = elim (Bool-cases (same_engine a c)) [
  | inl same ↦ rw (same) (remove-IsOrdered a rest h.1)
  | inr other ↦ rw (other) (λ b m. h.0 b ((mem-remove a b rest).0 m).1, remove-IsOrdered a rest h.1)
]

pub mem-contains : (a : Engine) (l : List Engine) → (contains a l ≡ true) ↔ Memᴰ a l
unfolding contains
mem-contains a [] = (λ h. absurd (false≢true h), λ m. elim m [ ])
mem-contains a (b ∷ rest) = elim (Bool-cases (same_engine a b)) [
  | inl same ↦ rw (same) (λ h. Memᴰ.head ((same_engine_iff a b).0 same), λ m. refl)
  | inr other ↦ rw (other) (
    λ h. Memᴰ.tail ((mem-contains a rest).0 h),
    λ m. elim ((mem-cons_iff b a _).0 m) [
      | inl e ↦ absurd (false≢true (sym other ∙ (same_engine_iff a b).1 e))
      | inr n ↦ (mem-contains a rest).1 n
    ],
  )
]

abbrev pub listed : OrderedSet
listed = record {
  Engines = (l : List Engine) × IsOrdered l;
  with_capacity = ([], tt);
  set_object = λ a s. (insert a s.0, insert-IsOrdered a s.0 s.1);
  remove_object = λ a s. (remove a s.0, remove-IsOrdered a s.0 s.1);
  contains_object = λ a s. contains a s.0;
  objects = λ s. s.0;
  objects-IsOrdered = λ s. s.1;
  none_at_first = refl;
  mem-set = λ a b s. mem-insert a b s.0;
  mem-remove = λ a b s. mem-remove a b s.0;
  mem-contains = λ a s. mem-contains a s.0;
}
