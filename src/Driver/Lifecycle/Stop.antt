-- ===== src/Driver/Lifecycle/Stop.antt =====
-- What a stop of the driver does to its device nubs and to what it holds.
use mathlib.Core.List.{reverse, reverse_aux}
use voodoo_i2c.Base.{
  ℕ, suc, ◌≡◌, refl, ap, ◌∙◌, ◌&&◌, some, List, [], ◌∷◌, ◌++◌, if◌then◌else◌, Bool-cases, inl, inr,
  length, take, get_elem?,
}
use voodoo_i2c.Registers.{Chip}
use voodoo_i2c.Driver.Lifecycle.{
  Child, NubCall, stop_nub, detach_nub, Service, add_nubs, publish_nubs, stop_nubs, stop_all, stop,
}
use voodoo_i2c.Driver.Lifecycle.Start.{IsReleased, release-IsReleased}

-- The children that get a nub, in the order of the ACPI plane.
abbrev pub started : List Child → List Child
started [] = []
started (c ∷ cs) = if c.is_attached && c.is_started then c ∷ started cs else started cs

-- Each nub is stopped, and detached then.
abbrev pub stopped_in_turn : List Child → List NubCall
stopped_in_turn [] = []
stopped_in_turn (c ∷ cs) = stop_nub c ∷ detach_nub c ∷ stopped_in_turn cs

-- The array whose last objects stand first in the list.
abbrev array_of : List Child → List Child
array_of [] = []
array_of (c ∷ cs) = array_of cs ++ c ∷ []

length-snoc : (cs : List Child) (c : Child) → length (cs ++ c ∷ []) ≡ suc (length cs)
length-snoc [] c = refl
length-snoc (x ∷ cs) c = ap suc (length-snoc cs c)

take-snoc : (cs : List Child) (c : Child) → take (length cs) (cs ++ c ∷ []) ≡ cs
take-snoc [] c = refl
take-snoc (x ∷ cs) c = ap (λ l. x ∷ l) (take-snoc cs c)

last-snoc : (cs : List Child) (c : Child) → get_elem? (cs ++ c ∷ []) (length cs) ≡ some c
last-snoc [] c = refl
last-snoc (x ∷ cs) c = last-snoc cs c

abbrev stopped_last : Child → List NubCall × List Child → List NubCall × List Child
stopped_last c (calls, left) = (stop_nub c ∷ detach_nub c ∷ calls, left)

stop_nubs-last :
    (last : ℕ) (nubs : List Child) (c : Child)
    → get_elem? nubs last ≡ some c
    → stop_nubs (suc last) nubs ≡ stopped_last c (stop_nubs last (take last nubs))
unfolding stop_nubs
stop_nubs-last last nubs c e = rw (stop_nubs, e) refl

-- The loop goes through the array from its end, and leaves nothing.
stop_all-array_of : (cs : List Child) → stop_all (some (array_of cs)) ≡ (stopped_in_turn cs, [])
unfolding stop_nubs
stop_all-array_of [] = refl
stop_all-array_of (c ∷ cs) =
    let nubs = array_of cs in
    ap (λ n. stop_nubs n (nubs ++ c ∷ [])) (length-snoc nubs c)
    ∙ stop_nubs-last (length nubs) (nubs ++ c ∷ []) c (last-snoc nubs c)
    ∙ ap (λ l. stopped_last c (stop_nubs (length nubs) l)) (take-snoc nubs c)
    ∙ ap (stopped_last c) (stop_all-array_of cs)

add_nubs-started :
    (children nubs : List Child)
    → add_nubs children (some (array_of nubs))
      ≡ some (array_of (reverse_aux (started children) nubs))
unfolding add_nubs
add_nubs-started [] nubs = refl
add_nubs-started (c ∷ cs) nubs = elim (Bool-cases (c.is_attached && c.is_started)) [
  | inl e ↦ rw e (add_nubs-started cs (c ∷ nubs))
  | inr e ↦ rw e (add_nubs-started cs nubs)
]

-- With no nub before, a stop behind the publishing of the nubs goes through those whose child was
-- attached and started, from the last to the first: each is stopped and then detached, and the loop
-- leaves none. After it the driver holds no lock, no work loop, no gate and no interrupt.
pub stop-IsReleased :
    (chip : Chip) (children : List Child) (s : Service)
    → s.device_nubs ≡ some []
    → let published = (publish_nubs (some children) s).1 in
      ((stop chip published).0 ≡ stopped_in_turn (reverse (started children)))
      × ((stop_all published.device_nubs).1 ≡ [])
      × IsReleased (stop chip published).1
unfolding publish_nubs stop
stop-IsReleased chip children s fresh =
    let loop =
      ap stop_all {x = add_nubs children s.device_nubs}
        {y = some (array_of (reverse (started children)))} (rw fresh (add_nubs-started children []))
      ∙ stop_all-array_of (reverse (started children)) in
    let released = release-IsReleased _ in
    (
      ap (λ r. r.0) loop,
      ap (λ r. r.1) loop,
      record {
        lock = released.lock;
        loop = released.loop;
        gate = released.gate;
        registered = released.registered;
      },
    )
