-- ===== src/Multitouch/Native/Clients.antt =====
-- The client of the engine: VoodooInput opens it and closes it.
use voodoo_i2c.Base.{
  inl, inr, ℕ, suc, ◌≤◌, ◌-◌, ◌≡◌, refl, sym, ap, ◌∙◌, Bool, true, false, Option, none, some, ◌==◌,
  arith, Bool-cases, if◌then◌else◌,
}
use mathlib.Core.Bool.{false≢true}
use voodoo_i2c.Multitouch.Native.{NativeEngine, handle_open, handle_is_open, handle_close}

-- An open or a close, in any order: an open is served also while the engine has a client.
pub data Step : NativeEngine → NativeEngine → Type 0 where
  open_step : (e : NativeEngine) (request : Option (ℕ × Bool)) → Step e (handle_open request e).1
  close_step : (e : NativeEngine) (client : ℕ) → Step e (handle_close client e)

pub data Reachable (e : NativeEngine) : NativeEngine → Type 0 where
  here : Reachable e e
  further : {e₁ e₂ : NativeEngine} → Reachable e e₁ → Step e₁ e₂ → Reachable e e₂

-- The engine holds a reference on the client that it has.
abbrev pub HoldsClient : NativeEngine → Type 0
HoldsClient e = (c : ℕ) → handle_is_open c e ≡ true → 1 ≤ e.references c

handle_open-HoldsClient :
    (request : Option (ℕ × Bool)) (e : NativeEngine)
    → HoldsClient e
    → HoldsClient (handle_open request e).1
unfolding handle_open handle_is_open
handle_open-HoldsClient none e holds c is_open = holds c is_open
handle_open-HoldsClient (some (client, false)) e holds c is_open = holds c is_open
handle_open-HoldsClient (some (client, true)) e holds c is_open = rw (is_open) (omega arith)

handle_close-HoldsClient :
    (client : ℕ) (e : NativeEngine) → HoldsClient e → HoldsClient (handle_close client e)
unfolding handle_close handle_is_open
handle_close-HoldsClient client e holds = elim (Bool-cases (handle_is_open client e)) [
  | inl is_open ↦ rw (handle_close, is_open) (λ c still_open. absurd (false≢true still_open))
  | inr not_open ↦ rw (handle_close, not_open) holds
]

nobody :
    (e : NativeEngine) → e.voodoo_input_instance ≡ none → (c : ℕ) → handle_is_open c e ≡ true → ⊥
unfolding handle_is_open
nobody e unopened c h =
    false≢true (sym (ap (λ o. elim o [ none ↦ false | some d ↦ c == d ]) unopened) ∙ h)

-- Through any opens and closes, also opens while it has a client, an engine that starts without one
-- never loses the reference on the client that it has: what a close gives back was taken.
pub Reachable-HoldsClient :
    {e e' : NativeEngine} → e.voodoo_input_instance ≡ none → Reachable e e' → HoldsClient e'
Reachable-HoldsClient {e} unopened here = λ c is_open. absurd (nobody e unopened c is_open)
Reachable-HoldsClient unopened (further path (open_step e request)) =
    handle_open-HoldsClient request e (Reachable-HoldsClient unopened path)
Reachable-HoldsClient unopened (further path (close_step e client)) =
    handle_close-HoldsClient client e (Reachable-HoldsClient unopened path)

same_client : (c : ℕ) → (c == c) ≡ true
same_client c = ground arith

given_and_taken :
    (b : Bool) (n : ℕ) → (if b then (if b then suc n else n) - 1 else (if b then suc n else n)) ≡ n
given_and_taken true n = omega arith
given_and_taken false n = refl

-- A client with the mark that opens an engine with no client, and closes it, leaves it as it was.
pub handle_close-handle_open :
    (client : ℕ) (e : NativeEngine)
    → e.voodoo_input_instance ≡ none
    → ((handle_open (some (client, true)) e).0 ≡ true)
      × (handle_is_open client (handle_open (some (client, true)) e).1 ≡ true)
      × (handle_close client (handle_open (some (client, true)) e).1 ≡ e)
unfolding handle_open handle_is_open handle_close
handle_close-handle_open client e unopened = (
  refl,
  same_client client,
  rw (handle_close, same_client client)
      (λ i. record e {
        voodoo_input_instance = sym unopened i;
        references = λ c. (given_and_taken (c == client) (e.references c)) i;
      }),
)
