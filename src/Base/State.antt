-- ===== src/Base/State.antt =====
-- Stateful code: a command takes the state and returns its result with the new state.

abbrev pub Cmd : Type 0 → Type 0 → Type 0
Cmd S A = S → A × S

infixl 5 ◌>>=◌ ◌>>◌
abbrev pub ◌>>=◌ : {S A B : Type 0} → Cmd S A → (A → Cmd S B) → Cmd S B
◌>>=◌ m f s = let (a, s') = m s in f a s'

abbrev pub ◌>>◌ : {S A B : Type 0} → Cmd S A → Cmd S B → Cmd S B
◌>>◌ m k s = let (a, s') = m s in k s'

abbrev pub pure : {S A : Type 0} → A → Cmd S A
pure a s = (a, s)
