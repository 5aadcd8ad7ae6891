-- ===== src/Multitouch/ForceClick/Preferences.antt =====
-- The preferences as a lookup by key, which is what the loop over them is for.
use voodoo_i2c.Base.{Bool, false, not, ◌≡◌, refl, Option, none, some, [], ◌∷◌, ◌==◌, if◌then◌else◌}
use voodoo_i2c.Multitouch.ForceClick.{
  Key, clicking, force_suppressed, unread, Preference, boolean, number, other, Preferences,
  read_preferences,
}

-- What the dictionary has under a key, where it has one.
abbrev pub get_object : Key → Preferences → Option Preference
get_object k [] = none
get_object clicking ((clicking, v) ∷ rest) = some v
get_object clicking ((force_suppressed, v) ∷ rest) = get_object clicking rest
get_object clicking ((unread n, v) ∷ rest) = get_object clicking rest
get_object force_suppressed ((clicking, v) ∷ rest) = get_object force_suppressed rest
get_object force_suppressed ((force_suppressed, v) ∷ rest) = some v
get_object force_suppressed ((unread n, v) ∷ rest) = get_object force_suppressed rest
get_object (unread m) ((clicking, v) ∷ rest) = get_object (unread m) rest
get_object (unread m) ((force_suppressed, v) ∷ rest) = get_object (unread m) rest
get_object (unread m) ((unread n, v) ∷ rest) =
    let found = get_object (unread m) rest in if m == n then some v else found

-- A dictionary has a key at most once.
abbrev pub IsDictionary : Preferences → Type 0
IsDictionary [] = Unit {0}
IsDictionary ((k, v) ∷ rest) = (get_object k rest ≡ none) × IsDictionary rest

-- Whether tapping is turned off, by a Boolean or by a number.
abbrev pub forbids : Option Preference → Bool
forbids (some (boolean b)) = not b
forbids (some (number n)) = n == 0
forbids (some other) = false
forbids none = false

-- The answer of the property for force clicks, or the one there was.
abbrev pub answer : Option Preference → Bool → Bool
answer (some (boolean b)) enabled = not b
answer (some (number n)) enabled = enabled
answer (some other) enabled = enabled
answer none enabled = enabled

abbrev pub decide : Option Preference → Option Preference → Bool → Bool
decide tap force enabled = if forbids tap then false else answer force enabled

-- With each key at most once, the loop decides by the two lookups: a tap that is forbidden forbids
-- force clicks, and otherwise they are what `ForceSuppressed` says, or what they were.
pub read_preferences-decide :
    (es : Preferences) (e : Bool)
    → IsDictionary es
    → read_preferences es e ≡ decide (get_object clicking es) (get_object force_suppressed es) e
unfolding read_preferences
read_preferences-decide [] e h = refl
read_preferences-decide ((clicking, boolean b) ∷ rest) e h =
    rw (read_preferences-decide rest e h.1, h.0) refl
read_preferences-decide ((clicking, number n) ∷ rest) e h =
    rw (read_preferences-decide rest e h.1, h.0) refl
read_preferences-decide ((clicking, other) ∷ rest) e h =
    rw (read_preferences-decide rest e h.1, h.0) refl
read_preferences-decide ((force_suppressed, boolean b) ∷ rest) e h =
    rw (read_preferences-decide rest (not b) h.1, h.0) refl
read_preferences-decide ((force_suppressed, number n) ∷ rest) e h =
    rw (read_preferences-decide rest e h.1, h.0) refl
read_preferences-decide ((force_suppressed, other) ∷ rest) e h =
    rw (read_preferences-decide rest e h.1, h.0) refl
read_preferences-decide ((unread n, v) ∷ rest) e h = read_preferences-decide rest e h.1

-- Two dictionaries with the same entries under the keys read give the same answer, whatever the
-- order in which their iterators go.
pub read_preferences-unordered :
    (es es' : Preferences) (e : Bool)
    → IsDictionary es
    → IsDictionary es'
    → ((k : Key) → get_object k es ≡ get_object k es')
    → read_preferences es e ≡ read_preferences es' e
read_preferences-unordered es es' e h h' same =
    rw
      (
        read_preferences-decide es e h,
        read_preferences-decide es' e h',
        same clicking,
        same force_suppressed,
      )
      refl
