-- ===== src/Services/Helpers.antt =====
-- Dependencies/helpers.cpp: `getMatchedName` and `abs`.
use voodoo_i2c.Base.{ℕ, ◌+◌, ◌%◌, ◌^◌, ◌≤◌, ◌≡◌, Option, none, some, arith}
use voodoo_i2c.Base.Int.{ℤ, pos, negsuc, pos_part, neg_part}

-- The name of a provider is a number that names its bytes; 0 stands for "(null)".
unfoldable pub get_matched_name : Option ℕ → ℕ
get_matched_name none = 0
get_matched_name (some name) = name

-- The argument is an SInt16 and the result a UInt16.
unfoldable pub abs16 : ℤ → ℕ
abs16 (pos n) = n % 2 ^ 16
abs16 (negsuc n) = (n + 1) % 2 ^ 16

-- At every SInt16, the lowest included, it is the distance from 0.
pub abs16-distance :
    (x : ℤ) → pos_part x ≤ 32767 → neg_part x ≤ 32768 → abs16 x ≡ pos_part x + neg_part x
unfolding abs16
abs16-distance (pos n) high low = omega arith
abs16-distance (negsuc n) high low = omega arith
