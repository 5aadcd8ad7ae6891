-- ===== src/Base/Bits.antt =====
-- Single bits of a machine word: `BIT(k)` of helpers.hpp, with `x & BIT(k)`, `x | BIT(k)` and
-- `x & ~BIT(k)` written as arithmetic, which agrees with them at every word.
use voodoo_i2c.Base.{
  ℕ, zero, suc, ◌+◌, ◌-◌, ◌/◌, ◌%◌, ◌^◌, ◌<◌, ◌≡◌, Bool, true, ◌&&◌, arith, ◌==◌, if◌then◌else◌,
}

abbrev pub bit : ℕ → ℕ
bit k = 2 ^ k

-- x & BIT(k), as a test.
abbrev pub test_bit : ℕ → ℕ → Bool
test_bit x k = (x / 2 ^ k) % 2 == 1

-- x | BIT(k)
abbrev pub set_bit : ℕ → ℕ → ℕ
set_bit x k = if test_bit x k then x else x + 2 ^ k

-- x & ~BIT(k)
abbrev pub clear_bit : ℕ → ℕ → ℕ
clear_bit x k = if test_bit x k then x - 2 ^ k else x

-- A test that passes at every number below a bound, decided by evaluation.
unfoldable pub all_below : ℕ → (ℕ → Bool) → Bool
all_below zero test = true
all_below (suc bound) test = all_below bound test && test bound

pub all_below_at :
    (bound : ℕ) (test : ℕ → Bool) (v : ℕ) → v < bound → all_below bound test ≡ true → test v ≡ true
unfolding all_below
all_below_at zero test v lt passed = absurd (omega arith)
all_below_at (suc bound) test v lt passed = ground (arith, all_below_at bound test v)
