-- ===== src/Driver/Receive/Ranges.antt =====
-- Where the addresses of a buffer lie.

use voodoo_i2c.Base.{ℕ, zero, suc, ◌+◌, ◌≤◌, ◌<◌, ◌⊎◌, inl, inr, arith}
use voodoo_i2c.Driver.Receive.Slots.{addresses}
use mathlib.Core.List.{Memᴰ}

addresses-bounds : (x a n : ℕ) → Memᴰ x (addresses a n) → (a ≤ x) × (x < a + n)
addresses-bounds x a zero m = elim m [ ]
addresses-bounds x a (suc n) (Memᴰ.head e) = (omega arith, omega arith)
addresses-bounds x a (suc n) (Memᴰ.tail m) =
    let (low, high) = addresses-bounds x (a + 1) n m in (omega (arith, low), omega (arith, high))

-- Two buffers, one behind the other, have no address in common.
pub addresses-apart :
    (a n b k : ℕ)
    → (a + n ≤ b) ⊎ (b + k ≤ a)
    → (x : ℕ) → Memᴰ x (addresses a n)
    → Memᴰ x (addresses b k)
    → ⊥
addresses-apart a n b k order x m m' =
    let (low, high) = addresses-bounds x a n m in
    let (low', high') = addresses-bounds x b k m' in
    elim order [
      | inl h ↦ absurd (omega (arith, h, high, low'))
      | inr h ↦ absurd (omega (arith, h, high', low))
    ]
