-- ===== src/Driver/Config/Rounding.antt =====
-- The counts derived from the clock.
use voodoo_i2c.Base.{ℕ, ◌+◌, ◌*◌, ◌≤◌, ◌<◌, ◌^◌, ◌≡◌, arith}
use voodoo_i2c.Base.Words.{u32, add32, sub32}
use voodoo_i2c.Driver.Config.{div_round_closest_ull, vi2c_scl_hcnt, vi2c_scl_lcnt}

-- `q` is a nearest whole number to the quotient of `x` by the divisor `n`: twice the distance of
-- `n * q` and `x` is at most `n`.
pub IsNearest : ℕ → ℕ → ℕ → Type 0
IsNearest x n q = (2 * x ≤ 2 * (n * q) + n) × (2 * (n * q) ≤ 2 * x + n)

-- A rounded quotient of at least 3 loses nothing when it is stored less 3.
rounded-IsNearest :
    (x less : ℕ)
    → less ≤ 3
    → 2_500_000 ≤ x
    → x < 2 ^ 32
    → IsNearest x 1_000_000 (sub32 (u32 (div_round_closest_ull x 1_000_000)) less + less)
unfolding div_round_closest_ull IsNearest
rounded-IsNearest x less l h fits = (omega arith, omega arith)

-- Nothing wraps in the counts where the clock in kHz times the two times in ns is at least 2.5
-- million and below 2^32, and the sum of the times is below 2^32: three more than the high count,
-- and one more than the low count, are nearest whole numbers to the clock cycles in the two times.
pub counts-IsNearest :
    (clk t t_fall : ℕ)
    → t + t_fall < 2 ^ 32
    → 2_500_000 ≤ clk * (t + t_fall)
    → clk * (t + t_fall) < 2 ^ 32
    → IsNearest (clk * (t + t_fall)) 1_000_000 (vi2c_scl_hcnt clk t t_fall + 3)
      × IsNearest (clk * (t + t_fall)) 1_000_000 (vi2c_scl_lcnt clk t t_fall + 1)
unfolding vi2c_scl_hcnt vi2c_scl_lcnt
counts-IsNearest clk t t_fall small enough fits =
    let whole : add32 t t_fall ≡ t + t_fall = omega arith in
    (
      rw whole (rounded-IsNearest (clk * (t + t_fall)) 3 (omega arith) enough fits),
      rw whole (rounded-IsNearest (clk * (t + t_fall)) 1 (omega arith) enough fits),
    )
