-- ===== src/Multitouch/Interface/Order.antt =====
-- The order of the engines is the order of their scores.

use voodoo_i2c.Base.{◌≤◌, arith}
use voodoo_i2c.Base.Int.{pos, ◌≤ℤ◌}
use voodoo_i2c.Multitouch.Interface.{Engine, order_engines}

pub score_le : (a b : Engine) → pos 0 ≤ℤ order_engines a b → b.score ≤ a.score
unfolding order_engines
score_le a b h = ground arith

pub le_score : (a b : Engine) → b.score ≤ a.score → pos 0 ≤ℤ order_engines a b
unfolding order_engines
le_score a b h = ground arith
