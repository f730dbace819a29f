-- ===== src/Prelude/Ranges.antt =====
-- A property of all the numbers below a bound, checked by evaluation.
use Prim.Native.Nat.{ℕ, zero, suc, ◌<◌}
use mathlib.Core.Path.{◌≡◌}
use mathlib.Core.Bool.{Bool, true, ◌&&◌}
use native.Mathlib.Omega.{arith}

-- The test succeeds on `bound - 1`, ..., 1, 0.
unfoldable pub each_below : (ℕ → Bool) → ℕ → Bool
each_below test zero = true
each_below test (suc bound) = let below = each_below test bound in below && test bound

pub each_below_at :
    (test : ℕ → Bool) (bound n : ℕ) → n < bound → each_below test bound ≡ true → test n ≡ true
unfolding each_below
each_below_at test zero n small h = absurd (omega arith)
each_below_at test (suc bound) n small h = ground (arith, each_below_at test bound n)
