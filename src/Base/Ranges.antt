-- ===== src/Base/Ranges.antt =====
-- A test of all numbers below a bound, by evaluation.
use Prim.Native.Nat.{ℕ, zero, suc, ◌<◌}
use mathlib.Core.Path.{◌≡◌}
use mathlib.Core.Bool.{Bool, true, ◌&&◌}
use native.Mathlib.Omega.{arith}

unfoldable pub all_below : (bound : ℕ) (good : ℕ → Bool) → Bool
all_below (suc last) good = good last && all_below last good
all_below zero good = true

pub all_below_sound :
    (bound : ℕ) (good : ℕ → Bool) (k : ℕ) → all_below bound good ≡ true → k < bound → good k ≡ true
unfolding all_below
all_below_sound (suc last) good k every below = ground (arith, all_below_sound last good k)
all_below_sound zero good k every below = absurd (omega arith)
