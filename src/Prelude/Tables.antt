-- ===== src/Prelude/Tables.antt =====
-- Facts about all numbers of a small range, by evaluation of a test on each.
use Prim.Native.Nat.{ℕ, zero, suc, ◌<◌}
use mathlib.Core.Path.{◌≡◌}
use mathlib.Core.Bool.{Bool, true, ◌&&◌}
use native.Mathlib.Omega.{arith}

-- The test holds at every number below the bound.
unfoldable pub holds_below : (ℕ → Bool) → ℕ → Bool
holds_below test zero = true
holds_below test (suc n) = holds_below test n && test n

pub test_of_below :
    (test : ℕ → Bool) (bound x : ℕ) → holds_below test bound ≡ true → x < bound → test x ≡ true
unfolding holds_below
test_of_below test zero x h lt = absurd (omega arith)
test_of_below test (suc n) x h lt = ground (arith, test_of_below test n x)
