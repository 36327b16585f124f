-- ===== src/Prelude/Members.antt =====
-- Lists of numbers without repetition, and the removal of one.
use Prim.Native.Nat.{ℕ}
use mathlib.Core.Path.{◌≡◌}
use mathlib.Core.Bool.{Bool, false, ◌||◌}
use mathlib.Core.List.{List, [], ◌∷◌}
use johnbeauty_os.Prelude.Tests.{◌==◌}

unfoldable pub has : ℕ → List ℕ → Bool
has u [] = false
has u (x ∷ xs) = u == x || has u xs

unfoldable pub Distinct : List ℕ → Type 0
unfolding has
Distinct [] = Unit
Distinct (x ∷ xs) = (has x xs ≡ false) × Distinct xs
