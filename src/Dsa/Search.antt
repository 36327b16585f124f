-- ===== src/Dsa/Search.antt =====
-- `dsa/search.c`: the binary searches over `count` elements of `size` bytes each. An element is
-- reached by its number, `element i` for `base + i * size`, and a result is the number of an element;
-- `cmp` is the caller's three-way comparison of the key with an element.
pub mod Bounds
mod Tests
use johnbeauty_os.Prelude.{
  ℕ, zero, suc, ◌+◌, ◌-◌, ◌/◌, Bool, true, false, not, ◌&&◌, Option, none, some, ◌==◌, ltb,
  if◌then◌else◌,
}

-- The sign of what `cmp` returns.
pub data Sign : Type 0 where
  less : Sign
  equal : Sign
  greater : Sign

unfoldable pub is_greater : Sign → Bool
is_greater greater = true
is_greater _ = false

unfoldable pub is_less : Sign → Bool
is_less less = true
is_less _ = false

unfoldable pub is_equal : Sign → Bool
is_equal equal = true
is_equal _ = false

module _ {ℓ} {A : Type ℓ} (element : ℕ → A) where
  -- The loop of both bounds: the elements of which `behind` is true lie before the result. On fuel,
  -- of which `n` is enough.
  unfoldable pub narrow : (A → Bool) → ℕ → ℕ → ℕ → ℕ
  narrow behind zero lo n = lo
  narrow behind (suc fuel) lo n =
      let half = n / 2 in
      let right = narrow behind fuel (lo + half + 1) (n - (half + 1)) in
      let left = narrow behind fuel lo half in
      if n == 0 then lo else if behind (element (lo + half)) then right else left

  module _ {κ} {K : Type κ} (cmp : K → A → Sign) (key : K) where
    unfoldable pub lower_bound : ℕ → ℕ
    unfolding is_greater narrow
    lower_bound count = narrow (λ x. is_greater (cmp key x)) count 0 count

    unfoldable pub upper_bound : ℕ → ℕ
    unfolding is_less narrow
    upper_bound count = narrow (λ x. not (is_less (cmp key x))) count 0 count

    unfoldable pub bsearch : ℕ → Option ℕ
    unfolding lower_bound is_equal
    bsearch count =
        let found = lower_bound count in
        if ltb found count && is_equal (cmp key (element found)) then some found else none
