-- ===== src/Dsa/Sort.antt =====
-- The insertion sort of `dsa/sort.c`, over the elements of an array and any comparison: `gt a b` is
-- `cmp(a, b) > 0`. The elements below the index are kept as a list with the last one first, which is
-- how the inner loop meets them.
mod Order
mod Tests
use johnbeauty_os.Prelude.{Bool, List, [], ◌∷◌, if◌then◌else◌}

module _ {ℓ} {A : Type ℓ} (gt : A → A → Bool) where
  -- The inner loop: the element at `j`, swapped with those in front of it that are greater.
  unfoldable pub swap_down : List A → A → List A
  swap_down [] x = x ∷ []
  swap_down (y ∷ left) x = if gt y x then y ∷ swap_down left x else x ∷ y ∷ left

  -- The outer loop over the elements that are left.
  unfoldable pub sort_from : List A → List A → List A
  sort_from left [] = left
  sort_from left (x ∷ todo) = sort_from (swap_down left x) todo

  -- The array in its order again.
  unfoldable pub in_array : List A → List A → List A
  in_array [] right = right
  in_array (x ∷ left) right = in_array left (x ∷ right)

  unfoldable pub insertion_sort : List A → List A
  insertion_sort xs = in_array (sort_from [] xs) []
