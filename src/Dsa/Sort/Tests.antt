-- ===== src/Dsa/Sort/Tests.antt =====
-- The theorem on `dsa/sort.c` at an array of five numbers, two of them equal.
use johnbeauty_os.Prelude.{ℕ, ◌≡◌, refl, Bool, ltb, List, [], ◌∷◌, arith}
use johnbeauty_os.Dsa.Sort.{insertion_sort, in_array, sort_from, swap_down}
use johnbeauty_os.Dsa.Sort.Order.{IsOrder, IsAscending, insertion_sort-IsAscending}
use mathlib.Core.List.{Perm}

abbrev greater : ℕ → ℕ → Bool
greater a b = ltb b a

greater-IsOrder : IsOrder greater
greater-IsOrder = record { asymm = λ a b h. grind arith; trans = λ a b c h k. grind arith }

abbrev numbers : List ℕ
numbers = 4 ∷ 1 ∷ 3 ∷ 1 ∷ 2 ∷ []

sorted_numbers : insertion_sort greater numbers ≡ 1 ∷ 1 ∷ 2 ∷ 3 ∷ 4 ∷ []
unfolding insertion_sort in_array sort_from swap_down
sorted_numbers = refl

insertion_sort-IsAscending_example :
    IsAscending greater (insertion_sort greater numbers)
    × Perm (insertion_sort greater numbers) numbers
insertion_sort-IsAscending_example = insertion_sort-IsAscending greater numbers greater-IsOrder
