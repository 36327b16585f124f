-- ===== src/Dsa/Search/Tests.antt =====
-- The theorems on `dsa/search.c` at the array of the first five even numbers.
use johnbeauty_os.Prelude.{ℕ, ◌*◌, ◌≡◌, ◌≢◌, ◌≤◌, ◌<◌, none, some, arith, ltb, if◌then◌else◌}
use johnbeauty_os.Dsa.Search.{Sign, less, equal, greater, is_greater, is_less, bsearch}
use johnbeauty_os.Dsa.Search.Bounds.{IsSorted, IsSplit, bsearch_finds_first}

abbrev element : ℕ → ℕ
element i = i * 2

abbrev compare_key : ℕ → ℕ → Sign
compare_key key x = if ltb key x then less else if ltb x key then greater else equal

even_numbers-IsSorted : IsSorted element compare_key 4 5
unfolding IsSplit is_greater is_less
even_numbers-IsSorted = record {
  greater_first = λ i j le lt h. ground arith;
  less_last = λ i j le lt h. ground arith;
}

bsearch_finds_first_example :
    ((i : ℕ)
      → i < 5
      → compare_key 4 (element i) ≡ equal
      → (r : ℕ) × (bsearch element compare_key 4 5 ≡ some r)
        × (r ≤ i)
        × (compare_key 4 (element r) ≡ equal))
    × (((i : ℕ) → i < 5 → compare_key 4 (element i) ≢ equal)
        → bsearch element compare_key 4 5 ≡ none)
bsearch_finds_first_example = bsearch_finds_first element compare_key 4 5 even_numbers-IsSorted
