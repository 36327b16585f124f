-- ===== src/Dsa/Bitmap.antt =====
-- The bitmap of `dsa/bitmap.c`. The array behind `bits` is a list of words.
mod Digits
pub mod Zeros
mod Tests
use Prim.Native.Nat.{bit_and, bit_or}
use johnbeauty_os.Prelude.{
  ℕ, zero, suc, ◌+◌, ◌-◌, ◌*◌, ◌/◌, ◌%◌, ◌^◌, Bool, false, not, Option, none, some, List, [], ◌∷◌,
  ◌++◌, ◌==◌, ltb, if◌then◌else◌, set, get_or, get_elem?, length, take, drop, replicate, add32,
  sub32, mul32,
}

pub record Bitmap : Type 0 where
  pub bits : List ℕ
  pub count : ℕ
  pub words : ℕ

abbrev pub bits_per_word : ℕ
bits_per_word = 32

-- `0xFFFFFFFFu`.
abbrev pub ones : ℕ
ones = 2 ^ 32 - 1

unfoldable pub bitmap_init : List ℕ → ℕ → Bitmap
bitmap_init bits count = record {
  bits = bits;
  count = count;
  words = sub32 (add32 count bits_per_word) 1 / bits_per_word;
}

-- A word of the array rewritten; there is no result where the array has no such word.
abbrev pub on_word : Bitmap → ℕ → (ℕ → ℕ) → Option Bitmap
on_word bm w f =
    if ltb w (length bm.bits)
    then some (record bm { bits = set bm.bits w (f (get_or bm.bits w 0)) })
    else none

unfoldable pub bitmap_set : Bitmap → ℕ → Option Bitmap
bitmap_set bm i =
    if ltb i bm.count
    then on_word bm (i / bits_per_word) (λ n. bit_or n (2 ^ (i % bits_per_word)))
    else some bm

unfoldable pub bitmap_clear : Bitmap → ℕ → Option Bitmap
bitmap_clear bm i =
    if ltb i bm.count
    then on_word bm (i / bits_per_word) (λ n. bit_and n (ones - 2 ^ (i % bits_per_word)))
    else some bm

abbrev pub has_bit : ℕ → Option ℕ → Option Bool
has_bit i none = none
has_bit i (some n) = some (not (bit_and n (2 ^ (i % bits_per_word)) == 0))

-- The word that is read is the one at `i % 32`, as in the source; there is no result where the array
-- has no such word.
unfoldable pub bitmap_test : Bitmap → ℕ → Option Bool
bitmap_test bm i =
    if ltb i bm.count then has_bit i (get_elem? bm.bits (i % bits_per_word)) else some false

-- The words that `jlos_memset` fills with one byte, all of whose bits are the same.
abbrev pub with_words : Bitmap → ℕ → Bitmap
with_words bm n = record bm { bits = replicate bm.words n ++ drop bm.words bm.bits }

unfoldable pub bitmap_set_all : Bitmap → Bitmap
bitmap_set_all bm = with_words bm ones

unfoldable pub bitmap_clear_all : Bitmap → Bitmap
bitmap_clear_all bm = with_words bm 0

-- `__builtin_ctz` of a number with at most as many digits.
unfoldable pub trailing_zeros : ℕ → ℕ → ℕ
trailing_zeros zero n = 0
trailing_zeros (suc width) n =
    let rest = trailing_zeros width (n / 2) in if n % 2 == 0 then suc rest else 0

abbrev pub zero_in : ℕ → ℕ → ℕ
zero_in w n = add32 (mul32 w bits_per_word) (trailing_zeros 32 (ones - n))

-- The loop over the words that are left, the first of which is number `w`.
unfoldable pub zero_from : ℕ → ℕ → List ℕ → ℕ
zero_from count w [] = count
zero_from count w (n ∷ ns) =
    let rest = zero_from count (suc w) ns in
    if n == ones then rest else if ltb (zero_in w n) count then zero_in w n else rest

unfoldable pub find_first_zero : Bitmap → ℕ
find_first_zero bm = zero_from bm.count 0 (take bm.words bm.bits)
