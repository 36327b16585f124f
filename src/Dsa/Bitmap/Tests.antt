-- ===== src/Dsa/Bitmap/Tests.antt =====
-- The theorems on `dsa/bitmap.c` at a bitmap of 40 bits, the first 33 of which are set.
use johnbeauty_os.Prelude.{◌≡◌, refl, [], ◌∷◌, none, some, arith}
use johnbeauty_os.Dsa.Bitmap.{
  Bitmap, bitmap_init, bitmap_set, bitmap_clear, bitmap_test, find_first_zero, zero_from,
  trailing_zeros,
}
use johnbeauty_os.Dsa.Bitmap.Digits.{IsBitmap, bit_at, Written, bit_at-changed}
use johnbeauty_os.Dsa.Bitmap.Zeros.{IsFirst, find_first_zero-IsFirst}

abbrev used : Bitmap
used = record { bits = 0xFFFFFFFF ∷ 5 ∷ []; count = 40; words = 2 }

init_used : bitmap_init (0xFFFFFFFF ∷ 5 ∷ []) 40 ≡ used
unfolding bitmap_init
init_used = refl

used-IsBitmap : IsBitmap used
used-IsBitmap = record {
  words_eq = refl;
  storage = refl;
  no_wrap = omega arith;
  in_words = (omega arith, (omega arith, tt));
}

first_zero_used : find_first_zero used ≡ 33
unfolding find_first_zero zero_from trailing_zeros
first_zero_used = refl

-- The test of bit 10 reads word 10 of an array of two.
test_beyond : bitmap_test used 10 ≡ none
unfolding bitmap_test
test_beyond = refl

bit_at-changed_example :
    ((bm' : Bitmap) × (bitmap_set used 33 ≡ some bm') × Written used 33 1 bm')
    × ((bm' : Bitmap) × (bitmap_clear used 33 ≡ some bm') × Written used 33 0 bm')
bit_at-changed_example = bit_at-changed used 33 used-IsBitmap

find_first_zero-IsFirst_example : IsFirst 40 (bit_at used) 0 (find_first_zero used)
find_first_zero-IsFirst_example = find_first_zero-IsFirst used used-IsBitmap
