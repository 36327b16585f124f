-- ===== src/Dsa/Bitmap/Digits.antt =====
-- The bits of a bitmap of `dsa/bitmap.c` after a set and a clear.
use Prim.Native.Nat.{bit_and, bit_or}
use johnbeauty_os.Prelude.{
  ℕ, zero, suc, ◌+◌, ◌-◌, ◌/◌, ◌%◌, ◌^◌, ◌<◌, ◌≡◌, sym, ℕ_discrete, List, length, get_or,
  get_or-set_self, get_or-set_ne, length-set, set, ◌∙◌, [], ◌∷◌, ◌==◌, ltb, if◌then◌else◌, if_true,
  if_false, arith, ltb→lt, refl, some, ◌&&◌, Bool-cases, inl, inr,
}
use johnbeauty_os.Prelude.Predicates.{All}
use johnbeauty_os.Prelude.Digits.{
  digit, digit_bound, digit-bit_and, digit-bit_or, digit-pow, digit_other, pow_less, bit_or_bound,
  bit_and_bound,
}
use johnbeauty_os.Dsa.Bitmap.{Bitmap, bitmap_set, bitmap_clear, on_word, ones}

-- The array has the words that the bits take, and the number of bits rounded up does not wrap.
pub record IsBitmap (bm : Bitmap) : Type 0 where
  pub words_eq : bm.words ≡ (bm.count + 31) / 32
  pub storage : length bm.bits ≡ bm.words
  pub no_wrap : bm.count + 32 < 2 ^ 32
  pub in_words : All (λ n. n < 2 ^ 32) bm.bits

-- Bit `j`, which is 0 or 1.
unfoldable pub bit_at : Bitmap → ℕ → ℕ
bit_at bm j = digit (get_or bm.bits (j / 32) 0) (j % 32)

-- The array with one word rewritten.
abbrev rewritten : Bitmap → ℕ → (ℕ → ℕ) → Bitmap
rewritten bm w f = record bm { bits = set bm.bits w (f (get_or bm.bits w 0)) }

-- A word rewritten in such a way that its digit `i % 32` becomes `v` and the others stay.
bit_at-rewritten :
    (bm : Bitmap) (i j v : ℕ) (f : ℕ → ℕ)
    → IsBitmap bm
    → i < bm.count
    → ((n k : ℕ) → k < 32 → digit (f n) k ≡ (if k == i % 32 then v else digit n k))
    → bit_at (rewritten bm (i / 32) f) j ≡ (if j == i then v else bit_at bm j)
unfolding bit_at
bit_at-rewritten bm i j v f b h hf =
    let word = get_or bm.bits (i / 32) 0 in
    elim (ℕ_discrete (i / 32) (j / 32)) [
      | yes e ↦
          rw
            (
              sym e,
              get_or-set_self bm.bits (i / 32) (f word) 0 (omega (arith, b.words_eq, b.storage)),
            )
            (grind (arith, hf word (j % 32) (omega arith)))
      | no ne ↦ rw (get_or-set_ne bm.bits (i / 32) (j / 32) (f word) 0 ne) (grind arith)
    ]

All-set :
    (xs : List ℕ) (i v : ℕ)
    → All (λ n. n < 2 ^ 32) xs
    → v < 2 ^ 32
    → All (λ n. n < 2 ^ 32) (set xs i v)
All-set [] i v all h = tt
All-set (x ∷ xs) zero v all h = (h, all.1)
All-set (x ∷ xs) (suc i) v all h = (all.0, All-set xs i v all.1 h)

All-get_or : (xs : List ℕ) (i : ℕ) → All (λ n. n < 2 ^ 32) xs → get_or xs i 0 < 2 ^ 32
All-get_or [] i all = omega arith
All-get_or (x ∷ xs) zero all = all.0
All-get_or (x ∷ xs) (suc i) all = All-get_or xs i all.1

rewritten-IsBitmap :
    (bm : Bitmap) (w : ℕ) (f : ℕ → ℕ)
    → IsBitmap bm
    → ((n : ℕ) → n < 2 ^ 32 → f n < 2 ^ 32)
    → IsBitmap (rewritten bm w f)
rewritten-IsBitmap bm w f v hf = record {
  words_eq = v.words_eq;
  no_wrap = v.no_wrap;
  storage = length-set bm.bits w (f (get_or bm.bits w 0)) ∙ v.storage;
  in_words =
      All-set bm.bits w (f (get_or bm.bits w 0)) v.in_words
        (hf (get_or bm.bits w 0) (All-get_or bm.bits w v.in_words));
}

-- What writing `v` to bit `i` leaves: that bit is `v`, if it is one of the bitmap, and all others of the
-- array are as they were.
pub record Written (bm : Bitmap) (i v : ℕ) (bm' : Bitmap) : Type 0 where
  pub valid : IsBitmap bm'
  pub bits : (j : ℕ) → bit_at bm' j ≡ (if ltb i bm.count && j == i then v else bit_at bm j)
  pub count : bm'.count ≡ bm.count

write-Written :
    (bm : Bitmap) (i v : ℕ) (f : ℕ → ℕ)
    → IsBitmap bm
    → ((n : ℕ) → n < 2 ^ 32 → f n < 2 ^ 32)
    → ((n k : ℕ) → k < 32 → digit (f n) k ≡ (if k == i % 32 then v else digit n k))
    → (bm' : Bitmap) × ((if ltb i bm.count then on_word bm (i / 32) f else some bm) ≡ some bm')
      × Written bm i v bm'
write-Written bm i v f b small hf = elim (Bool-cases (ltb i bm.count)) [
  | inl e ↦
      let h : i < bm.count = ltb→lt _ _ e in
      (
        rewritten bm (i / 32) f,
        if_true (ltb i bm.count) _ _ e
            ∙ if_true (ltb (i / 32) (length bm.bits)) _ _
                (ground (arith, b.words_eq, b.storage, h)),
        record {
          valid = rewritten-IsBitmap bm (i / 32) f b small;
          bits = λ j. bit_at-rewritten bm i j v f b h hf ∙ ground (arith, e);
          count = refl;
        },
      )
  | inr e ↦ (
    bm,
    if_false (ltb i bm.count) _ _ e,
    record { valid = b; bits = λ j. ground (arith, e); count = refl },
  )
]

-- On a bitmap that is well formed, a set and a clear stay within the array and leave the bitmap so. A set
-- of a bit that is less than the number of bits makes it 1 and a clear makes it 0; both leave every
-- other bit of the array, and with a bit beyond that number they leave all bits, as they were.
pub bit_at-changed :
    (bm : Bitmap) (i : ℕ)
    → IsBitmap bm
    → ((bm' : Bitmap) × (bitmap_set bm i ≡ some bm') × Written bm i 1 bm')
      × ((bm' : Bitmap) × (bitmap_clear bm i ≡ some bm') × Written bm i 0 bm')
unfolding bitmap_set bitmap_clear
bit_at-changed bm i b = (
  write-Written bm i 1 (λ n. bit_or n (2 ^ (i % 32))) b
      (λ n h. bit_or_bound 32 n (2 ^ (i % 32)) h (pow_less (i % 32) 32 (omega arith)))
      (λ n k g.
        grind (arith, digit-bit_or n (2 ^ (i % 32)) k, digit-pow (i % 32) k, digit_bound n k)),
  write-Written bm i 0 (λ n. bit_and n (ones - 2 ^ (i % 32))) b
      (λ n h. bit_and_bound 32 n (ones - 2 ^ (i % 32)) h (omega arith))
      (λ n k g. grind (
        arith,
        digit-bit_and n (ones - 2 ^ (i % 32)) k,
        digit_other 32 (i % 32) k (omega arith) g,
        digit_bound n k,
      )),
)
