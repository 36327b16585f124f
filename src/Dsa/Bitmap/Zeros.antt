-- ===== src/Dsa/Bitmap/Zeros.antt =====
-- The search of `dsa/bitmap.c` for the first bit that is 0.
use johnbeauty_os.Prelude.{
  ℕ, zero, suc, ◌+◌, ◌-◌, ◌*◌, ◌/◌, ◌%◌, ◌^◌, ◌≤◌, ◌<◌, ◌≡◌, ◌≢◌, ◌∙◌, refl, sym, ap, ap₂, List, [],
  ◌∷◌, length, take, get_or, ◌==◌, ltb, if_intro, arith, dec_lt,
}
use native.Mathlib.Nat.{pow-suc}
use johnbeauty_os.Prelude.Predicates.{All}
use johnbeauty_os.Prelude.Digits.{digit, digit_bound, digit_inverse, digit_ones}
use johnbeauty_os.Dsa.Bitmap.{Bitmap, ones, trailing_zeros, zero_in, zero_from, find_first_zero}
use johnbeauty_os.Dsa.Bitmap.Digits.{IsBitmap, bit_at}

zeros_below :
    (n k t : ℕ) → n % 2 ≡ 0 → ((j : ℕ) → j < t → digit (n / 2) j ≡ 0) → k < suc t → digit n k ≡ 0
unfolding digit
zeros_below n zero t e low h = e
zeros_below n (suc k) t e low h = low k (omega arith)

-- The lowest digit of a number that is not 0.
pub trailing_zeros_lem :
    (width n : ℕ)
    → n < 2 ^ width
    → n ≢ 0
    → (trailing_zeros width n < width)
      × (digit n (trailing_zeros width n) ≡ 1)
      × ((k : ℕ) → k < trailing_zeros width n → digit n k ≡ 0)
unfolding trailing_zeros digit
trailing_zeros_lem zero n h ne = absurd (ne (omega arith))
trailing_zeros_lem (suc width) n h ne =
    let P : ℕ → Type 0 =
      λ z. (z < suc width) × (digit n z ≡ 1) × ((k : ℕ) → k < z → digit n k ≡ 0) in
    if_intro P (n % 2 == 0) _ _
      (λ e.
        let (a, b, c) =
          trailing_zeros_lem width (n / 2) (omega (arith, pow-suc 2 width))
            (λ none. ne (ground arith)) in
        (
          omega arith,
          b,
          λ k lt. zeros_below n k (trailing_zeros width (n / 2)) (ground arith) c lt,
        ))
      (λ e. (omega arith, ground arith, λ k lt. absurd (omega arith)))

-- The words `ns` from number `w` on hold the bits `b`.
Holds : (ℕ → ℕ) → ℕ → List ℕ → Type 0
Holds b w [] = Unit
Holds b w (n ∷ ns) =
    (n < 2 ^ 32) × ((k : ℕ) → k < 32 → digit n k ≡ b (w * 32 + k)) × Holds b (suc w) ns

module _ (count : ℕ) (b : ℕ → ℕ) where
  -- From `low` on, `z` is the first bit that is 0, or the number of bits where there is none.
  pub record IsFirst (low z : ℕ) : Type 0 where
    pub at_most : z ≤ count
    pub is_zero : z < count → b z ≡ 0
    pub ones_before : (j : ℕ) → low ≤ j → j < z → b j ≡ 1

  -- A word whose bits in use are all 1 is passed over.
  passed :
      (w z : ℕ)
      → IsFirst (suc w * 32) z
      → ((k : ℕ) → k < 32 → w * 32 + k < count → b (w * 32 + k) ≡ 1)
      → IsFirst (w * 32) z
  passed w z f full = record {
    at_most = f.at_most;
    is_zero = f.is_zero;
    ones_before = λ j h lt. elim (dec_lt j (suc w * 32)) [
      | yes inside ↦
          let same_bit : w * 32 + (j - w * 32) ≡ j = omega arith in
          rw same_bit at (full (j - w * 32) (omega arith) (omega (arith, f.at_most)))
      | no behind ↦ f.ones_before j (omega arith) lt
    ];
  }

  found :
      (w n : ℕ) (ns : List ℕ)
      → Holds b w (n ∷ ns)
      → w < 2 ^ 27
      → n ≢ ones
      → (zero_in w n ≡ w * 32 + trailing_zeros 32 (ones - n))
        × (b (zero_in w n) ≡ 0)
        × ((k : ℕ) → k < trailing_zeros 32 (ones - n) → b (w * 32 + k) ≡ 1)
  unfolding Holds
  found w n ns h small ne =
      let t = trailing_zeros 32 (ones - n) in
      let (a, c, d) =
        trailing_zeros_lem 32 (ones - n) (omega arith) (λ none. ne (omega (arith, h.0))) in
      let place : zero_in w n ≡ w * 32 + t = omega arith in
      let zero_there : digit n t ≡ 0 =
        omega (arith, digit_inverse 32 n t h.0 a, c, digit_bound n t) in
      (
        place,
        rw (place, sym (h.1 t a)) zero_there,
        λ k lt.
            sym (h.1 k (omega arith))
            ∙ omega (arith, digit_inverse 32 n k h.0 (omega arith), d k lt, digit_bound n k),
      )

  zero_from-IsFirst :
      (w : ℕ) (ns : List ℕ)
      → Holds b w ns
      → w + length ns ≤ 2 ^ 27
      → count ≤ (w + length ns) * 32
      → IsFirst (w * 32) (zero_from count w ns)
  unfolding zero_from Holds
  zero_from-IsFirst w [] h small cover = record {
    at_most = omega arith;
    is_zero = λ lt. absurd (omega arith);
    ones_before = λ j a c. absurd (omega arith);
  }
  zero_from-IsFirst w (n ∷ ns) h small cover =
      let rest = zero_from-IsFirst (suc w) ns h.2 (omega arith) (omega arith) in
      if_intro (IsFirst (w * 32)) (n == ones) _ _
        (λ e. passed w _ rest (λ k lt c.
          let same : n ≡ ones = ground arith in sym (h.1 k lt) ∙ rw same (digit_ones 32 k lt)))
        (λ e.
          let (place, is_zero, before) = found w n ns h (omega arith) (ground arith) in
          if_intro (IsFirst (w * 32)) (ltb (zero_in w n) count) _ _
            (λ f. record {
              at_most = ground arith;
              is_zero = λ lt. is_zero;
              ones_before = λ j a c.
                  let same_bit : w * 32 + (j - w * 32) ≡ j = omega arith in
                  rw same_bit at (before (j - w * 32) (omega arith));
            })
            (λ f. passed w _ rest (λ k lt c. before k (ground arith))))

Holds-bits :
    (b : ℕ → ℕ) (w : ℕ) (ns : List ℕ)
    → All (λ n. n < 2 ^ 32) ns
    → ((i k : ℕ) → k < 32 → digit (get_or ns i 0) k ≡ b ((w + i) * 32 + k))
    → Holds b w ns
unfolding Holds
Holds-bits b w [] all h = tt
Holds-bits b w (n ∷ ns) all h = (
  all.0,
  λ k lt. let here : w ≡ w + 0 = omega arith in h 0 k lt ∙ ap (λ v. b (v * 32 + k)) (sym here),
  Holds-bits b (suc w) ns all.1 (λ i k lt.
      let next : w + suc i ≡ suc w + i = omega arith in
      h (suc i) k lt ∙ ap (λ v. b (v * 32 + k)) next),
)

take-all : (xs : List ℕ) → take (length xs) xs ≡ xs
take-all [] = refl
take-all (x ∷ xs) = ap (λ l. x ∷ l) (take-all xs)

-- The search of a well-formed bitmap ends at its first bit that is 0: the result is the number of bits or
-- a bit that is 0, and all bits before it are 1.
pub find_first_zero-IsFirst :
    (bm : Bitmap) → IsBitmap bm → IsFirst bm.count (bit_at bm) 0 (find_first_zero bm)
unfolding find_first_zero bit_at
find_first_zero-IsFirst bm v =
    let whole : take bm.words bm.bits ≡ bm.bits = rw (sym v.storage) (take-all bm.bits) in
    rw whole (
      zero_from-IsFirst bm.count (bit_at bm) 0 bm.bits
        (Holds-bits (bit_at bm) 0 bm.bits v.in_words
          (λ i k lt. ap₂ (λ u v. digit (get_or bm.bits u 0) v) (omega arith) (omega arith)))
        (omega (arith, v.storage, v.words_eq, v.no_wrap)) (omega (arith, v.storage, v.words_eq)))
