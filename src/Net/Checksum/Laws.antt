-- ===== src/Net/Checksum/Laws.antt =====
-- What the internet checksum of `net/ipv4.c` computes, and why a receiver accepts it.
use johnbeauty_os.Prelude.{
  ℕ, zero, suc, ◌+◌, ◌-◌, ◌*◌, ◌%◌, ◌^◌, ◌≤◌, ◌<◌, ◌≡◌, ◌∙◌, ap, List, [], ◌∷◌, ◌++◌, arith, length,
  add32,
}
use johnbeauty_os.Prelude.Predicates.{All, All-append}
use johnbeauty_os.Net.Wire.{swap16, swap16-swap16, swap16-lt, store16}
use johnbeauty_os.Net.Checksum.{csum_partial, fold_loop, csum_fold}

abbrev pub IsByte : ℕ → Type 0
IsByte b = b < 2 ^ 8

-- The sum of the big-endian 16-bit words, an odd last byte padded by zero, with no wrap-around.
unfoldable pub words : List ℕ → ℕ
words [] = 0
words (b ∷ []) = b * 2 ^ 8
words (b ∷ c ∷ bs) = b * 2 ^ 8 + c + words bs

pub csum_partial-words :
    (bs : List ℕ) (csum : ℕ)
    → All IsByte bs
    → csum < 2 ^ 32
    → csum_partial bs csum ≡ (csum + words bs) % 2 ^ 32
unfolding csum_partial words swap16
csum_partial-words [] csum h k = omega arith
csum_partial-words (b ∷ []) csum h k = omega arith
csum_partial-words (b ∷ c ∷ bs) csum h k =
    csum_partial-words bs (add32 csum (swap16 (b + c * 2 ^ 8))) h.1.1 (omega arith)
    ∙ omega (arith, h.0, h.1.0)

words-le : (bs : List ℕ) → All IsByte bs → 2 * words bs ≤ 65535 * (length bs + 1)
unfolding words
words-le [] h = omega arith
words-le (b ∷ []) h = omega (arith, h.0)
words-le (b ∷ c ∷ bs) h = omega (arith, h.0, h.1.0, words-le bs h.1.1)

words-append : (n : ℕ) (xs ys : List ℕ) → length xs ≡ 2 * n → words (xs ++ ys) ≡ words xs + words ys
unfolding words
words-append zero [] ys h = omega arith
words-append (suc n) [] ys h = omega arith
words-append n (b ∷ []) ys h = absurd (omega arith)
words-append zero (b ∷ c ∷ xs) ys h = absurd (omega arith)
words-append (suc n) (b ∷ c ∷ xs) ys h = omega (arith, words-append n xs ys (omega arith))

-- The loop of `csum_fold` leaves 16 bits after two rounds, congruent to the sum modulo 65535, never
-- more than the sum, and zero only for zero.
pub fold_loop-ends :
    (csum : ℕ)
    → csum < 2 ^ 32
    → (fold_loop 2 csum < 2 ^ 16)
      × (fold_loop 2 csum % 65535 ≡ csum % 65535)
      × (fold_loop 2 csum ≤ csum)
      × (0 < csum → 0 < fold_loop 2 csum)
unfolding fold_loop
fold_loop-ends csum h = ground arith

csum_fold-eq : (csum : ℕ) → csum < 2 ^ 32 → csum_fold csum ≡ swap16 (65535 - fold_loop 2 csum)
unfolding csum_fold
csum_fold-eq csum h = let (low, _, _, _) = fold_loop-ends csum h in ap swap16 (omega arith)

pub csum_fold-lt : (csum : ℕ) → csum_fold csum < 2 ^ 16
unfolding csum_fold
csum_fold-lt csum = swap16-lt _

-- A message, its two checksum bytes at an even offset and zero while the sum is taken.
module _ (n : ℕ) (front back : List ℕ) (even : length front ≡ 2 * n) (hf : All IsByte front)
    (hb : All IsByte back) (short : length front + length back ≤ 65535) where
  zeroed : ℕ
  zeroed = words front + words back

  zeroed_small : zeroed < 2 ^ 31
  unfolding zeroed
  zeroed_small = omega (arith, words-le front hf, words-le back hb)

  sum_zeroed : csum_partial (front ++ 0 ∷ 0 ∷ back) 0 ≡ zeroed
  unfolding zeroed words
  sum_zeroed =
      csum_partial-words (front ++ 0 ∷ 0 ∷ back) 0
        (All-append IsByte front (0 ∷ 0 ∷ back) hf (omega arith, (omega arith, hb))) (omega arith)
      ∙ omega (arith, words-append n front (0 ∷ 0 ∷ back) even, zeroed_small)

  sum_stored : (c : ℕ) → c < 2 ^ 16 → csum_partial (front ++ store16 c back) 0 ≡ zeroed + swap16 c
  unfolding zeroed words swap16
  sum_stored c hc =
      csum_partial-words (front ++ store16 c back) 0
        (All-append IsByte front (store16 c back) hf (omega arith, (omega arith, hb))) (omega arith)
      ∙ omega (arith, words-append n front (store16 c back) even, zeroed_small)

  stored : swap16 (csum_fold zeroed) ≡ 65535 - fold_loop 2 zeroed
  stored =
      let (below, _, _, _) = fold_loop-ends zeroed (omega (arith, zeroed_small)) in
      rw (csum_fold-eq zeroed (omega (arith, zeroed_small))) (swap16-swap16 _ (omega arith))

  -- The sum that the receiver takes is a positive multiple of 65535, so it folds to all ones.
  all_ones : fold_loop 2 (zeroed + (65535 - fold_loop 2 zeroed)) ≡ 65535
  all_ones =
      let (below, same, upto, _) = fold_loop-ends zeroed (omega (arith, zeroed_small)) in
      let (below', same', _, pos') =
        fold_loop-ends (zeroed + (65535 - fold_loop 2 zeroed)) (omega (arith, zeroed_small)) in
      omega (arith, pos' (omega arith))

  -- A message of at most 65535 bytes besides its checksum, which stands at an even offset, sums to
  -- zero at the receiver once the checksum that the code computes is stored.
  pub csum_verifies :
      csum_fold (
        csum_partial (front ++ store16 (csum_fold (csum_partial (front ++ 0 ∷ 0 ∷ back) 0)) back) 0)
      ≡ 0
  unfolding swap16
  csum_verifies =
      rw (sum_zeroed, sum_stored (csum_fold zeroed) (csum_fold-lt zeroed), stored)
        (rw (
          csum_fold-eq (zeroed + (65535 - fold_loop 2 zeroed)) (omega (arith, zeroed_small)),
          all_ones,
        ))
