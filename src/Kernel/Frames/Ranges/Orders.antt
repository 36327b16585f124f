-- ===== src/Kernel/Frames/Ranges/Orders.antt =====
-- The order asked for, and the smallest one for which there is a free block.
use Prim.Native.Nat.{bit_and, min}
use native.Mathlib.Nat.{pow-suc}
use johnbeauty_os.Prelude.{
  ℕ, zero, suc, ◌-◌, ◌/◌, ◌^◌, ◌≤◌, ◌<◌, ◌≡◌, ◌≢◌, ◌∙◌, refl, sym, ap, true, false, List, [], ◌∷◌,
  arith, some, Bool-cases, inl, inr, dec_lt, ◌==◌, ltb, leb, if◌then◌else◌, if_intro,
}
use johnbeauty_os.Prelude.Members.{has}
use johnbeauty_os.Prelude.Bits.{pow-pos}
use johnbeauty_os.Prelude.Digits.{
  digit, digit_bound, digit-bit_and, digit_ones, digit_inverse, bit_and_bound, pow_less,
}
use johnbeauty_os.Dsa.Bitmap.{trailing_zeros}
use johnbeauty_os.Dsa.Bitmap.Zeros.{trailing_zeros_lem}
use johnbeauty_os.Kernel.Frames.{Pfa, order_of, frames_to_order, is_empty}
use johnbeauty_os.Kernel.Frames.Blocks.{is_head, FreeAt, IsPfa}
use johnbeauty_os.Kernel.Frames.Ranges.{orders_from, first}

order_of_lem : (rounds v : ℕ) → v < 2 ^ rounds → v < 2 ^ order_of rounds v
unfolding order_of
order_of_lem zero v h = h
order_of_lem (suc rounds) v h =
    if_intro (λ o. v < 2 ^ o) (v == 0) _ _ (λ e. ground (arith, e))
      (λ e. omega (
        arith,
        pow-suc 2 (order_of rounds (v / 2)),
        order_of_lem rounds (v / 2) (omega (arith, pow-suc 2 rounds)),
      ))

order_of_least : (rounds v k : ℕ) → v < 2 ^ k → order_of rounds v ≤ k
unfolding order_of
order_of_least zero v k h = omega arith
order_of_least (suc rounds) v zero h =
    if_intro (λ o. o ≤ 0) (v == 0) _ _ (λ e. omega arith) (λ e. absurd (ground (arith, e)))
order_of_least (suc rounds) v (suc k) h =
    if_intro (λ o. o ≤ suc k) (v == 0) _ _ (λ e. omega arith)
      (λ e. omega (arith, order_of_least rounds (v / 2) k (omega (arith, pow-suc 2 k))))

-- The order of a block for `n` frames: they fit, and an order that they fit in is not smaller.
pub frames_to_order_lem :
    (n k : ℕ) → n < 2 ^ 32 → (n ≤ 2 ^ frames_to_order n) × (n ≤ 2 ^ k → frames_to_order n ≤ k)
unfolding frames_to_order
frames_to_order_lem n k h =
    if_intro (λ o. (n ≤ 2 ^ o) × (n ≤ 2 ^ k → o ≤ k)) (leb n 1) _ _
      (λ e. (ground (arith, e), λ le. omega arith))
      (λ e. (
        omega (arith, order_of_lem 32 (n - 1) (omega arith)),
        λ le. order_of_least 32 (n - 1) k (omega (arith, pow-pos k)),
      ))

digit_small : (n k : ℕ) → n < 2 ^ k → digit n k ≡ 0
unfolding digit
digit_small n zero h = omega arith
digit_small n (suc k) h = digit_small (n / 2) k (omega (arith, pow-suc 2 k))

pub pow-le : (j k : ℕ) → j ≤ k → 2 ^ j ≤ 2 ^ k
pow-le j k h = elim (dec_lt j k) [
  | yes lt ↦ omega (arith, pow_less j k lt)
  | no ge ↦ let same : j ≡ k = omega arith in omega (arith, ap (λ i. 2 ^ i) same)
]

digit_orders : (t k : ℕ) → t < 32 → k < 32 → digit (orders_from t) k ≡ (if ltb k t then 0 else 1)
digit_orders t k h g =
    let shape : orders_from t ≡ 2 ^ 32 - 1 - (2 ^ t - 1) =
      omega (arith, pow-pos t, pow_less t 32 h) in
    ap (λ n. digit n k) shape
    ∙ digit_inverse 32 (2 ^ t - 1) k (omega (arith, pow_less t 32 h)) g
    ∙ if_intro (λ b. 1 - digit (2 ^ t - 1) k ≡ b) (ltb k t) _ _
        (λ e. omega (arith, digit_ones t k (ground (arith, e))))
        (λ e. omega (
          arith,
          digit_small (2 ^ t - 1) k (omega (arith, pow-pos t, pow-le t k (ground (arith, e)))),
        ))

not_empty-first :
    (fs : List ℕ) → is_empty fs ≡ false → (f : ℕ) × (first fs ≡ some f) × (has f fs ≡ true)
unfolding has
not_empty-first [] h = absurd (ground (arith, h))
not_empty-first (f ∷ fs) h = (f, refl, ground arith)

empty_has : (f : ℕ) (fs : List ℕ) → is_empty fs ≡ true → has f fs ≡ false
unfolding has
empty_has f [] h = refl
empty_has f (x ∷ fs) h = absurd (ground (arith, h))

-- An order whose digit is set in the mask has a free block.
module _ (pfa : Pfa) (o : ℕ) (v : IsPfa pfa) (in_mask : digit pfa.free_order_bitmap o ≡ 1) where
  pub low_order : o ≤ 10
  low_order = elim (dec_lt 10 o) [
    | yes high ↦ absurd (omega (arith, v.mask_high o high, in_mask))
    | no le ↦ omega arith
  ]

  pub first_head : (f : ℕ) × (first (pfa.free_area o) ≡ some f) × (is_head pfa f o ≡ true)
  first_head =
      let full : is_empty (pfa.free_area o) ≡ false =
        elim (Bool-cases (is_empty (pfa.free_area o))) [
          | inl bare ↦ absurd (ground (arith, v.mask o low_order, in_mask, bare))
          | inr full ↦ full
        ] in
      let (f, head, here) = not_empty-first (pfa.free_area o) full in
      (f, head, sym (v.lists f o low_order) ∙ here)

-- A mask that is not 0 names the order of a free block.
pub found_any :
    (pfa : Pfa)
    → IsPfa pfa
    → pfa.free_order_bitmap ≢ 0
    → let o = trailing_zeros 32 pfa.free_order_bitmap in
      (o ≤ 10) × ((f : ℕ) × (first (pfa.free_area o) ≡ some f) × (is_head pfa f o ≡ true))
found_any pfa v ne =
    let (lt, one, lower) = trailing_zeros_lem 32 pfa.free_order_bitmap v.mask_word ne in
    let o = trailing_zeros 32 pfa.free_order_bitmap in
    (low_order pfa o v one, first_head pfa o v one)

-- A mask that is 0 names none.
pub nothing_free : (pfa : Pfa) → IsPfa pfa → pfa.free_order_bitmap ≡ 0 → (x : ℕ) → FreeAt pfa x → ⊥
nothing_free pfa v e x w =
    let gone : digit pfa.free_order_bitmap w.order ≡ 0 =
      ap (λ n. digit n w.order) e ∙ digit_small 0 w.order (pow-pos w.order) in
    let empty : is_empty (pfa.free_area w.order) ≡ true =
      ground (arith, v.mask w.order w.small, gone) in
    ground (
      arith,
      empty_has w.block (pfa.free_area w.order) empty,
      v.lists w.block w.order w.small,
      w.head,
    )

module _ (pfa : Pfa) (t : ℕ) (v : IsPfa pfa) (small : t < 32) where
  abbrev pub masked : ℕ
  masked = bit_and pfa.free_order_bitmap (orders_from t)

  masked_bound : masked < 2 ^ 32
  masked_bound = bit_and_bound 32 pfa.free_order_bitmap (orders_from t) v.mask_word (omega arith)

  digit-masked :
      (k : ℕ)
      → k < 32
      → digit masked k ≡ min (digit pfa.free_order_bitmap k) (if ltb k t then 0 else 1)
  digit-masked k h =
      digit-bit_and pfa.free_order_bitmap (orders_from t) k
      ∙ ap (min (digit pfa.free_order_bitmap k)) (digit_orders t k small h)

  -- Where the mask is not 0, its lowest digit is the order of a list, and a block in it is free.
  pub found :
      masked ≢ 0
      → let o = trailing_zeros 32 masked in
        (o ≤ 10)
        × (t ≤ o)
        × ((f : ℕ) × (first (pfa.free_area o) ≡ some f) × (is_head pfa f o ≡ true))
  found ne =
      let o = trailing_zeros 32 masked in
      let (lt, one, lower) = trailing_zeros_lem 32 masked masked_bound ne in
      let bits = digit-masked o lt in
      let in_mask : digit pfa.free_order_bitmap o ≡ 1 =
        grind (arith, bits, one, digit_bound pfa.free_order_bitmap o) in
      let wanted : t ≤ o = grind (arith, bits, one, digit_bound pfa.free_order_bitmap o) in
      (low_order pfa o v in_mask, wanted, first_head pfa o v in_mask)

  -- Where it is 0, there is no free block of the order or a larger one.
  pub none_found : masked ≡ 0 → (f o : ℕ) → o ≤ 10 → t ≤ o → is_head pfa f o ≡ false
  none_found e f o h le =
      let bits = digit-masked o (omega arith) in
      let gone : digit masked o ≡ 0 = ap (λ n. digit n o) e ∙ digit_small 0 o (pow-pos o) in
      let out : digit pfa.free_order_bitmap o ≡ 0 =
        grind (arith, bits, gone, digit_bound pfa.free_order_bitmap o) in
      let empty : is_empty (pfa.free_area o) ≡ true = ground (arith, v.mask o h, out) in
      sym (v.lists f o h) ∙ empty_has f (pfa.free_area o) empty
