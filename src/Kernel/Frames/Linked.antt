-- ===== src/Kernel/Frames/Linked.antt =====
-- A block put in the list of its order.
use johnbeauty_os.Prelude.{
  ℕ, ◌+◌, ◌^◌, ◌≤◌, ◌<◌, ◌≡◌, ◌∙◌, refl, ap, true, false, ◌==◌, if◌then◌else◌, arith, Bool-cases,
  inl, inr, ==_iff, ◌↔◌, ◌⊎◌, ◌≢◌, if_intro, if_false, dec_lt,
}
use johnbeauty_os.Prelude.Members.{has, Distinct}
use johnbeauty_os.Prelude.Digits.{
  digit, digit_bound, digit-bit_or, digit-pow, bit_or_bound, pow_less,
}
use johnbeauty_os.Prelude.Bits.{pow-pos}
use johnbeauty_os.Kernel.Frames.{Pfa, invalid, is_empty, linked}
use johnbeauty_os.Kernel.Frames.Blocks.{is_head, FreeAt, IsPfa, IsLoose}

module _ (pfa : Pfa) (frame order : ℕ) (v : IsPfa pfa) (l : IsLoose pfa frame order) where
  first_loose : ((pfa.pages frame).order ≡ invalid) × ((pfa.pages frame).occupied ≡ false)
  first_loose = l.loose frame (omega arith) (omega (arith, pow-pos order))

  inside : frame < pfa.total_frames
  inside = omega (arith, l.fits, pow-pos order)

  not_head : (o : ℕ) → o ≤ 10 → is_head pfa frame o ≡ false
  not_head o h = ground (arith, first_loose)

  head_linked :
      (f o : ℕ)
      → is_head (linked pfa frame order) f o ≡ (if f == frame then o == order else is_head pfa f o)
  unfolding linked
  head_linked f o = elim (Bool-cases (f == frame)) [
    | inl e ↦
        let same : f ≡ frame = (==_iff f frame).0 e in
        ground (arith, e, same, inside, first_loose, l.small)
    | inr e ↦ ground (arith, e)
  ]

  lists_linked :
      (f o : ℕ)
      → o ≤ 10
      → has f ((linked pfa frame order).free_area o) ≡ is_head (linked pfa frame order) f o
  unfolding linked has
  lists_linked f o h = elim (Bool-cases (o == order)) [
    | inl e ↦
        let same : o ≡ order = (==_iff o order).0 e in
        rw (e, same)
          (ground
            (arith, v.lists f order l.small, not_head order l.small, head_linked f order, same, e))
    | inr e ↦ rw e (ground (arith, v.lists f o h, head_linked f o, not_head o h, e))
  ]

  mask_linked :
      (o : ℕ)
      → o ≤ 10
      → digit (linked pfa frame order).free_order_bitmap o
        ≡ (if is_empty ((linked pfa frame order).free_area o) then 0 else 1)
  unfolding linked
  mask_linked o h = elim (Bool-cases (o == order)) [
    | inl e ↦
        let same : o ≡ order = (==_iff o order).0 e in
        rw (e, same)
          (if_intro (λ n. digit n order ≡ 1) (is_empty (pfa.free_area order)) _ _
            (λ none.
              digit-bit_or pfa.free_order_bitmap (2 ^ order) order
              ∙ grind (arith, digit-pow order order, digit_bound pfa.free_order_bitmap order))
            (λ some. v.mask order l.small ∙ ground (arith, some)))
    | inr e ↦ rw e (
        if_intro (λ n. digit n o ≡ (if is_empty (pfa.free_area o) then 0 else 1))
          (is_empty (pfa.free_area order)) _ _
          (λ none.
            digit-bit_or pfa.free_order_bitmap (2 ^ order) o
            ∙ grind (arith, digit-pow order o, v.mask o h, digit_bound pfa.free_order_bitmap o))
          (λ some. v.mask o h))
  ]

  high_linked : (o : ℕ) → 10 < o → digit (linked pfa frame order).free_order_bitmap o ≡ 0
  unfolding linked
  high_linked o h =
      if_intro (λ n. digit n o ≡ 0) (is_empty (pfa.free_area order)) _ _
        (λ none.
          digit-bit_or pfa.free_order_bitmap (2 ^ order) o
          ∙ grind (arith, digit-pow order o, v.mask_high o h, l.small))
        (λ some. v.mask_high o h)

  word_linked : (linked pfa frame order).free_order_bitmap < 2 ^ 32
  unfolding linked
  word_linked =
      if_intro (λ n. n < 2 ^ 32) (is_empty (pfa.free_area order)) _ _
        (λ none.
          bit_or_bound 32 pfa.free_order_bitmap (2 ^ order) v.mask_word
            (pow_less order 32 (omega (arith, l.small))))
        (λ some. v.mask_word)

  once_linked : (o : ℕ) → o ≤ 10 → Distinct ((linked pfa frame order).free_area o)
  unfolding linked Distinct
  once_linked o h =
      if_intro Distinct (o == order) _ _
        (λ e. (v.lists frame order l.small ∙ not_head order l.small, v.once order l.small))
        (λ e. v.once o h)

  -- The heads are those there were and the new one.
  head_cases :
      (f o : ℕ)
      → is_head (linked pfa frame order) f o ≡ true
      → ((f ≡ frame) × (o ≡ order)) ⊎ ((f ≢ frame) × (is_head pfa f o ≡ true))
  head_cases f o h = elim (Bool-cases (f == frame)) [
    | inl e ↦ inl (ground (arith, e), ground (arith, e, h, head_linked f o))
    | inr e ↦ inr (ground (arith, e), ground (arith, e, h, head_linked f o))
  ]

  head_new : is_head (linked pfa frame order) frame order ≡ true
  head_new = head_linked frame order ∙ ground arith

  head_kept :
      (f o : ℕ) → o ≤ 10 → is_head pfa f o ≡ true → is_head (linked pfa frame order) f o ≡ true
  head_kept f o h e =
      head_linked f o
      ∙ if_intro (λ b. b ≡ true) (f == frame) _ _
          (λ same. absurd (ground (arith, not_head o h, e, (==_iff f frame).0 same))) (λ other. e)

  -- A free block does not meet the new one.
  before_or_behind :
      (g p : ℕ) → p ≤ 10 → is_head pfa g p ≡ true → (g + 2 ^ p ≤ frame) ⊎ (frame + 2 ^ order ≤ g)
  before_or_behind g p h e = elim (dec_lt frame (g + 2 ^ p)) [
    | no away ↦ inl (omega arith)
    | yes meets ↦ elim (dec_lt g (frame + 2 ^ order)) [
      | no away ↦ inr (omega arith)
      | yes within ↦ elim (dec_lt frame g) [
        | yes lt ↦ absurd (
            l.apart g (omega arith) within (record {
              block = g;
              order = p;
              small = h;
              head = e;
              low = omega arith;
              high = omega (arith, pow-pos p);
            }))
        | no ge ↦ absurd (
            l.apart frame (omega arith) (omega (arith, pow-pos order)) (record {
              block = g;
              order = p;
              small = h;
              head = e;
              low = omega arith;
              high = meets;
            }))
      ]
    ]
  ]

  pub pages_linked : (x : ℕ) → x ≢ frame → (linked pfa frame order).pages x ≡ pfa.pages x
  unfolding linked
  pages_linked x ne = if_false (x == frame) _ _ (ground (arith, ne))

  total_linked : (linked pfa frame order).total_frames ≡ pfa.total_frames
  unfolding linked
  total_linked = refl

  -- One of the heads of `linked`.
  abbrev Head : ℕ → ℕ → Type 0
  Head f o = ((f ≡ frame) × (o ≡ order)) ⊎ ((f ≢ frame) × (is_head pfa f o ≡ true))

  fits_linked : (f o : ℕ) → o ≤ 10 → Head f o → f + 2 ^ o ≤ (linked pfa frame order).total_frames
  fits_linked f o h (inl (a, b)) = rw (a, b) (omega (arith, total_linked, l.fits))
  fits_linked f o h (inr (ne, old)) = omega (arith, total_linked, v.fits f o h old)

  apart_linked : (f o g p : ℕ) → o ≤ 10 → p ≤ 10 → f < g → Head f o → Head g p → f + 2 ^ o ≤ g
  apart_linked f o g p h k lt (inl (a, b)) (inl (a', b')) = absurd (omega arith)
  apart_linked f o g p h k lt (inl (a, b)) (inr (ne, old)) = elim (before_or_behind g p k old) [
    | inl before ↦ absurd (omega (arith, pow-pos p))
    | inr behind ↦ rw (a, b) behind
  ]
  apart_linked f o g p h k lt (inr (ne, old)) (inl (a', b')) = elim (before_or_behind f o h old) [
    | inl before ↦ omega arith
    | inr behind ↦ absurd (omega (arith, pow-pos order))
  ]
  apart_linked f o g p h k lt (inr (ne, old)) (inr (ne', old')) = v.apart f o g p h k old old' lt

  inner_linked :
      (f o x : ℕ)
      → o ≤ 10
      → f < x
      → x < f + 2 ^ o
      → Head f o
      → (((linked pfa frame order).pages x).order ≡ invalid)
        × (((linked pfa frame order).pages x).occupied ≡ false)
  inner_linked f o x h lt le (inl (a, b)) =
      let within : x < frame + 2 ^ order = omega (arith, ap (λ k. 2 ^ k) b) in
      rw (pages_linked x (λ e. absurd (omega arith))) (l.loose x (omega arith) within)
  inner_linked f o x h lt le (inr (ne, old)) =
      let other : x ≢ frame = λ e. elim (before_or_behind f o h old) [
        | inl before ↦ absurd (omega arith)
        | inr behind ↦ absurd (omega (arith, pow-pos order))
      ] in
      rw (pages_linked x other) (v.inner f o x h old lt le)

  pub linked-IsPfa : IsPfa (linked pfa frame order)
  linked-IsPfa = record {
    size = omega (arith, total_linked, v.size);
    lists = lists_linked;
    once = once_linked;
    aligned = λ f o h e. elim (head_cases f o e) [
      | inl (a, b) ↦ rw (a, b) l.aligned
      | inr (ne, old) ↦ v.aligned f o h old
    ];
    fits = λ f o h e. fits_linked f o h (head_cases f o e);
    apart =
        λ f o g p h k e e' lt. apart_linked f o g p h k lt (head_cases f o e) (head_cases g p e');
    inner = λ f o x h e lt le. inner_linked f o x h lt le (head_cases f o e);
    mask = mask_linked;
    mask_high = high_linked;
    mask_word = word_linked;
  }

  pub free_linked :
      (x : ℕ)
      → FreeAt (linked pfa frame order) x ↔ (FreeAt pfa x ⊎ ((frame ≤ x) × (x < frame + 2 ^ order)))
  free_linked x = (
    λ w. elim (head_cases w.block w.order w.head) [
      | inl (a, b) ↦ inr (omega arith, omega (arith, w.high, ap (λ k. 2 ^ k) b))
      | inr (ne, old) ↦ inl (record {
        block = w.block;
        order = w.order;
        small = w.small;
        head = old;
        low = w.low;
        high = w.high;
      })
    ],
    λ s. elim s [
      | inl w ↦ record {
        block = w.block;
        order = w.order;
        small = w.small;
        head = head_kept w.block w.order w.small w.head;
        low = w.low;
        high = w.high;
      }
      | inr (a, b) ↦ record {
        block = frame;
        order = order;
        small = l.small;
        head = head_new;
        low = a;
        high = b;
      }
    ],
  )
