-- ===== src/Kernel/Frames/Unlinked.antt =====
-- A free block taken out of its list.
use johnbeauty_os.Prelude.{
  ℕ, ◌+◌, ◌-◌, ◌^◌, ◌≤◌, ◌<◌, ◌≡◌, ◌≢◌, ◌∙◌, refl, sym, ap, true, false, List, [], ◌∷◌, ◌==◌,
  if◌then◌else◌, arith, Bool-cases, inl, inr, ==_iff, ◌↔◌, if_intro, dec_lt, ℕ_discrete,
}
use johnbeauty_os.Prelude.Members.{has, Distinct}
use johnbeauty_os.Prelude.Digits.{digit, digit-bit_and, digit_other, bit_and_bound}
use johnbeauty_os.Dsa.List.{unlink, has-unlink, Distinct-unlink}
use johnbeauty_os.Kernel.Frames.{Pfa, invalid, is_empty, unlinked}
use johnbeauty_os.Kernel.Frames.Blocks.{is_head, FreeAt, IsPfa, IsLoose}

not_empty : (f : ℕ) (fs : List ℕ) → has f fs ≡ true → is_empty fs ≡ false
unfolding has
not_empty f [] h = absurd (ground (arith, h))
not_empty f (x ∷ fs) h = refl

heads_same : (pfa : Pfa) (f o p : ℕ) → is_head pfa f o ≡ true → is_head pfa f p ≡ true → o ≡ p
heads_same pfa f o p h k = ground (arith, h, k)

module _ (pfa : Pfa) (frame order : ℕ) (v : IsPfa pfa) (small : order ≤ 10)
    (head : is_head pfa frame order ≡ true) where
  head_unlinked :
      (f o : ℕ)
      → o ≤ 10
      → is_head (unlinked pfa frame order) f o ≡ (if f == frame then false else is_head pfa f o)
  unfolding unlinked
  head_unlinked f o h = elim (Bool-cases (f == frame)) [
    | inl e ↦ ground (arith, e)
    | inr e ↦ ground (arith, e)
  ]

  here : has frame (pfa.free_area order) ≡ true
  here = v.lists frame order small ∙ head

  lists_unlinked :
      (f o : ℕ)
      → o ≤ 10
      → has f ((unlinked pfa frame order).free_area o) ≡ is_head (unlinked pfa frame order) f o
  unfolding unlinked
  lists_unlinked f o h = sym (
      head_unlinked f o h
      ∙ sym (elim (Bool-cases (o == order)) [
        | inl e ↦
            let same : o ≡ order = (==_iff o order).0 e in
            rw (e, same)
              (has-unlink f frame (pfa.free_area order) (v.once order small)
                ∙ ground (arith, v.lists f order small))
        | inr e ↦ rw e (
            v.lists f o h
            ∙ if_intro (λ b. is_head pfa f o ≡ b) (f == frame) _ _
                (λ same. elim (Bool-cases (is_head pfa f o)) [
                  | inl t ↦
                      absurd (
                        ground
                          (arith, e, heads_same pfa f o order t, (==_iff f frame).0 same, head))
                  | inr n ↦ n
                ])
                (λ other. refl))
      ]))

  mask_unlinked :
      (o : ℕ)
      → o ≤ 10
      → digit (unlinked pfa frame order).free_order_bitmap o
        ≡ (if is_empty ((unlinked pfa frame order).free_area o) then 0 else 1)
  unfolding unlinked
  mask_unlinked o h = elim (Bool-cases (o == order)) [
    | inl e ↦
        let same : o ≡ order = (==_iff o order).0 e in
        rw (e, same)
          (if_intro
            (λ n. digit n order ≡ (if is_empty (unlink frame (pfa.free_area order)) then 0 else 1))
            (is_empty (unlink frame (pfa.free_area order))) _ _
            (λ none.
              digit-bit_and pfa.free_order_bitmap (2 ^ 32 - 1 - 2 ^ order) order
              ∙ grind (arith, digit_other 32 order order (omega arith) (omega arith), none))
            (λ some.
              v.mask order small
              ∙ ground (arith, some, not_empty frame (pfa.free_area order) here)))
    | inr e ↦ rw e (
        if_intro (λ n. digit n o ≡ (if is_empty (pfa.free_area o) then 0 else 1))
          (is_empty (unlink frame (pfa.free_area order))) _ _
          (λ none.
            digit-bit_and pfa.free_order_bitmap (2 ^ 32 - 1 - 2 ^ order) o
            ∙ grind (arith, digit_other 32 order o (omega arith) (omega arith), v.mask o h, e))
          (λ some. v.mask o h))
  ]

  high_unlinked : (o : ℕ) → 10 < o → digit (unlinked pfa frame order).free_order_bitmap o ≡ 0
  unfolding unlinked
  high_unlinked o h =
      if_intro (λ n. digit n o ≡ 0) (is_empty (unlink frame (pfa.free_area order))) _ _
        (λ none.
          digit-bit_and pfa.free_order_bitmap (2 ^ 32 - 1 - 2 ^ order) o
          ∙ omega (arith, v.mask_high o h))
        (λ some. v.mask_high o h)

  word_unlinked : (unlinked pfa frame order).free_order_bitmap < 2 ^ 32
  unfolding unlinked
  word_unlinked =
      if_intro (λ n. n < 2 ^ 32) (is_empty (unlink frame (pfa.free_area order))) _ _
        (λ none.
          bit_and_bound 32 pfa.free_order_bitmap (2 ^ 32 - 1 - 2 ^ order) v.mask_word (omega arith))
        (λ some. v.mask_word)

  once_unlinked : (o : ℕ) → o ≤ 10 → Distinct ((unlinked pfa frame order).free_area o)
  unfolding unlinked
  once_unlinked o h =
      if_intro Distinct (o == order) _ _
        (λ e. Distinct-unlink frame (pfa.free_area order) (v.once order small)) (λ e. v.once o h)

  head_before :
      (f o : ℕ)
      → o ≤ 10
      → is_head (unlinked pfa frame order) f o ≡ true
      → (f ≢ frame) × (is_head pfa f o ≡ true)
  head_before f o h e =
      (ground (arith, e, head_unlinked f o h), ground (arith, e, head_unlinked f o h))

  pub total_unlinked : (unlinked pfa frame order).total_frames ≡ pfa.total_frames
  unfolding unlinked
  total_unlinked = refl

  order_unlinked :
      (x : ℕ)
      → ((unlinked pfa frame order).pages x).order
        ≡ (if x == frame then invalid else (pfa.pages x).order)
  unfolding unlinked
  order_unlinked x = ground arith

  pub occupied_unlinked :
      (x : ℕ) → ((unlinked pfa frame order).pages x).occupied ≡ (pfa.pages x).occupied
  unfolding unlinked
  occupied_unlinked x = ground arith

  pub refcount_unlinked :
      (x : ℕ) → ((unlinked pfa frame order).pages x).refcount ≡ (pfa.pages x).refcount
  unfolding unlinked
  refcount_unlinked x = ground arith

  pub still_loose :
      (x : ℕ)
      → ((pfa.pages x).order ≡ invalid) × ((pfa.pages x).occupied ≡ false)
      → (((unlinked pfa frame order).pages x).order ≡ invalid)
        × (((unlinked pfa frame order).pages x).occupied ≡ false)
  still_loose x (a, b) = (ground (arith, order_unlinked x, a), occupied_unlinked x ∙ b)

  pub unlinked-IsPfa : IsPfa (unlinked pfa frame order)
  unlinked-IsPfa = record {
    size = omega (arith, total_unlinked, v.size);
    lists = lists_unlinked;
    once = once_unlinked;
    aligned = λ f o h e. v.aligned f o h (head_before f o h e).1;
    fits = λ f o h e. omega (arith, total_unlinked, v.fits f o h (head_before f o h e).1);
    apart =
        λ f o g p h k e e'. v.apart f o g p h k (head_before f o h e).1 (head_before g p k e').1;
    inner = λ f o x h e lt le. still_loose x (v.inner f o x h (head_before f o h e).1 lt le);
    mask = mask_unlinked;
    mask_high = high_unlinked;
    mask_word = word_unlinked;
  }

  -- What is free now was free and is not in the block.
  pub free_unlinked :
      (x : ℕ)
      → FreeAt (unlinked pfa frame order) x
        ↔ (FreeAt pfa x × (((frame ≤ x) × (x < frame + 2 ^ order)) → ⊥))
  free_unlinked x = (
    λ w.
        let (ne, old) = head_before w.block w.order w.small w.head in
        (
          record {
            block = w.block;
            order = w.order;
            small = w.small;
            head = old;
            low = w.low;
            high = w.high;
          },
          λ inside. elim (dec_lt w.block frame) [
            | yes lt ↦
                absurd
                  (omega (arith, v.apart w.block w.order frame order w.small small old head lt))
            | no ge ↦ absurd (
                omega (
                  arith,
                  v.apart frame order w.block w.order small w.small head old (ground arith),
                ))
          ],
        ),
    λ (w, away). record {
      block = w.block;
      order = w.order;
      small = w.small;
      low = w.low;
      high = w.high;
      head =
          head_unlinked w.block w.order w.small
          ∙ if_intro (λ b. b ≡ true) (w.block == frame) _ _
              (λ e.
                let same : w.block ≡ frame = (==_iff w.block frame).0 e in
                let level : w.order ≡ order =
                  heads_same pfa frame w.order order (rw (sym same) w.head) head in
                absurd (away (omega arith, omega (arith, w.high, ap (λ k. 2 ^ k) level))))
              (λ e. w.head);
    },
  )

  pub unlinked-IsLoose : IsLoose (unlinked pfa frame order) frame order
  unlinked-IsLoose = record {
    small = small;
    aligned = v.aligned frame order small head;
    fits = omega (arith, total_unlinked, v.fits frame order small head);
    loose = λ x low high. elim (ℕ_discrete x frame) [
      | yes e ↦ (
        ground (arith, order_unlinked x, e),
        occupied_unlinked x ∙ ap (λ f. (pfa.pages f).occupied) e ∙ ground (arith, head),
      )
      | no ne ↦ still_loose x (v.inner frame order x small head (omega arith) high)
    ];
    apart = λ x low high w. ((free_unlinked x).0 w).1 (low, high);
  }
