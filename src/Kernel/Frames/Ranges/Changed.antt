-- ===== src/Kernel/Frames/Ranges/Changed.antt =====
-- Pages that are in no free block may change.
use johnbeauty_os.Prelude.{
  ℕ, ◌+◌, ◌≤◌, ◌<◌, ◌≡◌, ◌∙◌, sym, ap, true, false, not, ◌&&◌, arith, Bool-cases, inl, inr, ◌↔◌,
  ◌⊎◌, dec_lt, ◌==◌, ltb,
}
use johnbeauty_os.Prelude.Bits.{pow-pos}
use johnbeauty_os.Kernel.Frames.{Page, Pfa, invalid}
use johnbeauty_os.Kernel.Frames.Blocks.{is_head, FreeAt, IsPfa}

-- The frames from `base` on.
abbrev pub Among : ℕ → ℕ → ℕ → Type 0
Among base len x = (base ≤ x) × (x < base + len)

pub dec_Among : (base len x : ℕ) → Dec (Among base len x)
dec_Among base len x = elim (dec_lt x base) [
  | yes lt ↦ no (λ i. absurd (omega arith))
  | no ge ↦ elim (dec_lt x (base + len)) [
    | yes lt ↦ yes (omega arith, lt)
    | no ge ↦ no (λ i. absurd (omega arith))
  ]
]

-- No free block begins at such a page.
abbrev pub Unheaded : Page → Type 0
Unheaded pg = (pg.order ≡ invalid) ⊎ (pg.occupied ≡ true)

module _ (pfa : Pfa) (P : ℕ → Page) (base len : ℕ) (v : IsPfa pfa)
    (outside : (x : ℕ) → (Among base len x → ⊥) → P x ≡ pfa.pages x)
    (inside : (x : ℕ) → Among base len x → Unheaded (P x))
    (taken : (x : ℕ) → Among base len x → FreeAt pfa x → ⊥) where
  changed : Pfa
  changed = record pfa { pages = P }

  head_changed : (f o : ℕ) → o ≤ 10 → is_head changed f o ≡ is_head pfa f o
  unfolding changed
  head_changed f o h = elim (dec_Among base len f) [
    | yes i ↦
        let off : is_head pfa f o ≡ false = elim (Bool-cases (is_head pfa f o)) [
          | inl t ↦ absurd (
              taken f i (record {
                block = f;
                order = o;
                small = h;
                head = t;
                low = omega arith;
                high = omega (arith, pow-pos o);
              }))
          | inr n ↦ n
        ] in
        elim (inside f i) [ inl e ↦ ground (arith, e, off) | inr e ↦ ground (arith, e, off) ]
    | no i ↦ ap (λ pg. ltb f pfa.total_frames && (pg.order == o && not pg.occupied)) (outside f i)
  ]

  pub changed-FreeAt : (x : ℕ) → FreeAt (record pfa { pages = P }) x ↔ FreeAt pfa x
  unfolding changed
  changed-FreeAt x = (
    λ w. record {
      block = w.block;
      order = w.order;
      small = w.small;
      low = w.low;
      high = w.high;
      head = sym (head_changed w.block w.order w.small) ∙ w.head;
    },
    λ w. record {
      block = w.block;
      order = w.order;
      small = w.small;
      low = w.low;
      high = w.high;
      head = head_changed w.block w.order w.small ∙ w.head;
    },
  )

  pub changed-IsPfa : IsPfa (record pfa { pages = P })
  unfolding changed
  changed-IsPfa =
      let old : (f o : ℕ) → o ≤ 10 → is_head changed f o ≡ true → is_head pfa f o ≡ true =
        λ f o h e. sym (head_changed f o h) ∙ e in
      record {
        size = v.size;
        lists = λ f o h. v.lists f o h ∙ sym (head_changed f o h);
        once = v.once;
        aligned = λ f o h e. v.aligned f o h (old f o h e);
        fits = λ f o h e. v.fits f o h (old f o h e);
        apart = λ f o g p h k e e'. v.apart f o g p h k (old f o h e) (old g p k e');
        inner = λ f o x h e lt le.
            let free : FreeAt pfa x = record {
              block = f;
              order = o;
              small = h;
              head = old f o h e;
              low = omega arith;
              high = le;
            } in
            let same = outside x (λ i. taken x i free) in
            let (a, b) = v.inner f o x h (old f o h e) lt le in
            (ap (λ pg. pg.order) same ∙ a, ap (λ pg. pg.occupied) same ∙ b);
        mask = v.mask;
        mask_high = v.mask_high;
        mask_word = v.mask_word;
      }
