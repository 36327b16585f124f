-- ===== src/Kernel/Frames/Ranges/Back.antt =====
-- `buddy_free_range` gives back a range of frames, whatever its length and place.
use johnbeauty_os.Prelude.{
  ℕ, zero, suc, ◌+◌, ◌-◌, ◌^◌, ◌≤◌, ◌≡◌, ◌∙◌, refl, ap, arith, some, Bool-cases, inl, inr, ◌↔◌,
  dec_lt, ◌==◌, add32, ==_iff,
}
use johnbeauty_os.Prelude.Align.{Aligned, Aligned-0}
use johnbeauty_os.Prelude.Bits.{pow-pos}
use johnbeauty_os.Prelude.Digits.{pow_less}
use johnbeauty_os.Kernel.Frames.{Pfa}
use johnbeauty_os.Kernel.Frames.Blocks.{FreeAt, IsPfa, IsLoose}
use johnbeauty_os.Kernel.Frames.Merge.{Freed, buddy_free_nolock-Freed}
use johnbeauty_os.Kernel.Frames.Ranges.{cleared_page, largest_order, range_from, buddy_free_range}
use johnbeauty_os.Kernel.Frames.Ranges.Changed.{Among}
use johnbeauty_os.Kernel.Frames.Ranges.Given.{
  on_frames, only_pages, page_inside, page_outside, on_frames-IsPfa, on_frames-FreeAt,
  refcount_on_frames, largest_order_lem, Given,
}

module _ (pfa : Pfa) (base len o : ℕ) (v : IsPfa pfa) (fits : base + len ≤ pfa.total_frames)
    (taken : (x : ℕ) → Among base len x → FreeAt pfa x → ⊥) (block : 2 ^ o ≤ len) (small : o ≤ 10)
    (al : Aligned base o) where
  abbrev cleared : Pfa
  cleared = on_frames cleared_page (2 ^ o) pfa base

  block_taken : (x : ℕ) → Among base (2 ^ o) x → FreeAt pfa x → ⊥
  block_taken x (a, b) = taken x (a, omega arith)

  cleared-IsPfa : IsPfa cleared
  cleared-IsPfa = on_frames-IsPfa cleared_page (2 ^ o) pfa base v (λ pg. inl refl) block_taken

  cleared-FreeAt : (x : ℕ) → FreeAt cleared x ↔ FreeAt pfa x
  cleared-FreeAt = on_frames-FreeAt cleared_page (2 ^ o) pfa base v (λ pg. inl refl) block_taken

  cleared_fields :
      (cleared.total_frames ≡ pfa.total_frames)
      × (cleared.start_addr ≡ pfa.start_addr)
      × (cleared.free_frames ≡ pfa.free_frames)
  cleared_fields =
      let e = only_pages cleared_page (2 ^ o) pfa base in
      (ap (λ p. p.total_frames) e, ap (λ p. p.start_addr) e, ap (λ p. p.free_frames) e)

  cleared-IsLoose : IsLoose cleared base o
  cleared-IsLoose = record {
    small = small;
    aligned = al;
    fits = omega (arith, cleared_fields.0);
    loose = λ x a b. rw (page_inside cleared_page (2 ^ o) pfa base x (a, b)) (refl, refl);
    apart = λ x a b w. block_taken x (a, b) ((cleared-FreeAt x).0 w);
  }

  module _ (p : Pfa) (f : Freed cleared base o p)
      (count : p.free_frames ≡ add32 cleared.free_frames (2 ^ o)) where
    rest_taken : (x : ℕ) → Among (base + 2 ^ o) (len - 2 ^ o) x → FreeAt p x → ⊥
    rest_taken x (a, b) w = elim ((f.free x).0 w) [
      | inl u ↦ taken x (omega arith, omega arith) ((cleared-FreeAt x).0 u)
      | inr (c, d) ↦ absurd (omega arith)
    ]

    rest-Given : (q : Pfa) → Given p (base + 2 ^ o) (len - 2 ^ o) q → Given pfa base len q
    rest-Given q g = record {
      valid = g.valid;
      free = λ x. (
        λ w. elim ((g.free x).0 w) [
          | inl u ↦ elim ((f.free x).0 u) [
            | inl t ↦ inl ((cleared-FreeAt x).0 t)
            | inr (a, b) ↦ inr (a, omega arith)
          ]
          | inr (a, b) ↦ inr (omega arith, omega arith)
        ],
        λ s. (g.free x).1 (elim s [
          | inl w ↦ inl ((f.free x).1 (inl ((cleared-FreeAt x).1 w)))
          | inr (a, b) ↦ elim (dec_lt x (base + 2 ^ o)) [
            | yes lt ↦ inl ((f.free x).1 (inr (a, lt)))
            | no ge ↦ inr (omega arith, omega arith)
          ]
        ]),
      );
      occupied = λ x out.
          g.occupied x (λ i. out (omega arith, omega arith))
          ∙ f.occupied x
          ∙ ap (λ pg. pg.occupied)
              (page_outside cleared_page (2 ^ o) pfa base x (λ i. out (i.0, omega arith)));
      refcount = λ x.
          g.refcount x
          ∙ f.refcount x
          ∙ refcount_on_frames cleared_page (2 ^ o) pfa base x (λ pg. refl);
      total = g.total ∙ f.total ∙ cleared_fields.0;
      start = g.start ∙ f.start ∙ cleared_fields.1;
      counter = omega (arith, g.counter, count, cleared_fields.2);
    }

nothing-Given : (pfa : Pfa) (base len : ℕ) → len ≡ 0 → IsPfa pfa → Given pfa base len pfa
nothing-Given pfa base len e v = record {
  valid = v;
  free = λ x. (λ w. inl w, λ s. elim s [ inl w ↦ w | inr (a, b) ↦ absurd (omega arith) ]);
  occupied = λ x out. refl;
  refcount = λ x. refl;
  total = refl;
  start = refl;
  counter = omega arith;
}

pub small_block : (o len : ℕ) → 2 ^ o ≤ len → len ≤ 1024 → o ≤ 10
small_block o len h k = elim (dec_lt 10 o) [
  | yes lt ↦ absurd (omega (arith, pow_less 10 o lt))
  | no ge ↦ omega arith
]

range_from-Given :
    (rounds : ℕ) (pfa : Pfa) (base len : ℕ)
    → len ≤ rounds
    → len ≤ 1024
    → IsPfa pfa
    → base + len ≤ pfa.total_frames
    → ((x : ℕ) → Among base len x → FreeAt pfa x → ⊥)
    → (p : Pfa) × (range_from rounds pfa base len ≡ some p) × Given pfa base len p
unfolding range_from
range_from-Given zero pfa base len h k v fits taken =
    (pfa, refl, nothing-Given pfa base len (omega arith) v)
range_from-Given (suc rounds) pfa base len h k v fits taken = elim (Bool-cases (len == 0)) [
  | inl e ↦ (pfa, rw e, nothing-Given pfa base len ((==_iff len 0).0 e) v)
  | inr e ↦
      let o = largest_order 32 base len 0 in
      let (block, al) = largest_order_lem 32 base len 0 (ground (arith, e)) (Aligned-0 base) in
      let small = small_block o len block k in
      let p0 = cleared pfa base len o v fits taken block small al in
      let (p, run, f, count) =
        buddy_free_nolock-Freed p0 base o (cleared-IsPfa pfa base len o v fits taken block small al)
          (cleared-IsLoose pfa base len o v fits taken block small al) in
      let (q, more, g) =
        range_from-Given rounds p (base + 2 ^ o) (len - 2 ^ o) (omega (arith, pow-pos o))
          (omega arith) f.valid
          (omega (arith, f.total, (cleared_fields pfa base len o v fits taken block small al).0))
          (rest_taken pfa base len o v fits taken block small al p f count) in
      (q, rw (e, run) more, rest-Given pfa base len o v fits taken block small al p f count q g)
]

-- Of the frames of a range none of which is free, up to 1024 of them, `buddy_free_range` makes all free
-- and no others, and keeps the lists well formed.
pub buddy_free_range-Given :
    (pfa : Pfa) (base len : ℕ)
    → len ≤ 1024
    → IsPfa pfa
    → base + len ≤ pfa.total_frames
    → ((x : ℕ) → Among base len x → FreeAt pfa x → ⊥)
    → (p : Pfa) × (buddy_free_range pfa base len ≡ some p) × Given pfa base len p
unfolding buddy_free_range
buddy_free_range-Given pfa base len k = range_from-Given len pfa base len (omega arith) k
