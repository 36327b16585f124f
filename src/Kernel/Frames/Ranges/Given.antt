-- ===== src/Kernel/Frames/Ranges/Given.antt =====
-- A range of frames given back, in blocks as large as they fit.
use Prim.Native.Nat.{bit_and}
use johnbeauty_os.Prelude.{
  ℕ, zero, suc, ◌+◌, ◌-◌, ◌%◌, ◌^◌, ◌≤◌, ◌≡◌, ◌∙◌, refl, sym, ap, ◌&&◌, arith, Bool-cases, inl, inr,
  ◌↔◌, ◌⊎◌, ◌==◌, leb, if_intro, if_false, if_true, ℕ_discrete,
}
use johnbeauty_os.Prelude.Align.{Aligned, Aligned-of_bit_and}
use johnbeauty_os.Kernel.Frames.{Page, Pfa, on_page}
use johnbeauty_os.Kernel.Frames.Blocks.{FreeAt, IsPfa}
use johnbeauty_os.Kernel.Frames.Ranges.{for_frames, largest_order}
use johnbeauty_os.Kernel.Frames.Ranges.Changed.{
  Among, dec_Among, Unheaded, changed-IsPfa, changed-FreeAt,
}

-- One function on the page of each frame.
abbrev pub on_frames : (Page → Page) → ℕ → Pfa → ℕ → Pfa
on_frames f n pfa base = for_frames n (λ p k. on_page p k f) pfa base

module _ (f : Page → Page) where
  pub only_pages :
      (n : ℕ) (pfa : Pfa) (base : ℕ)
      → on_frames f n pfa base ≡ record pfa { pages = (on_frames f n pfa base).pages }
  unfolding for_frames
  only_pages zero pfa base = refl
  only_pages (suc n) pfa base = only_pages n (on_page pfa base f) (suc base)

  pub page_outside :
      (n : ℕ) (pfa : Pfa) (base x : ℕ)
      → (Among base n x → ⊥)
      → (on_frames f n pfa base).pages x ≡ pfa.pages x
  unfolding for_frames
  page_outside zero pfa base x out = refl
  page_outside (suc n) pfa base x out =
      page_outside n (on_page pfa base f) (suc base) x (λ i. out (omega arith, omega arith))
      ∙ if_false (x == base) _ _ (elim (Bool-cases (x == base)) [
        | inl e ↦ absurd (out (ground (arith, e), ground (arith, e)))
        | inr e ↦ e
      ])

  pub page_inside :
      (n : ℕ) (pfa : Pfa) (base x : ℕ)
      → Among base n x
      → (on_frames f n pfa base).pages x ≡ f (pfa.pages x)
  unfolding for_frames
  page_inside zero pfa base x (a, b) = absurd (omega arith)
  page_inside (suc n) pfa base x (a, b) = elim (ℕ_discrete x base) [
    | yes e ↦
        page_outside n (on_page pfa base f) (suc base) x (λ i. absurd (omega arith))
        ∙ if_true (x == base) _ _ (ground (arith, e))
        ∙ ap (λ k. f (pfa.pages k)) (sym e)
    | no ne ↦
        page_inside n (on_page pfa base f) (suc base) x (omega arith, omega arith)
        ∙ ap f (if_false (x == base) _ _ (ground (arith, ne)))
  ]

  module _ (n : ℕ) (pfa : Pfa) (base : ℕ) (v : IsPfa pfa) (unheaded : (pg : Page) → Unheaded (f pg))
      (taken : (x : ℕ) → Among base n x → FreeAt pfa x → ⊥) where
    at_inside : (x : ℕ) → Among base n x → Unheaded ((on_frames f n pfa base).pages x)
    at_inside x i = rw (page_inside n pfa base x i) (unheaded (pfa.pages x))

    pub on_frames-IsPfa : IsPfa (on_frames f n pfa base)
    on_frames-IsPfa = rw (only_pages n pfa base) (
        changed-IsPfa pfa (on_frames f n pfa base).pages base n v (page_outside n pfa base)
          at_inside taken)

    pub on_frames-FreeAt : (x : ℕ) → FreeAt (on_frames f n pfa base) x ↔ FreeAt pfa x
    on_frames-FreeAt x = rw (only_pages n pfa base) (
        changed-FreeAt pfa (on_frames f n pfa base).pages base n v (page_outside n pfa base)
          at_inside taken x)

-- A change that leaves the references alone.
pub refcount_on_frames :
    (f : Page → Page) (n : ℕ) (pfa : Pfa) (base x : ℕ)
    → ((pg : Page) → (f pg).refcount ≡ pg.refcount)
    → ((on_frames f n pfa base).pages x).refcount ≡ (pfa.pages x).refcount
refcount_on_frames f n pfa base x same = elim (dec_Among base n x) [
  | yes i ↦ ap (λ pg. pg.refcount) (page_inside f n pfa base x i) ∙ same (pfa.pages x)
  | no out ↦ ap (λ pg. pg.refcount) (page_outside f n pfa base x out)
]

pub largest_order_lem :
    (rounds base len order : ℕ)
    → 2 ^ order ≤ len
    → Aligned base order
    → (2 ^ largest_order rounds base len order ≤ len)
      × Aligned base (largest_order rounds base len order)
unfolding largest_order
largest_order_lem zero base len order h al = (h, al)
largest_order_lem (suc rounds) base len order h al =
    if_intro (λ o. (2 ^ o ≤ len) × Aligned base o)
      (leb (2 ^ suc order) len && bit_and base (2 ^ suc order - 1) == 0) _ _
      (λ e.
        largest_order_lem rounds base len (suc order) (ground (arith, e))
          (Aligned-of_bit_and base (suc order) (ground (arith, e))))
      (λ e. (h, al))

-- What giving back a range leaves: its frames are free and no others are that were not, and the pages
-- outside it are as occupied as they were; no number of references changes.
pub record Given (pfa : Pfa) (base len : ℕ) (p : Pfa) : Type 0 where
  pub valid : IsPfa p
  pub free : (x : ℕ) → FreeAt p x ↔ (FreeAt pfa x ⊎ Among base len x)
  pub occupied : (x : ℕ) → (Among base len x → ⊥) → (p.pages x).occupied ≡ (pfa.pages x).occupied
  pub refcount : (x : ℕ) → (p.pages x).refcount ≡ (pfa.pages x).refcount
  pub total : p.total_frames ≡ pfa.total_frames
  pub start : p.start_addr ≡ pfa.start_addr
  pub counter : p.free_frames % 2 ^ 32 ≡ (pfa.free_frames + len) % 2 ^ 32
