-- ===== src/Kernel/Frames/Cached/Touched.antt =====
-- The page of a frame that cannot be had.
use johnbeauty_os.Prelude.{ℕ, ◌≢◌, ◌∙◌, ap, arith, inl, inr, ◌↔◌, ◌==◌, if_false}
use johnbeauty_os.Kernel.Frames.{Page, Pfa, on_page}
use johnbeauty_os.Kernel.Frames.Blocks.{FreeAt}
use johnbeauty_os.Kernel.Frames.Ranges.Changed.{Unheaded}
use johnbeauty_os.Kernel.Frames.Cached.Spare.{IsFrames, Avail, on_page-IsPfa, on_page-FreeAt}

-- A frame that cannot be had changes its page.
module _ (pfa : Pfa) (frame : ℕ) (f : Page → Page) (w : IsFrames pfa)
    (unheaded : Unheaded (f (pfa.pages frame))) (held : Avail pfa frame → ⊥) where
  abbrev pub touched : Pfa
  touched = on_page pfa frame f

  not_in_block : FreeAt pfa frame → ⊥
  not_in_block u = held (inl u)

  pub touched-FreeAt : (x : ℕ) → FreeAt touched x ↔ FreeAt pfa x
  touched-FreeAt = on_page-FreeAt pfa frame f w.valid unheaded not_in_block

  pub touched-IsFrames : IsFrames touched
  touched-IsFrames = record {
    valid = on_page-IsPfa pfa frame f w.valid unheaded not_in_block;
    spare = λ c g t.
        let z = w.spare c g t in
        let ne : g ≢ frame = λ e. let cached : Avail pfa g = inr (c, t) in held (rw e at cached) in
        let page = if_false (g == frame) (f (pfa.pages frame)) (pfa.pages g) (ground (arith, ne)) in
        record {
          inside = z.inside;
          no_order = ap (λ pg. pg.order) page ∙ z.no_order;
          unoccupied = ap (λ pg. pg.occupied) page ∙ z.unoccupied;
          not_free = λ u. z.not_free ((touched-FreeAt g).0 u);
        };
    once = w.once;
    alone = w.alone;
    counted = w.counted;
  }

  pub touched-Avail : (x : ℕ) → Avail touched x ↔ Avail pfa x
  touched-Avail x = (
    λ u. elim u [ inl t ↦ inl ((touched-FreeAt x).0 t) | inr c ↦ inr c ],
    λ u. elim u [ inl t ↦ inl ((touched-FreeAt x).1 t) | inr c ↦ inr c ],
  )
