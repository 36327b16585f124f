-- ===== src/Kernel/Frames/Ranges/Marked.antt =====
-- The marks on the frames that `jlos_page_frame_alloc_n` hands out.
use johnbeauty_os.Prelude.{
  ℕ, zero, suc, ◌+◌, ◌%◌, ◌^◌, ◌≤◌, ◌<◌, ◌≡◌, ◌∙◌, refl, sym, ap, true, arith, Bool-cases, inl, inr,
  ◌↔◌, ◌==◌, leb, if_intro, if_true, if_false, sub32,
}
use johnbeauty_os.Kernel.Frames.{Page, Pfa, on_page}
use johnbeauty_os.Kernel.Frames.Blocks.{FreeAt, IsPfa}
use johnbeauty_os.Kernel.Frames.Merge.{counter-IsPfa, FreeAt-counter}
use johnbeauty_os.Kernel.Frames.Ranges.{for_frames, mark_reserve, reserved_page, handed_out}
use johnbeauty_os.Kernel.Frames.Ranges.Changed.{Among, changed-IsPfa, changed-FreeAt}
use johnbeauty_os.Kernel.Frames.Ranges.Given.{on_frames, only_pages, page_inside, page_outside}

reserve_frames :
    (n : ℕ) (pfa : Pfa) (base : ℕ)
    → base + n ≤ pfa.total_frames
    → for_frames n mark_reserve pfa base ≡ on_frames reserved_page n pfa base
unfolding for_frames mark_reserve
reserve_frames zero pfa base h = refl
reserve_frames (suc n) pfa base h =
    ap (λ p. for_frames n mark_reserve p (suc base))
      (if_false (leb pfa.total_frames base) _ _ (ground arith))
    ∙ reserve_frames n (on_page pfa base reserved_page) (suc base) (omega arith)

module _ (r : Pfa) (frame num t : ℕ) (v : IsPfa r) (some_frame : 0 < num)
    (fits : frame + num ≤ r.total_frames)
    (taken : (x : ℕ) → Among frame num x → FreeAt r x → ⊥) where
  -- The pages after the frames are marked, and the first has its order.
  abbrev page_at : ℕ → Page
  page_at = (handed_out r frame num t).pages

  handed_out_pages :
      (x : ℕ)
      → page_at x
        ≡ (on_page
              (on_frames reserved_page num r frame)
              frame
              (λ pg. record pg { order = t % 2 ^ 8 })).pages
            x
  unfolding handed_out
  handed_out_pages x =
      ap (λ p. (on_page p frame (λ pg. record pg { order = t % 2 ^ 8 })).pages x)
        (reserve_frames num r frame fits)

  at_outside : (x : ℕ) → (Among frame num x → ⊥) → page_at x ≡ r.pages x
  at_outside x out =
      handed_out_pages x
      ∙ if_false (x == frame) _ _ (elim (Bool-cases (x == frame)) [
        | inl e ↦ absurd (out (ground (arith, e), ground (arith, e)))
        | inr e ↦ e
      ])
      ∙ page_outside reserved_page num r frame x out

  at_inside : (x : ℕ) → Among frame num x → (page_at x).occupied ≡ true
  at_inside x i =
      ap (λ pg. pg.occupied) (handed_out_pages x)
      ∙ if_intro {A = Page} (λ pg. pg.occupied ≡ true) (x == frame) _ _
          (λ e.
            ap (λ pg. pg.occupied)
              (page_inside reserved_page num r frame frame (omega arith, omega arith)))
          (λ e. ap (λ pg. pg.occupied) (page_inside reserved_page num r frame x i))

  handed_out_eq :
      handed_out r frame num t ≡ record r { pages = page_at; free_frames = sub32 r.free_frames num }
  unfolding handed_out
  handed_out_eq =
      let q = for_frames num mark_reserve r frame in
      let on = on_frames reserved_page num r frame in
      let e : q ≡ on = reserve_frames num r frame fits in
      let only : q ≡ record r { pages = q.pages } =
        e
        ∙ only_pages reserved_page num r frame
        ∙ ap (λ P. record r { pages = P }) (sym (ap (λ p. p.pages) e)) in
      let G : Pfa → Pfa = λ p. record (on_page p frame (λ pg. record pg { order = t % 2 ^ 8 })) {
        free_frames = sub32 p.free_frames num;
      } in
      ap G only

  pub handed_out-IsPfa : IsPfa (handed_out r frame num t)
  handed_out-IsPfa = rw handed_out_eq (
      counter-IsPfa (record r { pages = page_at }) (sub32 r.free_frames num)
        (changed-IsPfa r page_at frame num v at_outside (λ x i. inr (at_inside x i)) taken))

  pub handed_out-FreeAt : (x : ℕ) → FreeAt (handed_out r frame num t) x ↔ FreeAt r x
  handed_out-FreeAt x =
      let marked = record r { pages = page_at } in
      let c = FreeAt-counter marked (sub32 r.free_frames num) x in
      let d =
        changed-FreeAt r page_at frame num v at_outside (λ y i. inr (at_inside y i)) taken x in
      rw handed_out_eq (λ w. d.0 (c.1 w), λ w. c.0 (d.1 w))

  pub handed_out_fields :
      ((handed_out r frame num t).total_frames ≡ r.total_frames)
      × ((handed_out r frame num t).start_addr ≡ r.start_addr)
      × ((handed_out r frame num t).free_frames ≡ sub32 r.free_frames num)
  handed_out_fields = (
    ap (λ p. p.total_frames) handed_out_eq,
    ap (λ p. p.start_addr) handed_out_eq,
    ap (λ p. p.free_frames) handed_out_eq,
  )

  pub reserved_inside :
      (x : ℕ) → Among frame num x → ((handed_out r frame num t).pages x).occupied ≡ true
  reserved_inside = at_inside

  pub counted_inside :
      (x : ℕ) → Among frame num x → ((handed_out r frame num t).pages x).refcount ≡ 1
  counted_inside x i =
      ap (λ pg. pg.refcount) (handed_out_pages x)
      ∙ if_intro {A = Page} (λ pg. pg.refcount ≡ 1) (x == frame) _ _
          (λ e.
            ap (λ pg. pg.refcount)
              (page_inside reserved_page num r frame frame (omega arith, omega arith)))
          (λ e. ap (λ pg. pg.refcount) (page_inside reserved_page num r frame x i))

  pub order_first : ((handed_out r frame num t).pages frame).order ≡ t % 2 ^ 8
  order_first =
      ap (λ pg. pg.order) (handed_out_pages frame)
      ∙ ap {A = Page} (λ pg. pg.order) (if_true (frame == frame) _ _ (ground arith))

  pub same_outside :
      (x : ℕ) → (Among frame num x → ⊥) → (handed_out r frame num t).pages x ≡ r.pages x
  same_outside = at_outside
