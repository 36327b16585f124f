-- ===== src/Kernel/Vma/Unmap/Range.antt =====
-- `jlos_vma_remove_range` of `kernel/vma.c` keeps the layout, frees the addresses of the range and no
-- other, and unmaps the pages that were in use there.
use johnbeauty_os.Prelude.{
  ℕ, zero, suc, ◌+◌, ◌-◌, ◌*◌, ◌/◌, ◌≤◌, ◌<◌, ◌%◌, ◌≡◌, ◌∙◌, refl, Bool, true, false, not, ◌||◌,
  ◌&&◌, none, some, List, [], ◌∷◌, ◌++◌, ltb, leb, ◌==◌, if◌then◌else◌, arith, if_false, if_intro,
  ap,
}
use johnbeauty_os.Prelude.Members.{has}
use johnbeauty_os.Kernel.Vma.{Vma, Mm, page_size, page_align_down, page_align_up}
use johnbeauty_os.Kernel.Vma.Unmap.{
  cut, remove_nodes, remove_range, later, earlier, pages_from, unmap_range,
}
use johnbeauty_os.Kernel.Vma.Unmap.Cut.{IsPart, carve-IsLayout, use_at-carve}
use johnbeauty_os.Kernel.Vma.Layout.{
  IsRegion, IsLayout, within, use_at, use_at-below, page_align_up_bounds,
}

-- Some region uses the address.
abbrev pub is_used : List Vma → ℕ → Bool
is_used tree x = elim (use_at tree x) [ none ↦ false | some _ ↦ true ]

has-append : (u : ℕ) (xs ys : List ℕ) → has u (xs ++ ys) ≡ (has u xs || has u ys)
unfolding has
has-append u [] ys = refl
has-append u (x ∷ xs) ys = ground (arith, has-append u xs ys)

has-pages_from :
    (p lo n : ℕ)
    → lo % page_size ≡ 0
    → has p (pages_from lo n) ≡ ((p % page_size == 0) && within lo (lo + n * page_size) p)
unfolding has pages_from
has-pages_from p lo zero a = ground arith
has-pages_from p lo (suc n) a = ground (arith, has-pages_from p (lo + page_size) n (omega arith))

-- The pages unmapped of a range of whole pages are those in it.
pub has-unmap_range :
    (p lo hi : ℕ)
    → lo ≤ hi
    → lo % page_size ≡ 0
    → hi % page_size ≡ 0
    → has p (unmap_range lo hi) ≡ ((p % page_size == 0) && within lo hi p)
has-unmap_range p lo hi le a b =
    let whole : lo + (hi - lo + page_size - 1) / page_size * page_size ≡ hi = omega arith in
    has-pages_from p lo ((hi - lo + page_size - 1) / page_size) a
    ∙ ap (λ h. (p % page_size == 0) && within lo h p) whole

later-IsPart :
    (s e : ℕ) (v : Vma)
    → s < e
    → s % page_size ≡ 0
    → e % page_size ≡ 0
    → IsRegion v
    → ltb s v.end ≡ true
    → leb e v.start ≡ false
    → IsPart (later v.start s) (earlier v.end e) v
later-IsPart s e v lt ps pe ok a b =
    (ground arith, ground arith, ground arith, ground arith, ground arith)

module _ (room : Vma → Bool) (s e : ℕ) (lt : s < e) (ps : s % page_size ≡ 0)
    (pe : e % page_size ≡ 0) where
  pub remove_nodes-IsLayout :
      (lo : ℕ) (tree : List Vma) (hi : ℕ)
      → IsLayout lo tree hi
      → IsLayout lo (remove_nodes room s e tree).1 hi
  unfolding remove_nodes cut
  remove_nodes-IsLayout lo [] hi l = l
  remove_nodes-IsLayout lo (v ∷ rest) hi (a, ok, l) =
      let behind = remove_nodes room s e rest in
      let next = remove_nodes-IsLayout v.end rest hi l in
      let P : List ℕ × List Vma → Type 0 = λ r. IsLayout lo r.1 hi in
      if_intro P (leb e v.start) _ _ (λ t. (a, ok, l))
        (λ t.
          if_intro P (ltb s v.end) _ _
            (λ t2.
              carve-IsLayout room (later v.start s) (earlier v.end e) hi v behind.1
                (later-IsPart s e v lt ps pe ok t2 t) ok next lo a)
            (λ t2. (a, ok, next)))

  pub use_at-remove_nodes :
      (lo : ℕ) (tree : List Vma) (hi x : ℕ)
      → IsLayout lo tree hi
      → ((v : Vma) → room v ≡ true)
      → use_at (remove_nodes room s e tree).1 x ≡ (if within s e x then none else use_at tree x)
  unfolding remove_nodes cut
  use_at-remove_nodes lo [] hi x l r = ground arith
  use_at-remove_nodes lo (v ∷ rest) hi x (a, ok, l) r =
      let behind = remove_nodes room s e rest in
      let next = use_at-remove_nodes v.end rest hi x l r in
      let low : x < v.end → use_at rest x ≡ none = use_at-below v.end rest hi x l in
      let P : List ℕ × List Vma → Type 0 =
        λ r. use_at r.1 x ≡ (if within s e x then none else use_at (v ∷ rest) x) in
      if_intro P (leb e v.start) _ _ (λ t. ground (arith, low))
        (λ t.
          if_intro P (ltb s v.end) _ _
            (λ t2.
              let part = later-IsPart s e v lt ps pe ok t2 t in
              use_at-carve room (later v.start s) (earlier v.end e) hi v behind.1 part ok
                (remove_nodes-IsLayout v.end rest hi l) (r _) x
              ∙ ground (arith, next, low))
            (λ t2. ground (arith, next)))

  pub has-remove_nodes :
      (lo : ℕ) (tree : List Vma) (hi p : ℕ)
      → IsLayout lo tree hi
      → has p (remove_nodes room s e tree).0
        ≡ ((p % page_size == 0) && within s e p && is_used tree p)
  unfolding remove_nodes cut has
  has-remove_nodes lo [] hi p l = ground arith
  has-remove_nodes lo (v ∷ rest) hi p (a, ok, l) =
      let behind = remove_nodes room s e rest in
      let next = has-remove_nodes v.end rest hi p l in
      let low : p < v.end → use_at rest p ≡ none = use_at-below v.end rest hi p l in
      let P : List ℕ × List Vma → Type 0 =
        λ r. has p r.0 ≡ ((p % page_size == 0) && within s e p && is_used (v ∷ rest) p) in
      if_intro P (leb e v.start) _ _ (λ t. ground (arith, low))
        (λ t.
          if_intro P (ltb s v.end) _ _
            (λ t2.
              let part = later-IsPart s e v lt ps pe ok t2 t in
              let pages =
                has-unmap_range p (later v.start s) (earlier v.end e) (omega (arith, part.1)) part.3
                  part.4 in
              has-append p (unmap_range (later v.start s) (earlier v.end e)) behind.0
              ∙ ground (arith, pages, next, low))
            (λ t2. ground (arith, next)))

-- Where the slab cache has nodes, `jlos_vma_remove_range` of a range of some bytes, away from the end
-- of the address space, keeps the layout; no address of the range's pages is in use after it, every
-- other keeps its use, and the pages unmapped are exactly those of the range that were in use.
pub remove_range-use_at :
    (room : Vma → Bool) (size hi : ℕ) (mm : Mm) (start end : ℕ)
    → ((v : Vma) → room v ≡ true)
    → mm.pc ≡ true
    → IsLayout 0 mm.tree hi
    → start < end
    → end + page_size ≤ size
    → let s = page_align_down start in
      let e = page_align_up size end in
      let (ok, pages, mm') = remove_range room size mm start end in
      (ok ≡ true)
      × IsLayout 0 mm'.tree hi
      × ((x : ℕ) → use_at mm'.tree x ≡ (if within s e x then none else use_at mm.tree x))
      × ((p : ℕ) → has p pages ≡ ((p % page_size == 0) && within s e p && is_used mm.tree p))
unfolding remove_range
remove_range-use_at room size hi mm start end r pc l lt below =
    let s = page_align_down start in
    let e = page_align_up size end in
    let up = page_align_up_bounds size end below in
    let ps : s % page_size ≡ 0 = omega arith in
    let order : s < e = omega (arith, up.0) in
    rw (if_false (not mm.pc || leb end start) _ _ (ground (arith, pc))) (
      refl,
      remove_nodes-IsLayout room s e order ps up.2 0 mm.tree hi l,
      λ x. use_at-remove_nodes room s e order ps up.2 0 mm.tree hi x l r,
      λ p. has-remove_nodes room s e order ps up.2 0 mm.tree hi p l,
    )
