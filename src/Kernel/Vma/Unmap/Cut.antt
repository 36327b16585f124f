-- ===== src/Kernel/Vma/Unmap/Cut.antt =====
-- One region without a part of it, `jlos_vma_remove_range` of `kernel/vma.c`: the layout and the uses
-- that are left.
use johnbeauty_os.Prelude.{
  ℕ, ◌≤◌, ◌<◌, ◌%◌, ◌≡◌, Bool, true, ◌&&◌, none, some, List, leb, if◌then◌else◌, arith, if_intro,
}
use johnbeauty_os.Kernel.Vma.{Vma, page_size}
use johnbeauty_os.Kernel.Vma.Unmap.{carve}
use johnbeauty_os.Kernel.Vma.Layout.{
  IsRegion, IsLayout, IsLayout-weaken, IsLayout-bounds, IsUnused, covers, within, uses, use_at,
  use_at-below, rbtree_insert-IsLayout, use_at-rbtree_insert,
}

-- A part [lo, hi) of whole pages of a region.
abbrev pub IsPart : ℕ → ℕ → Vma → Type 0
IsPart lo hi v =
    (v.start ≤ lo) × (lo < hi) × (hi ≤ v.end) × (lo % page_size ≡ 0) × (hi % page_size ≡ 0)

module _ (room : Vma → Bool) (s e top : ℕ) (v : Vma) (tree : List Vma) (part : IsPart s e v)
    (ok : IsRegion v) (l : IsLayout v.end tree top) where
  tail-IsUnused : IsUnused e v.end tree
  tail-IsUnused x p q = use_at-below v.end tree top x l q

  pub carve-IsLayout : (lo : ℕ) → lo ≤ v.start → IsLayout lo (carve room s e v tree) top
  unfolding carve
  carve-IsLayout lo a =
      let P : List Vma → Type 0 = λ t. IsLayout lo t top in
      let tail : Vma = record v { start = e } in
      if_intro P (leb s v.start && leb v.end e) _ _
        (λ t. IsLayout-weaken v.end lo tree top l (omega arith))
        (λ t.
          if_intro P (leb s v.start) _ _
            (λ t2. (omega (arith, part.1), (ground arith, part.4, ok.2), l))
            (λ t2.
              if_intro P (leb v.end e) _ _
                (λ t3. (
                  a,
                  (ground arith, ok.1, part.3),
                  IsLayout-weaken v.end s tree top l (omega arith),
                ))
                (λ t3.
                  if_intro P (room tail) _ _
                    (λ t4. (
                      a,
                      (ground arith, ok.1, part.3),
                      rbtree_insert-IsLayout tail s tree top
                          (IsLayout-weaken v.end s tree top l (omega arith))
                          (ground arith, part.4, ok.2) (omega arith)
                          (IsLayout-bounds v.end tree top l) tail-IsUnused,
                    ))
                    (λ t4. (a, ok, l)))))

  -- The addresses of the part are free, the others of the region keep their use.
  pub use_at-carve :
      room (record v { start = e }) ≡ true
      → (x : ℕ)
      → use_at (carve room s e v tree) x
        ≡ (if covers v x then if within s e x then none else some (uses v) else use_at tree x)
  unfolding carve
  use_at-carve r x =
      let tail : Vma = record v { start = e } in
      let low : x < v.end → use_at tree x ≡ none = use_at-below v.end tree top x l in
      let inserted = use_at-rbtree_insert tail tree x tail-IsUnused in
      let P : List Vma → Type 0 = λ t.
        use_at t x
        ≡ (if covers v x then if within s e x then none else some (uses v) else use_at tree x) in
      if_intro P (leb s v.start && leb v.end e) _ _ (λ t. ground (arith, low))
        (λ t.
          if_intro P (leb s v.start) _ _ (λ t2. ground (arith, low))
            (λ t2.
              if_intro P (leb v.end e) _ _ (λ t3. ground (arith, low))
                (λ t3.
                  if_intro P (room tail) _ _ (λ t4. rw inserted (ground (arith, low)))
                    (λ t4. absurd (ground (arith, r))))))
