-- ===== src/Kernel/Vma/Cursor.antt =====
-- The node that `jlos_rbtree_find_key_le` gives the functions of `kernel/vma.c`, and `jlos_vma_find`.
use johnbeauty_os.Prelude.{
  ℕ, ◌≤◌, ◌<◌, ◌≡◌, ◌∙◌, refl, none, List, [], ◌∷◌, leb, arith, if_false, if_intro,
}
use mathlib.Core.Option
use johnbeauty_os.Kernel.Vma.{Vma, Mm, find_key_le, or_best, found_at, find}
use johnbeauty_os.Kernel.Vma.Layout.{IsRegion, IsLayout, covers, uses, use_at, use_at-below}

-- The first node starts above the address.
abbrev pub StartsAbove : ℕ → List Vma → Type 0
StartsAbove addr [] = Unit
StartsAbove addr (v ∷ rest) = addr < v.start

abbrev pub SameFrom : ℕ → List Vma → List Vma → Type 0
SameFrom lo tree tree' = (x : ℕ) → lo ≤ x → use_at tree x ≡ use_at tree' x

-- Where a cursor for an address stands in a layout.
abbrev pub IsCursor : ℕ → ℕ → ℕ → List Vma → List Vma → Type 0
IsCursor addr lo hi tree [] = StartsAbove addr tree
IsCursor addr lo hi tree (v ∷ rest) =
    (lo ≤ v.start)
    × (v.start ≤ addr)
    × IsRegion v
    × IsLayout v.end rest hi
    × StartsAbove addr rest
    × SameFrom v.start tree (v ∷ rest)

or_best-IsCursor :
    (addr lo hi : ℕ) (v : Vma) (rest cur : List Vma)
    → IsLayout lo (v ∷ rest) hi
    → v.start ≤ addr
    → IsCursor addr v.end hi rest cur
    → IsCursor addr lo hi (v ∷ rest) (or_best cur (v ∷ rest))
or_best-IsCursor addr lo hi v rest [] (a, ok, l) le c = (a, le, ok, l, c, λ x p. refl)
or_best-IsCursor addr lo hi v rest (w ∷ ws) (a, ok, l) le (b, d, w_ok, m, above, same) =
    (omega arith, d, w_ok, m, above, λ x p. if_false (covers v x) _ _ (ground arith) ∙ same x p)

pub find_key_le-IsCursor :
    (addr lo hi : ℕ) (tree : List Vma)
    → IsLayout lo tree hi
    → IsCursor addr lo hi tree (find_key_le tree addr)
unfolding find_key_le
find_key_le-IsCursor addr lo hi [] l = tt
find_key_le-IsCursor addr lo hi (v ∷ rest) l =
    if_intro (IsCursor addr lo hi (v ∷ rest)) (leb v.start addr) _ _
      (λ s.
        or_best-IsCursor addr lo hi v rest (find_key_le rest addr) l (ground arith)
          (find_key_le-IsCursor addr v.end hi rest l.2))
      (λ s. ground arith)

pub use_at-above :
    (addr lo hi : ℕ) (tree : List Vma)
    → IsLayout lo tree hi
    → StartsAbove addr tree
    → use_at tree addr ≡ none
use_at-above addr lo hi [] l above = refl
use_at-above addr lo hi (v ∷ rest) l above =
    use_at-below v.start (v ∷ rest) hi addr (omega arith, l.1, l.2) above

found_at-uses :
    (addr lo hi : ℕ) (tree cur : List Vma)
    → IsLayout lo tree hi
    → IsCursor addr lo hi tree cur
    → Option.map uses (found_at cur addr) ≡ use_at tree addr
found_at-uses addr lo hi tree [] l above = rw (use_at-above addr lo hi tree l above) refl
found_at-uses addr lo hi tree (v ∷ rest) l (a, le, ok, m, above, same) =
    rw (same addr le, use_at-above addr v.end hi rest m above) (ground arith)

-- In a layout, `jlos_vma_find` gives the region that a search of all regions for the address meets:
-- the use that the found region has is the use of the address, and there is none where no region
-- covers it.
pub find-use_at :
    (mm : Mm) (hi addr : ℕ)
    → IsLayout 0 mm.tree hi
    → Option.map uses (find mm addr) ≡ use_at mm.tree addr
unfolding find
find-use_at mm hi addr l =
    found_at-uses addr 0 hi mm.tree (find_key_le mm.tree addr) l
      (find_key_le-IsCursor addr 0 hi mm.tree l)
