-- ===== src/Kernel/Vma/Copied.antt =====
-- What `jlos_mm_clone_user` of `kernel/vma.c` copies.
use johnbeauty_os.Prelude.{
  ℕ, ◌≤◌, ◌<◌, ◌≡◌, ◌∙◌, refl, ap, Bool, true, not, ◌||◌, Option, none, some, List, [], ◌∷◌, arith,
  if_true, if_false,
}
use Prim.Native.Nat.{bit_or}
use johnbeauty_os.Kernel.Vma.{VmaType, Vma, Mm, rbtree_insert}
use johnbeauty_os.Kernel.Vma.Space.{vma_cow, clone_nodes, clone_user}
use johnbeauty_os.Kernel.Vma.Layout.{
  IsLayout, IsUnused, IsLayout-bounds, covers, use_at, use_at-below, rbtree_insert-IsLayout,
  use_at-rbtree_insert,
}

-- A copied use is marked copy on write; where there is none, the other stays.
abbrev pub copied_or : Option (ℕ × VmaType) → Option (ℕ × VmaType) → Option (ℕ × VmaType)
copied_or none other = other
copied_or (some (flags, t)) other = some (bit_or flags vma_cow, t)

IsLayout-raise :
    (lo : ℕ) (tree : List Vma) (hi hi' : ℕ) → IsLayout lo tree hi → hi ≤ hi' → IsLayout lo tree hi'
IsLayout-raise lo [] hi hi' l h = omega arith
IsLayout-raise lo (v ∷ rest) hi hi' (a, ok, l) h = (a, ok, IsLayout-raise v.end rest hi hi' l h)

use_at-past :
    (lo : ℕ) (tree : List Vma) (hi x : ℕ) → IsLayout lo tree hi → hi ≤ x → use_at tree x ≡ none
use_at-past lo [] hi x l h = refl
use_at-past lo (v ∷ rest) hi x (a, ok, l) h =
    let top = IsLayout-bounds v.end rest hi l in
    if_false (covers v x) _ _ (ground arith) ∙ use_at-past v.end rest hi x l h

module _ (room : Vma → Bool) (nodes : (v : Vma) → room v ≡ true) where
  -- The copies go behind what the copy has so far, below `lo`.
  clone_nodes-use_at :
      (lo : ℕ) (tree : List Vma) (hi : ℕ) (dst : Mm)
      → IsLayout lo tree hi
      → IsLayout 0 dst.tree lo
      → let (done, shared, dst') = clone_nodes room tree dst in
        (done ≡ true)
        × (shared ≡ tree)
        × IsLayout 0 dst'.tree hi
        × ((x : ℕ) → use_at dst'.tree x ≡ copied_or (use_at tree x) (use_at dst.tree x))
  unfolding clone_nodes
  clone_nodes-use_at lo [] hi dst l d = (refl, refl, IsLayout-raise 0 dst.tree lo hi d l, λ x. refl)
  clone_nodes-use_at lo (v ∷ rest) hi dst (a, ok, l) d =
      let copy : Vma = record v { flags = bit_or v.flags vma_cow } in
      let free : IsUnused v.start v.end dst.tree =
        λ x p q. use_at-past 0 dst.tree lo x d (omega arith) in
      let next =
        clone_nodes-use_at v.end rest hi (record dst { tree = rbtree_insert copy dst.tree }) l
          (rbtree_insert-IsLayout copy 0 dst.tree v.end
            (IsLayout-raise 0 dst.tree lo v.end d (omega arith)) ok (omega arith) (omega arith)
            free) in
      let low : (x : ℕ) → x < v.end → use_at rest x ≡ none = λ x. use_at-below v.end rest hi x l in
      rw (if_true (room v) _ _ (nodes v)) (
        next.0,
        ap (λ t. v ∷ t) next.1,
        next.2,
        λ x.
            next.3 x
            ∙ ap (copied_or (use_at rest x)) (use_at-rbtree_insert copy dst.tree x free)
            ∙ ground (arith, low x),
      )

-- Where the slab cache has nodes, an address space copied into an empty one succeeds; the layout is
-- the copied one's, the uses of its addresses are the same but marked copy on write, and exactly its
-- regions are shared in the page tables.
pub clone_user-use_at :
    (room : Vma → Bool) (hi : ℕ) (dst src : Mm)
    → ((v : Vma) → room v ≡ true)
    → src.pc ≡ true
    → dst.pc ≡ true
    → dst.tree ≡ []
    → IsLayout 0 src.tree hi
    → let (done, shared, dst') = clone_user room dst src in
      (done ≡ true)
      × (shared ≡ src.tree)
      × IsLayout 0 dst'.tree hi
      × ((x : ℕ) → use_at dst'.tree x ≡ copied_or (use_at src.tree x) none)
unfolding clone_user
clone_user-use_at room hi dst src nodes pc pc' empty l =
    let sized : Mm = record dst {
      brk_start = src.brk_start;
      brk_end = src.brk_end;
      brk_limit = src.brk_limit;
    } in
    let start : IsLayout 0 dst.tree 0 = rw empty (omega arith) in
    let (a, b, c, d) = clone_nodes-use_at room nodes 0 src.tree hi sized l start in
    rw (if_false (not dst.pc || not src.pc) _ _ (ground (arith, pc, pc')))
      (a, b, c, λ x. d x ∙ ap (λ t. copied_or (use_at src.tree x) (use_at t x)) empty)
