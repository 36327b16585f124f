-- ===== src/Kernel/Vma/Unmap.antt =====
-- Regions cut and moved: `jlos_vma_remove_range`, `jlos_vma_grow_tail` and `jlos_vma_shrink_tail` of
-- `kernel/vma.c`.
pub mod Range
pub mod Cut
use johnbeauty_os.Prelude.{
  ℕ, zero, suc, ◌+◌, ◌-◌, ◌*◌, ◌/◌, ◌%◌, ◌≤◌, ◌<◌, Bool, true, false, not, ◌&&◌, ◌||◌, Option, none,
  some, List, [], ◌∷◌, ◌++◌, ltb, leb, ◌==◌, if◌then◌else◌,
}
use johnbeauty_os.Kernel.Vma.{
  VmaType, same_type, Vma, Mm, page_size, page_align_down, page_align_up, rbtree_insert, add,
}

-- `for (i = lo; i < hi; i += page)` as the list of the pages passed to `jlos_paging_unmap`; `n` rounds.
unfoldable pub pages_from : ℕ → ℕ → List ℕ
pages_from lo zero = []
pages_from lo (suc n) = lo ∷ pages_from (lo + page_size) n

abbrev pub unmap_range : ℕ → ℕ → List ℕ
unmap_range lo hi = pages_from lo ((hi - lo + page_size - 1) / page_size)

abbrev pub later : ℕ → ℕ → ℕ
later a b = if ltb b a then a else b

abbrev pub earlier : ℕ → ℕ → ℕ
earlier a b = if ltb a b then a else b

-- What is left of a region without [s, e), and what stays in the tree behind it: a region cut in two
-- keeps its whole extent when there is no node for its tail.
unfoldable pub carve : (Vma → Bool) → ℕ → ℕ → Vma → List Vma → List Vma
carve room s e v rest =
    let tail : Vma = record v { start = e } in
    if leb s v.start && leb v.end e
    then rest
    else if leb s v.start
    then record v { start = e } ∷ rest
    else if leb v.end e
    then record v { end = s } ∷ rest
    else if room tail
    then record v { end = s } ∷ rbtree_insert tail rest
    else v ∷ rest

-- A region that the range overlaps, in front of the pages and the tree of the nodes behind it.
unfoldable pub cut : (Vma → Bool) → ℕ → ℕ → Vma → List ℕ × List Vma → List ℕ × List Vma
cut room s e v (pages, tree) =
    let lo = later v.start s in
    let hi = earlier v.end e in (unmap_range lo hi ++ pages, carve room lo hi v tree)

-- The loop over the nodes: the pages unmapped, and the tree.
unfoldable pub remove_nodes : (Vma → Bool) → ℕ → ℕ → List Vma → List ℕ × List Vma
remove_nodes room s e [] = ([], [])
remove_nodes room s e (v ∷ rest) =
    let behind = remove_nodes room s e rest in
    if leb e v.start
    then ([], v ∷ rest)
    else if ltb s v.end
    then cut room s e v behind
    else (behind.0, v ∷ behind.1)

unfoldable pub remove_range : (Vma → Bool) → ℕ → Mm → ℕ → ℕ → Bool × List ℕ × Mm
remove_range room size mm start end =
    let (pages, tree) =
      remove_nodes room (page_align_down start) (page_align_up size end) mm.tree in
    if not mm.pc || leb end start then (false, [], mm) else (true, pages, record mm { tree = tree })

-- The node with this start, which is set to end at `new_end` if it has the type.
unfoldable pub grow_node : ℕ → ℕ → VmaType → List Vma → Option (Vma × List Vma)
grow_node start new_end vma_type [] = none
grow_node start new_end vma_type (v ∷ rest) =
    if v.start == start
    then (if same_type v.vma_type vma_type
        then some (record v { end = new_end }, record v { end = new_end } ∷ rest)
        else none)
    else elim (grow_node start new_end vma_type rest) [ none ↦ none | some p ↦ some (p.0, v ∷ p.1) ]

unfoldable pub grow_tail : (Vma → Bool) → ℕ → Mm → ℕ → ℕ → ℕ → VmaType → Option Vma × Mm
grow_tail room size mm start new_end flags vma_type =
    let s = page_align_down start in
    let e = page_align_up size new_end in
    if leb new_end start then (none, mm) else elim (grow_node s e vma_type mm.tree) [
      | none ↦ add room size mm s e flags vma_type
      | some p ↦ (some p.0, record mm { tree = p.1 })
    ]

-- The first region of the type, cut at `new_end`; the pages unmapped, and the tree.
unfoldable pub shrink_node : ℕ → VmaType → List Vma → Option (List ℕ × List Vma)
shrink_node new_end vma_type [] = none
shrink_node new_end vma_type (v ∷ rest) =
    if same_type v.vma_type vma_type
    then (if leb new_end v.start
        then some (unmap_range v.start v.end, rest)
        else if ltb new_end v.end
        then some (unmap_range new_end v.end, record v { end = new_end } ∷ rest)
        else some ([], v ∷ rest))
    else elim (shrink_node new_end vma_type rest) [ none ↦ none | some p ↦ some (p.0, v ∷ p.1) ]

unfoldable pub shrink_tail : ℕ → Mm → ℕ → VmaType → Bool × List ℕ × Mm
shrink_tail size mm new_end vma_type =
    if not mm.pc
    then (false, [], mm)
    else elim (shrink_node (page_align_up size new_end) vma_type mm.tree) [
      | none ↦ (false, [], mm)
      | some p ↦ (true, p.0, record mm { tree = p.1 })
    ]
