-- ===== src/Kernel/Vma/Gaps.antt =====
-- The search for an unused range, `jlos_vma_find_free_area` of `kernel/vma.c`.
pub mod Room
pub mod None
use johnbeauty_os.Prelude.{
  ℕ, zero, suc, ◌+◌, ◌-◌, ◌*◌, ◌/◌, ◌%◌, ◌≤◌, ◌<◌, Bool, true, false, not, ◌&&◌, ◌||◌, Option, none,
  some, List, [], ◌∷◌, ◌++◌, ltb, leb, ◌==◌, if◌then◌else◌,
}
use johnbeauty_os.Kernel.Vma.{Vma, Mm, page_align_up, find_key_le}

-- Does the gap at `h` hold `len` addresses: the first node that does not end before it.
abbrev pub node_at : List Vma → List Vma → ℕ → List Vma
node_at tree [] h = tree
node_at tree (v ∷ rest) h = if leb v.end h then rest else v ∷ rest

abbrev pub starts_after : List Vma → ℕ → Bool
starts_after [] a = true
starts_after (v ∷ rest) a = leb a v.start

unfoldable pub hint_fits : List Vma → ℕ → ℕ → ℕ → ℕ → ℕ → Bool
hint_fits tree base limit hint h len =
    leb base hint
    && ltb hint limit
    && (ltb h limit && leb len (limit - h))
    && starts_after (node_at tree (find_key_le tree h) h) (h + len)

-- The search for the first gap, from a candidate on.
unfoldable pub first_gap : ℕ → List Vma → ℕ → ℕ → ℕ
first_gap size [] candidate len = candidate
first_gap size (v ∷ rest) candidate len =
    if leb candidate v.start && leb len (v.start - candidate)
    then candidate
    else first_gap size rest (page_align_up size v.end) len

unfoldable pub gap_from : ℕ → List Vma → List Vma → ℕ → ℕ → ℕ
gap_from size tree [] base len = first_gap size tree base len
gap_from size tree (v ∷ rest) base len =
    first_gap size rest (if ltb base v.end then page_align_up size v.end else base) len

abbrev pub in_area : ℕ → ℕ → ℕ → ℕ → ℕ
in_area base limit len c = if ltb c base || leb limit c || ltb (limit - c) len then 0 else c

unfoldable pub find_free_area : ℕ → Mm → ℕ → ℕ → ℕ → ℕ → ℕ
find_free_area size mm base limit hint len =
    let h = page_align_up size hint in
    if len == 0
    then 0
    else if hint_fits mm.tree base limit hint h len
    then h
    else in_area base limit len (gap_from size mm.tree (find_key_le mm.tree base) base len)
