-- ===== src/Kernel/Vma/Gaps/Room.antt =====
-- What `jlos_vma_find_free_area` of `kernel/vma.c` finds is inside the area and not in use, and a
-- region added there keeps the layout.
use johnbeauty_os.Prelude.{
  ℕ, ◌+◌, ◌-◌, ◌%◌, ◌≤◌, ◌<◌, ◌≡◌, ◌≢◌, ◌∙◌, refl, Bool, true, ◌||◌, none, List, [], ◌∷◌, ltb, leb,
  ◌==◌, arith, if_true, if_false, if_intro, ap, sym, Bool-cases, inl, inr, ◌&&◌,
}
use johnbeauty_os.Kernel.Vma.{Vma, Mm, page_size, page_align_up, find_key_le}
use johnbeauty_os.Kernel.Vma.Gaps.{
  node_at, starts_after, hint_fits, first_gap, gap_from, in_area, find_free_area,
}
use johnbeauty_os.Kernel.Vma.Layout.{
  IsLayout, IsUnused, covers, use_at, use_at-below, page_align_up_lem, page_align_up_bounds,
  IsLayout-bounds,
}
use johnbeauty_os.Kernel.Vma.Cursor.{IsCursor, StartsAbove, find_key_le-IsCursor}

use_at-before :
    (lo hi b x : ℕ) (tree : List Vma)
    → IsLayout lo tree hi
    → starts_after tree b ≡ true
    → x < b
    → use_at tree x ≡ none
use_at-before lo hi b x [] l s h = refl
use_at-before lo hi b x (v ∷ rest) l s h =
    use_at-below v.start (v ∷ rest) hi x (omega arith, l.1, l.2) (ground arith)

use_at-past : (v : Vma) (rest : List Vma) (x : ℕ) → v.end ≤ x → use_at (v ∷ rest) x ≡ use_at rest x
use_at-past v rest x h = if_false (covers v x) _ _ (ground arith)

node_at-IsUnused :
    (h len hi : ℕ) (tree cur : List Vma)
    → IsLayout 0 tree hi
    → IsCursor h 0 hi tree cur
    → starts_after (node_at tree cur h) (h + len) ≡ true
    → IsUnused h (h + len) tree
node_at-IsUnused h len hi tree [] l c s x p q = use_at-before 0 hi (h + len) x tree l s q
node_at-IsUnused h len hi tree (v ∷ rest) l (a, le, ok, m, above, same) s x p q =
    elim (Bool-cases (leb v.end h)) [
      | inl e ↦
          same x (omega arith)
          ∙ use_at-past v rest x (ground arith)
          ∙ use_at-before v.end hi (h + len) x rest m
              (ap (λ t. starts_after t (h + len)) (sym (if_true (leb v.end h) rest (v ∷ rest) e))
                ∙ s)
              q
      | inr e ↦ absurd (ground arith)
    ]

pub starts_after_end :
    (lo : ℕ) (rest : List Vma) (hi : ℕ) → IsLayout lo rest hi → starts_after rest lo ≡ true
starts_after_end lo [] hi l = refl
starts_after_end lo (v ∷ rest) hi l = ground (arith, l.0)

pub starts_after_above :
    (addr : ℕ) (rest : List Vma) → StartsAbove addr rest → starts_after rest addr ≡ true
starts_after_above addr [] l = refl
starts_after_above addr (v ∷ rest) l = ground arith

s_le : (c : ℕ) (v : Vma) (rest : List Vma) → starts_after (v ∷ rest) c ≡ true → c ≤ v.start
s_le c v rest s = ground arith

and_left : (a b : Bool) → (a && b) ≡ true → a ≡ true
and_left a b h = ground arith

and_right : (a b : Bool) → (a && b) ≡ true → b ≡ true
and_right a b h = ground arith

pub hint_fits-IsUnused :
    (size hi : ℕ) (tree : List Vma) (base limit hint len : ℕ)
    → IsLayout 0 tree hi
    → limit + page_size ≤ size
    → hint_fits tree base limit hint (page_align_up size hint) len ≡ true
    → let a = page_align_up size hint in (base ≤ a) × (a + len ≤ limit) × IsUnused a (a + len) tree
unfolding hint_fits
hint_fits-IsUnused size hi tree base limit hint len l below s =
    let h = page_align_up size hint in
    let tests = (leb base hint && ltb hint limit && (ltb h limit && leb len (limit - h))) in
    let fit = starts_after (node_at tree (find_key_le tree h) h) (h + len) in
    let area : tests ≡ true = and_left tests fit s in
    let up = page_align_up_bounds size hint (ground arith) in
    (
      ground (arith, up.0),
      ground arith,
      node_at-IsUnused h len hi tree (find_key_le tree h) l (find_key_le-IsCursor h 0 hi tree l)
          (and_right tests fit s),
    )

in_area-IsUnused :
    (tree : List Vma) (base limit len c : ℕ)
    → IsUnused c (c + len) tree
    → in_area base limit len c ≢ 0
    → let a = in_area base limit len c in (base ≤ a) × (a + len ≤ limit) × IsUnused a (a + len) tree
in_area-IsUnused tree base limit len c free =
    if_intro (λ a. a ≢ 0 → (base ≤ a) × (a + len ≤ limit) × IsUnused a (a + len) tree)
      (ltb c base || leb limit c || ltb (limit - c) len) _ _ (λ t ne. absurd (ne refl))
      (λ t ne. (ground arith, ground arith, free))

module _ (size hi len : ℕ) (fits : hi + page_size ≤ size) where
  pub first_gap-IsUnused :
      (c lo : ℕ) (tree : List Vma)
      → IsLayout lo tree hi
      → starts_after tree c ≡ true
      → let g = first_gap size tree c len in (c ≤ g) × IsUnused g (g + len) tree
  unfolding first_gap
  first_gap-IsUnused c lo [] l s = (omega arith, λ x p q. refl)
  first_gap-IsUnused c lo (v ∷ rest) (a, ok, l) s =
      let aligned =
        page_align_up_lem size v.end ok.2 (omega (arith, IsLayout-bounds v.end rest hi l)) in
      if_intro (λ g. (c ≤ g) × IsUnused g (g + len) (v ∷ rest))
        (leb c v.start && leb len (v.start - c)) _ _
        (λ t. (
          omega arith,
          λ x p q. use_at-below v.start (v ∷ rest) hi x (omega arith, ok, l) (ground arith),
        ))
        (λ t.
          let next = first_gap-IsUnused v.end v.end rest l (starts_after_end v.end rest hi l) in
          rw aligned (
            omega (arith, next.0, ok.0, s_le c v rest s),
            λ x p q. use_at-past v rest x (omega (arith, next.0)) ∙ next.1 x p q,
          ))

  gap_from-IsUnused :
      (base : ℕ) (tree cur : List Vma)
      → IsLayout 0 tree hi
      → IsCursor base 0 hi tree cur
      → let g = gap_from size tree cur base len in IsUnused g (g + len) tree
  unfolding gap_from
  gap_from-IsUnused base tree [] l above =
      (first_gap-IsUnused base 0 tree l (starts_after_above base tree above)).1
  gap_from-IsUnused base tree (v ∷ rest) l (a, le, ok, m, above, same) =
      let aligned =
        page_align_up_lem size v.end ok.2 (omega (arith, IsLayout-bounds v.end rest hi m)) in
      let first : (c : ℕ)
          → v.end ≤ c
          → starts_after rest c ≡ true
          → IsUnused (first_gap size rest c len) (first_gap size rest c len + len) tree =
        λ c ge s.
          let next = first_gap-IsUnused c v.end rest m s in
          λ x p q.
            same x (omega (arith, next.0))
            ∙ use_at-past v rest x (omega (arith, next.0))
            ∙ next.1 x p q in
      if_intro (λ c. IsUnused (first_gap size rest c len) (first_gap size rest c len + len) tree)
        (ltb base v.end) _ _
        (λ t. rw aligned (first v.end (omega arith) (starts_after_end v.end rest hi m)))
        (λ t. first base (ground arith) (starts_after_above base rest above))

-- A range that `jlos_vma_find_free_area` finds in a layout, away from the end of the address space,
-- begins at or above the base, ends at or below the limit, and no region uses an address of it.
pub find_free_area-IsUnused :
    (size hi : ℕ) (mm : Mm) (base limit hint len : ℕ)
    → IsLayout 0 mm.tree hi
    → hi + page_size ≤ size
    → limit + page_size ≤ size
    → find_free_area size mm base limit hint len ≢ 0
    → let a = find_free_area size mm base limit hint len in
      (base ≤ a) × (a + len ≤ limit) × IsUnused a (a + len) mm.tree
unfolding find_free_area
find_free_area-IsUnused size hi mm base limit hint len l fits below =
    let h = page_align_up size hint in
    let cur = find_key_le-IsCursor base 0 hi mm.tree l in
    if_intro (λ a. a ≢ 0 → (base ≤ a) × (a + len ≤ limit) × IsUnused a (a + len) mm.tree) (len == 0)
      _ _ (λ t ne. absurd (ne refl))
      (λ t.
        if_intro (λ a. a ≢ 0 → (base ≤ a) × (a + len ≤ limit) × IsUnused a (a + len) mm.tree)
          (hint_fits mm.tree base limit hint h len) _ _
          (λ t ne. hint_fits-IsUnused size hi mm.tree base limit hint len l below t)
          (λ t ne.
            in_area-IsUnused mm.tree base limit len
              (gap_from size mm.tree (find_key_le mm.tree base) base len)
              (gap_from-IsUnused size hi len fits base mm.tree (find_key_le mm.tree base) l cur)
              ne))

first_gap-IsPage :
    (size hi lo c len : ℕ) (tree : List Vma)
    → hi + page_size ≤ size
    → IsLayout lo tree hi
    → c % page_size ≡ 0
    → first_gap size tree c len % page_size ≡ 0
unfolding first_gap
first_gap-IsPage size hi lo c len [] fits l p = p
first_gap-IsPage size hi lo c len (v ∷ rest) fits (a, ok, l) p =
    if_intro (λ g. g % page_size ≡ 0) (leb c v.start && leb len (v.start - c)) _ _ (λ t. p)
      (λ t.
        first_gap-IsPage size hi v.end (page_align_up size v.end) len rest fits l
          (page_align_up_bounds size v.end (omega (arith, IsLayout-bounds v.end rest hi l))).2)

gap_from-IsPage :
    (size hi base len : ℕ) (tree cur : List Vma)
    → hi + page_size ≤ size
    → IsLayout 0 tree hi
    → IsCursor base 0 hi tree cur
    → base % page_size ≡ 0
    → gap_from size tree cur base len % page_size ≡ 0
unfolding gap_from
gap_from-IsPage size hi base len tree [] fits l c p =
    first_gap-IsPage size hi 0 base len tree fits l p
gap_from-IsPage size hi base len tree (v ∷ rest) fits l (a, le, ok, m, above, same) p =
    if_intro (λ c. first_gap size rest c len % page_size ≡ 0) (ltb base v.end) _ _
      (λ t.
        first_gap-IsPage size hi v.end (page_align_up size v.end) len rest fits m
          (page_align_up_bounds size v.end (omega (arith, IsLayout-bounds v.end rest hi m))).2)
      (λ t. first_gap-IsPage size hi v.end base len rest fits m p)

-- From a base of whole pages, what is found is of whole pages, and so is 0.
pub find_free_area-IsPage :
    (size hi : ℕ) (mm : Mm) (base limit hint len : ℕ)
    → IsLayout 0 mm.tree hi
    → hi + page_size ≤ size
    → limit + page_size ≤ size
    → base % page_size ≡ 0
    → find_free_area size mm base limit hint len % page_size ≡ 0
unfolding find_free_area hint_fits
find_free_area-IsPage size hi mm base limit hint len l fits below p =
    let h = page_align_up size hint in
    let g = gap_from size mm.tree (find_key_le mm.tree base) base len in
    let P : ℕ → Type 0 = λ a. a % page_size ≡ 0 in
    if_intro P (len == 0) _ _ (λ t. omega arith)
      (λ t.
        if_intro P (hint_fits mm.tree base limit hint h len) _ _
          (λ t2. (page_align_up_bounds size hint (ground arith)).2)
          (λ t2.
            if_intro P (ltb g base || leb limit g || ltb (limit - g) len) _ _ (λ t3. omega arith)
              (λ t3.
                gap_from-IsPage size hi base len mm.tree (find_key_le mm.tree base) fits l
                  (find_key_le-IsCursor base 0 hi mm.tree l) p)))
