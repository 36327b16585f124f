-- ===== src/Kernel/Vma/Gaps/None.antt =====
-- `jlos_vma_find_free_area` of `kernel/vma.c` finds a range where there is one.
use johnbeauty_os.Prelude.{
  ℕ, ◌+◌, ◌-◌, ◌≤◌, ◌<◌, ◌≡◌, ◌∙◌, sym, ◌&&◌, ◌||◌, none, List, [], ◌∷◌, ltb, leb, ◌==◌, arith,
  if_intro, dec_lt,
}
use johnbeauty_os.Kernel.Vma.{Vma, Mm, page_size, page_align_up, find_key_le}
use johnbeauty_os.Kernel.Vma.Gaps.{hint_fits, first_gap, gap_from, find_free_area}
use johnbeauty_os.Kernel.Vma.Gaps.Room.{
  starts_after_end, starts_after_above, hint_fits-IsUnused, first_gap-IsUnused,
}
use johnbeauty_os.Kernel.Vma.Layout.{
  IsLayout, IsUnused, IsUnused-tail, use_at, page_align_up_lem, IsLayout-bounds,
}
use johnbeauty_os.Kernel.Vma.Cursor.{IsCursor, find_key_le-IsCursor}

covered :
    (v : Vma) (rest : List Vma) (x : ℕ) → v.start ≤ x → x < v.end → use_at (v ∷ rest) x ≡ none → ⊥
covered v rest x low high e = absurd (ground (arith, e, low, high))

-- A range that is not in use ends before a region begins, or begins behind it.
beside :
    (v : Vma) (rest : List Vma) (a len : ℕ)
    → v.start < v.end
    → 0 < len
    → IsUnused a (a + len) (v ∷ rest)
    → v.start < a + len
    → v.end ≤ a
beside v rest a len some_region pos u over = elim (dec_lt a v.end) [
  | no ge ↦ omega arith
  | yes lt ↦ elim (dec_lt a v.start) [
    | yes before ↦
        absurd (covered v rest v.start (omega arith) some_region (u v.start (omega arith) over))
    | no ge ↦ absurd (covered v rest a (omega arith) lt (u a (omega arith) (omega arith)))
  ]
]

module _ (size hi len a : ℕ) (fits : hi + page_size ≤ size) (pos : 0 < len) where
  -- The first gap from a candidate on is not behind any range there that is not in use.
  first_gap_least :
      (c lo : ℕ) (tree : List Vma)
      → IsLayout lo tree hi
      → c ≤ a
      → IsUnused a (a + len) tree
      → first_gap size tree c len ≤ a
  unfolding first_gap
  first_gap_least c lo [] l le u = le
  first_gap_least c lo (v ∷ rest) (low, ok, l) le u =
      let aligned =
        page_align_up_lem size v.end ok.2 (omega (arith, IsLayout-bounds v.end rest hi l)) in
      if_intro (λ g. g ≤ a) (leb c v.start && leb len (v.start - c)) _ _ (λ t. le)
        (λ t.
          let past : v.end ≤ a = elim (dec_lt v.start (a + len)) [
            | yes over ↦ beside v rest a len ok.0 pos u over
            | no apart ↦ absurd (ground (arith, t, le, apart))
          ] in
          rw aligned (first_gap_least v.end v.end rest l past (IsUnused-tail a (a + len) v rest u)))

  gap_from_least :
      (base : ℕ) (tree cur : List Vma)
      → IsLayout 0 tree hi
      → IsCursor base 0 hi tree cur
      → base ≤ a
      → IsUnused a (a + len) tree
      → (base ≤ gap_from size tree cur base len) × (gap_from size tree cur base len ≤ a)
  unfolding gap_from
  gap_from_least base tree [] l above le u = (
    (first_gap-IsUnused size hi len fits base 0 tree l (starts_after_above base tree above)).0,
    first_gap_least base 0 tree l le u,
  )
  gap_from_least base tree (v ∷ rest) l (low, before, ok, m, above, same) le u =
      let aligned =
        page_align_up_lem size v.end ok.2 (omega (arith, IsLayout-bounds v.end rest hi m)) in
      let here : IsUnused a (a + len) (v ∷ rest) = λ x p q. sym (same x (omega arith)) ∙ u x p q in
      let past = beside v rest a len ok.0 pos here (omega arith) in
      let later = IsUnused-tail a (a + len) v rest here in
      if_intro (λ c. (base ≤ first_gap size rest c len) × (first_gap size rest c len ≤ a))
        (ltb base v.end) _ _
        (λ t.
          let up =
            first_gap-IsUnused size hi len fits v.end v.end rest m
              (starts_after_end v.end rest hi m) in
          rw aligned (ground (arith, up.0, t), first_gap_least v.end v.end rest m past later))
        (λ t. (
          (first_gap-IsUnused size hi len fits base v.end rest m
              (starts_after_above base rest above)).0,
          first_gap_least base v.end rest m le later,
        ))

-- Where it answers 0 for a range of some bytes, every range of that length in the area has an address in
-- use.
pub find_free_area-none :
    (size hi : ℕ) (mm : Mm) (base limit hint len a : ℕ)
    → IsLayout 0 mm.tree hi
    → hi + page_size ≤ size
    → limit + page_size ≤ size
    → 0 < base
    → 0 < len
    → find_free_area size mm base limit hint len ≡ 0
    → base ≤ a
    → a + len ≤ limit
    → IsUnused a (a + len) mm.tree
    → ⊥
unfolding find_free_area
find_free_area-none size hi mm base limit hint len a l fits below some_base pos nothing low high u =
    let h = page_align_up size hint in
    let cur = find_key_le mm.tree base in
    let g = gap_from size mm.tree cur base len in
    let (up, least) =
      gap_from_least size hi len a fits pos base mm.tree cur l
        (find_key_le-IsCursor base 0 hi mm.tree l) low u in
    if_intro (λ r. r ≡ 0 → ⊥) (len == 0) _ _ (λ t e. absurd (ground (arith, t, pos)))
      (λ t.
        if_intro (λ r. r ≡ 0 → ⊥) (hint_fits mm.tree base limit hint h len) _ _
          (λ s e.
            let (over, _, _) = hint_fits-IsUnused size hi mm.tree base limit hint len l below s in
            absurd (omega arith))
          (λ s.
            if_intro (λ r. r ≡ 0 → ⊥) (ltb g base || leb limit g || ltb (limit - g) len) _ _
              (λ w e. absurd (ground (arith, w, up, least, high, pos)))
              (λ w e. absurd (omega arith))))
      nothing
