-- ===== src/Kernel/Frames/Bulk/Freed.antt =====
-- `jlos_page_frame_free_n` drops a reference of each frame of a range, and frees those that had no other.
use mathlib.Core.Path.{subst}
use johnbeauty_os.Prelude.{
  ℕ, suc, ◌+◌, ◌-◌, ◌*◌, ◌%◌, ◌^◌, ◌≤◌, ◌<◌, ◌≡◌, ◌∙◌, refl, ap, true, false, some, List, [], ◌∷◌,
  arith, inl, inr, ◌↔◌, ◌⊎◌, ◌==◌, ltb, length, if_false, ℕ_discrete, add32, mul32, not, ◌&&◌,
}
use johnbeauty_os.Prelude.Members.{has}
use johnbeauty_os.Kernel.Frames.{Pfa, invalid}
use johnbeauty_os.Kernel.Frames.Blocks.{is_head, FreeAt, IsPfa}
use johnbeauty_os.Kernel.Frames.Ranges.{phys_to_frame, page_frame_size}
use johnbeauty_os.Kernel.Frames.Ranges.Changed.{
  Among, dec_Among, Unheaded, changed-IsPfa, changed-FreeAt,
}
use johnbeauty_os.Kernel.Frames.Ranges.Given.{on_frames, only_pages, page_inside, page_outside}
use johnbeauty_os.Kernel.Frames.Bulk.{one_less, free_sorted, free_dropped, free_n, over_release}
use johnbeauty_os.Kernel.Frames.Bulk.Runs.{
  Rising, sort_frames-Rising, Back, Back-iff, InRuns, free_runs-Back, has_cons,
}
use johnbeauty_os.Kernel.Frames.Bulk.Dropped.{
  last_refs, last_refs-Rising, length-last_refs, Last, last_refs_lem, drop_refs_lem,
}

-- A page that is occupied lies in no free block.
pub occupied-not_free :
    (pfa : Pfa) (x : ℕ) → IsPfa pfa → (pfa.pages x).occupied ≡ true → FreeAt pfa x → ⊥
occupied-not_free pfa x v e w = elim (ℕ_discrete w.block x) [
  | yes same ↦
      let here = ap (λ k. is_head pfa k w.order) same in absurd (ground (arith, here, w.head, e))
  | no ne ↦
      let (a, b) = v.inner w.block w.order x w.small w.head (omega (arith, w.low, ne)) w.high in
      absurd (ground (arith, b, e))
]

first_InRuns : (f x : ℕ) (frames : List ℕ) → InRuns f 1 frames x ↔ (has x (f ∷ frames) ≡ true)
first_InRuns f x frames = (
  λ s. (has_cons x f frames).1 (elim s [ inl (a, b) ↦ inl (omega arith) | inr h ↦ inr h ]),
  λ h. elim ((has_cons x f frames).0 h) [ inl e ↦ inl (omega arith, omega arith) | inr t ↦ inr t ],
)

-- Frames in ascending order, none of them free, become free.
free_sorted-Back :
    (frames : List ℕ) (pfa : Pfa) (low : ℕ)
    → IsPfa pfa
    → length frames ≤ 1024
    → Rising low frames
    → ((x : ℕ) → has x frames ≡ true → x < pfa.total_frames)
    → ((x : ℕ) → has x frames ≡ true → FreeAt pfa x → ⊥)
    → (p : Pfa) × (free_sorted pfa frames ≡ some p)
      × Back pfa (λ x. has x frames ≡ true) (length frames) p
unfolding has Rising
free_sorted-Back [] pfa low v few r inside taken = (
  pfa,
  refl,
  record {
    valid = v;
    free = λ x. (λ w. inl w, λ w. elim w [ inl u ↦ u | inr h ↦ absurd (ground (arith, h)) ]);
    occupied = λ x out. refl;
    refcount = λ x. refl;
    total = refl;
    start = refl;
    counter = omega arith;
  },
)
free_sorted-Back (f ∷ frames) pfa low v few (le, r) inside taken =
    let same = λ (x : ℕ). first_InRuns f x frames in
    let (p, run, b) =
      free_runs-Back frames pfa f 1 v (omega (arith, few))
        (omega (arith, inside f ((has_cons f f frames).1 (inl refl))))
        (subst (λ k. Rising k frames) (omega arith) r) (λ x i. inside x ((same x).0 i))
        (λ x i. taken x ((same x).0 i)) in
    (
      p,
      run,
      Back-iff pfa (InRuns f 1 frames) (λ x. has x (f ∷ frames) ≡ true) (1 + length frames)
          (suc (length frames)) p same (omega arith) b,
    )

free_dropped_lem :
    (pfa : Pfa) (head num low : ℕ) (frames : List ℕ)
    → Rising low frames
    → over_release pfa head num ≡ false
    → free_dropped pfa head num frames ≡ free_sorted pfa frames
unfolding free_dropped
free_dropped_lem pfa head num low [] r e = refl
free_dropped_lem pfa head num low (f ∷ frames) r e =
    if_false (over_release pfa head num) _ _ e
    ∙ ap (free_sorted pfa) (sort_frames-Rising low (f ∷ frames) r)

-- What it leaves: each frame of the range has a reference less, those that had one are free, and no
-- others became free or changed.
pub record Dropped (pfa : Pfa) (base num : ℕ) (p : Pfa) : Type 0 where
  pub valid : IsPfa p
  pub free : (x : ℕ) → FreeAt p x ↔ (FreeAt pfa x ⊎ Last pfa.pages base num x)
  pub occupied :
      (x : ℕ) → (Last pfa.pages base num x → ⊥) → (p.pages x).occupied ≡ (pfa.pages x).occupied
  pub less : (x : ℕ) → Among base num x → (p.pages x).refcount ≡ (pfa.pages x).refcount - 1
  pub others : (x : ℕ) → (Among base num x → ⊥) → (p.pages x).refcount ≡ (pfa.pages x).refcount
  pub total : p.total_frames ≡ pfa.total_frames
  pub start : p.start_addr ≡ pfa.start_addr
  pub counter :
      p.free_frames % 2 ^ 32 ≡ (pfa.free_frames + length (last_refs pfa.pages num base)) % 2 ^ 32

module _ (pfa : Pfa) (base num : ℕ) (v : IsPfa pfa) (few : num ≤ 1024)
    (fits : base + num ≤ pfa.total_frames)
    (held : (x : ℕ)
      → Among base num x
      → ((pfa.pages x).occupied ≡ true) × (0 < (pfa.pages x).refcount)) where
  abbrev less_by_one : Pfa
  less_by_one = on_frames one_less num pfa base

  abbrev frames : List ℕ
  frames = last_refs pfa.pages num base

  at_inside : (x : ℕ) → Among base num x → Unheaded (less_by_one.pages x)
  at_inside x i = rw (page_inside one_less num pfa base x i) (inr (held x i).0)

  at_taken : (x : ℕ) → Among base num x → FreeAt pfa x → ⊥
  at_taken x i = occupied-not_free pfa x v (held x i).0

  only : less_by_one ≡ record pfa { pages = less_by_one.pages }
  only = only_pages one_less num pfa base

  less-IsPfa : IsPfa less_by_one
  less-IsPfa = rw only (
      changed-IsPfa pfa less_by_one.pages base num v (page_outside one_less num pfa base) at_inside
        at_taken)

  less-FreeAt : (x : ℕ) → FreeAt less_by_one x ↔ FreeAt pfa x
  less-FreeAt x = rw only (
      changed-FreeAt pfa less_by_one.pages base num v (page_outside one_less num pfa base) at_inside
        at_taken x)

  -- Only the number of references of a page differs.
  kept_page :
      (x : ℕ)
      → ((less_by_one.pages x).occupied ≡ (pfa.pages x).occupied)
        × ((less_by_one.pages x).order ≡ (pfa.pages x).order)
  kept_page x = elim (dec_Among base num x) [
    | yes i ↦
        let e = page_inside one_less num pfa base x i in
        (ap (λ pg. pg.occupied) e, ap (λ pg. pg.order) e)
    | no out ↦
        let e = page_outside one_less num pfa base x out in
        (ap (λ pg. pg.occupied) e, ap (λ pg. pg.order) e)
  ]

  Back-Dropped :
      (p : Pfa)
      → Back less_by_one (λ x. has x frames ≡ true) (length frames) p
      → Dropped pfa base num p
  Back-Dropped p b =
      let last = last_refs_lem pfa.pages num base in
      record {
        valid = b.valid;
        free = λ x. (
          λ w. elim ((b.free x).0 w) [
            | inl u ↦ inl ((less-FreeAt x).0 u)
            | inr h ↦ inr ((last x).0 h)
          ],
          λ w.
              (b.free x).1
                (elim w [ inl u ↦ inl ((less-FreeAt x).1 u) | inr l ↦ inr ((last x).1 l) ]),
        );
        occupied = λ x out. b.occupied x (λ h. out ((last x).0 h)) ∙ (kept_page x).0;
        less = λ x i. b.refcount x ∙ ap (λ pg. pg.refcount) (page_inside one_less num pfa base x i);
        others = λ x out.
            b.refcount x ∙ ap (λ pg. pg.refcount) (page_outside one_less num pfa base x out);
        total = b.total ∙ ap (λ p. p.total_frames) only;
        start = b.start ∙ ap (λ p. p.start_addr) only;
        counter = omega (arith, b.counter, ap (λ p. p.free_frames) only);
      }

  not_over :
      ((pfa.pages base).order ≡ invalid)
        ⊎ (((pfa.pages base).order ≤ 10) × (num ≤ 2 ^ (pfa.pages base).order))
      → over_release less_by_one base num ≡ false
  not_over s =
      ap (λ o. ltb base less_by_one.total_frames && (not (o == invalid) && ltb (2 ^ o) num))
        (kept_page base).1
      ∙ elim s [ inl e ↦ ground (arith, e) | inr (a, le) ↦ ground (arith, le) ]

  pub free_dropped-Dropped :
      ((pfa.pages base).order ≡ invalid)
        ⊎ (((pfa.pages base).order ≤ 10) × (num ≤ 2 ^ (pfa.pages base).order))
      → (p : Pfa) × (free_dropped less_by_one base num frames ≡ some p) × Dropped pfa base num p
  free_dropped-Dropped s =
      let rising = last_refs-Rising pfa.pages num base in
      let last = last_refs_lem pfa.pages num base in
      let (p, run, b) =
        free_sorted-Back frames less_by_one base less-IsPfa
          (omega (arith, length-last_refs pfa.pages num base, few)) rising
          (λ x h.
            let ((a, c), one) = (last x).0 h in
            omega (arith, c, fits, ap (λ p. p.total_frames) only))
          (λ x h w. at_taken x ((last x).0 h).0 ((less-FreeAt x).0 w)) in
      (
        p,
        free_dropped_lem less_by_one base num base frames rising (not_over s) ∙ run,
        Back-Dropped p b,
      )

-- The frames of the pages that follow one another.
frame_of_lem :
    (pfa : Pfa) (phys num k : ℕ)
    → pfa.start_addr ≤ phys
    → phys + num * 4096 ≤ 2 ^ 32
    → k < num
    → phys_to_frame pfa (add32 phys (mul32 (0 + k) page_frame_size)) ≡ phys_to_frame pfa phys + k
unfolding phys_to_frame
frame_of_lem pfa phys num k from word h = omega arith

-- On well-formed lists, for a range of up to 1024 frames that ends within memory and whose addresses do
-- not wrap around, where all frames are occupied and have references, and no order smaller than the
-- range stands at its first: `free_n` does not halt, each frame has a reference less, those that had one
-- are free and no others became so, and the lists stay well formed.
pub free_n-Dropped :
    (pfa : Pfa) (phys num : ℕ)
    → IsPfa pfa
    → num ≤ 1024
    → pfa.start_addr ≤ phys
    → phys + num * 4096 ≤ 2 ^ 32
    → phys_to_frame pfa phys + num ≤ pfa.total_frames
    → ((x : ℕ)
        → Among (phys_to_frame pfa phys) num x
        → ((pfa.pages x).occupied ≡ true) × (0 < (pfa.pages x).refcount))
    → ((pfa.pages (phys_to_frame pfa phys)).order ≡ invalid)
      ⊎ (((pfa.pages (phys_to_frame pfa phys)).order ≤ 10)
          × (num ≤ 2 ^ (pfa.pages (phys_to_frame pfa phys)).order))
    → (p : Pfa) × (free_n pfa phys num ≡ some p) × Dropped pfa (phys_to_frame pfa phys) num p
unfolding free_n
free_n-Dropped pfa phys num v few from word fits held s =
    let base = phys_to_frame pfa phys in
    let (p, run, d) = free_dropped-Dropped pfa base num v few fits held s in
    (
      p,
      rw
          (drop_refs_lem num pfa phys 0 base [] pfa.pages
            (λ k h. frame_of_lem pfa phys num k from word h) (λ x i. refl) (λ x i. (held x i).1)
            fits (omega (arith, few)))
          run,
      d,
    )
