-- ===== src/Kernel/Frames/Bulk/Dropped.antt =====
-- The references dropped, and the frames that had no other.
use johnbeauty_os.Prelude.{
  ℕ, zero, suc, ◌+◌, ◌≤◌, ◌<◌, ◌≡◌, ◌∙◌, refl, sym, ap, true, some, List, [], ◌∷◌, ◌++◌, append-nil,
  append_assoc, length-append, arith, Bool-cases, inl, inr, ◌↔◌, ◌==◌, ℕ_discrete, leb, length,
  if◌then◌else◌, if_false, if_intro, ==_iff, add32, mul32,
}
use johnbeauty_os.Prelude.Members.{has}
use johnbeauty_os.Kernel.Frames.{Page, Pfa, on_page}
use johnbeauty_os.Kernel.Frames.Ranges.{for_frames, phys_to_frame, page_frame_size}
use johnbeauty_os.Kernel.Frames.Ranges.Changed.{Among}
use johnbeauty_os.Kernel.Frames.Ranges.Given.{on_frames}
use johnbeauty_os.Kernel.Frames.Bulk.{one_less, drop_one, drop_refs}
use johnbeauty_os.Kernel.Frames.Bulk.Runs.{Rising, has_cons}

-- The frames from `frame` on with one reference.
unfoldable pub last_refs : (ℕ → Page) → ℕ → ℕ → List ℕ
last_refs pages zero frame = []
last_refs pages (suc n) frame =
    let rest = last_refs pages n (suc frame) in
    if (pages frame).refcount == 1 then frame ∷ rest else rest

higher-Rising : (low : ℕ) (xs : List ℕ) → Rising (suc low) xs → Rising low xs
unfolding Rising
higher-Rising low [] r = tt
higher-Rising low (x ∷ xs) (le, r) = (omega arith, r)

pub last_refs-Rising : (pages : ℕ → Page) (n frame : ℕ) → Rising frame (last_refs pages n frame)
unfolding last_refs Rising
last_refs-Rising pages zero frame = tt
last_refs-Rising pages (suc n) frame =
    if_intro (Rising frame) ((pages frame).refcount == 1) _ _
      (λ e. (omega arith, last_refs-Rising pages n (suc frame)))
      (λ e.
        higher-Rising frame (last_refs pages n (suc frame)) (last_refs-Rising pages n (suc frame)))

pub length-last_refs : (pages : ℕ → Page) (n frame : ℕ) → length (last_refs pages n frame) ≤ n
unfolding last_refs
length-last_refs pages zero frame = omega arith
length-last_refs pages (suc n) frame = ground (arith, length-last_refs pages n (suc frame))

abbrev pub Last : (ℕ → Page) → ℕ → ℕ → ℕ → Type 0
Last pages base n x = Among base n x × ((pages x).refcount ≡ 1)

pub last_refs_lem :
    (pages : ℕ → Page) (n frame x : ℕ)
    → (has x (last_refs pages n frame) ≡ true) ↔ Last pages frame n x
unfolding last_refs has
last_refs_lem pages zero frame x =
    (λ h. absurd (ground (arith, h)), λ l. absurd (omega (arith, l.0.0, l.0.1)))
last_refs_lem pages (suc n) frame x =
    let next = last_refs_lem pages n (suc frame) x in
    if_intro (λ l. (has x l ≡ true) ↔ Last pages frame (suc n) x) ((pages frame).refcount == 1)
      (frame ∷ last_refs pages n (suc frame)) (last_refs pages n (suc frame))
      (λ e. (
        λ h. elim ((has_cons x frame (last_refs pages n (suc frame))).0 h) [
          | inl here ↦ (
            (omega arith, omega arith),
            ap (λ k. (pages k).refcount) here ∙ (==_iff (pages frame).refcount 1).0 e,
          )
          | inr t ↦ let ((a, b), one) = next.0 t in ((omega arith, omega arith), one)
        ],
        λ ((a, b), one).
            (has_cons x frame (last_refs pages n (suc frame))).1 (elim (ℕ_discrete x frame) [
              | yes here ↦ inl here
              | no ne ↦ inr (next.1 ((omega arith, omega arith), one))
            ]),
      ))
      (λ e. (
        λ h. let ((a, b), one) = next.0 h in ((omega arith, omega arith), one),
        λ ((a, b), one). elim (ℕ_discrete x frame) [
          | yes here ↦
              let same = ap (λ k. (pages k).refcount) here in absurd (ground (arith, e, same, one))
          | no ne ↦ next.1 ((omega arith, omega arith), one)
        ],
      ))

drop_one_lem :
    (pfa : Pfa) (frame : ℕ) (frames : List ℕ)
    → frame < pfa.total_frames
    → 0 < (pfa.pages frame).refcount
    → length frames < 1024
    → drop_one pfa frame frames
      ≡ some (
        if (pfa.pages frame).refcount == 1 then frames ++ frame ∷ [] else frames,
        on_page pfa frame one_less,
      )
unfolding drop_one
drop_one_lem pfa frame frames inside counted room =
    if_false (leb pfa.total_frames frame) _ _ (ground (arith, inside))
    ∙ if_false ((pfa.pages frame).refcount == 0) _ _ (ground (arith, counted))
    ∙ elim (Bool-cases ((pfa.pages frame).refcount == 1)) [
      | inl e ↦ rw e (if_false (length frames == 1024) _ _ (ground (arith, room)))
      | inr e ↦ rw e refl
    ]

regrouped :
    (old same frame : ℕ) (frames rest : List ℕ)
    → old ≡ same
    → (if old == 1 then frames ++ frame ∷ [] else frames) ++ rest
      ≡ frames ++ (if same == 1 then frame ∷ rest else rest)
regrouped old same frame frames rest e = elim (Bool-cases (same == 1)) [
  | inl t ↦ rw (e, t) (append_assoc frames (frame ∷ []) rest)
  | inr n ↦ rw (e, n) refl
]

-- The loop collects the frames with one reference and drops one of each.
pub drop_refs_lem :
    (n : ℕ) (pfa : Pfa) (phys i frame : ℕ) (frames : List ℕ) (pages : ℕ → Page)
    → ((k : ℕ) → k < n → phys_to_frame pfa (add32 phys (mul32 (i + k) page_frame_size)) ≡ frame + k)
    → ((x : ℕ) → Among frame n x → pfa.pages x ≡ pages x)
    → ((x : ℕ) → Among frame n x → 0 < (pages x).refcount)
    → frame + n ≤ pfa.total_frames
    → length frames + n ≤ 1024
    → drop_refs n pfa phys i frames
      ≡ some (frames ++ last_refs pages n frame, on_frames one_less n pfa frame)
unfolding drop_refs last_refs for_frames phys_to_frame
drop_refs_lem zero pfa phys i frame frames pages at same counted inside room =
    ap (λ l. some (l, pfa)) (sym (append-nil frames))
drop_refs_lem (suc n) pfa phys i frame frames pages at same counted inside room =
    let p = on_page pfa frame one_less in
    let at_frame = λ (j : ℕ). phys_to_frame pfa (add32 phys (mul32 j page_frame_size)) in
    let here = same frame (omega arith, omega arith) in
    let start : i ≡ i + 0 = omega arith in
    let first : at_frame i ≡ frame = ap at_frame start ∙ at 0 (omega arith) ∙ omega arith in
    let held : 0 < (pfa.pages frame).refcount =
      omega (arith, counted frame (omega arith, omega arith), ap (λ pg. pg.refcount) here) in
    let one =
      ap (λ f. drop_one pfa f frames) first
      ∙ drop_one_lem pfa frame frames (omega arith) held (omega arith) in
    let more : List ℕ = if (pfa.pages frame).refcount == 1 then frames ++ frame ∷ [] else frames in
    let longer : length more + n ≤ 1024 =
      if_intro (λ l. length l + n ≤ 1024) ((pfa.pages frame).refcount == 1) (frames ++ frame ∷ [])
        frames (λ e. omega (arith, length-append frames (frame ∷ []))) (λ e. omega arith) in
    rw one (
      drop_refs_lem n p phys (suc i) (suc frame) more pages
        (λ k h.
          let next : suc i + k ≡ i + suc k = omega arith in
          ap at_frame next ∙ at (suc k) (omega arith) ∙ omega arith)
        (λ x (a, b).
          if_false (x == frame) _ _ (ground (arith, a)) ∙ same x (omega arith, omega arith))
        (λ x (a, b). counted x (omega arith, omega arith)) (omega arith) longer
      ∙ ap (λ l. some (l, on_frames one_less n p (suc frame)))
          (regrouped (pfa.pages frame).refcount (pages frame).refcount frame frames
            (last_refs pages n (suc frame)) (ap (λ pg. pg.refcount) here)))
