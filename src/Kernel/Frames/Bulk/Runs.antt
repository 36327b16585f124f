-- ===== src/Kernel/Frames/Bulk/Runs.antt =====
-- Frames in ascending order, given back run by run.
use mathlib.Core.Path.{subst}
use johnbeauty_os.Prelude.{
  ℕ, suc, ◌+◌, ◌%◌, ◌^◌, ◌≤◌, ◌<◌, ◌≡◌, ◌∙◌, refl, true, some, List, [], ◌∷◌, arith, Bool-cases,
  inl, inr, ◌↔◌, ◌⊎◌, ◌==◌, ltb, length, if_true, if_false, dec_lt, ==_iff,
}
use johnbeauty_os.Prelude.Members.{has}
use johnbeauty_os.Kernel.Frames.{Pfa}
use johnbeauty_os.Kernel.Frames.Blocks.{FreeAt, IsPfa}
use johnbeauty_os.Kernel.Frames.Ranges.Changed.{Among}
use johnbeauty_os.Kernel.Frames.Ranges.Given.{Given}
use johnbeauty_os.Kernel.Frames.Ranges.Back.{buddy_free_range-Given}
use johnbeauty_os.Kernel.Frames.Bulk.{free_runs, shift_up, shift_all, in_array, sort_frames}

-- Each is above the one before it, and the first at least `low`.
unfoldable pub Rising : ℕ → List ℕ → Type 0
Rising low [] = Unit
Rising low (x ∷ xs) = (low ≤ x) × Rising (suc x) xs

pub Rising-has : (low x : ℕ) (xs : List ℕ) → Rising low xs → has x xs ≡ true → low ≤ x
unfolding Rising has
Rising-has low x [] r h = absurd (ground (arith, h))
Rising-has low x (y ∷ xs) (le, r) h = elim (Bool-cases (x == y)) [
  | inl e ↦ ground (arith, e, le)
  | inr e ↦ omega (arith, le, Rising-has (suc y) x xs r (ground (arith, e, h)))
]

-- The last of the elements that are in their places.
abbrev Top : ℕ → List ℕ → Type 0
Top low [] = Unit
Top low (y ∷ left) = y < low

-- The sort has nothing to move.
nothing_to_sort :
    (low : ℕ) (left xs : List ℕ)
    → Top low left
    → Rising low xs
    → in_array (shift_all left xs) [] ≡ in_array left xs
unfolding shift_all in_array shift_up Rising
nothing_to_sort low left [] t r = refl
nothing_to_sort low [] (x ∷ xs) t (le, r) = nothing_to_sort (suc x) (x ∷ []) xs (omega arith) r
nothing_to_sort low (y ∷ left) (x ∷ xs) t (le, r) =
    rw (if_false (ltb x y) (y ∷ shift_up left x) (x ∷ y ∷ left) (ground (arith, t, le)))
      (nothing_to_sort (suc x) (x ∷ y ∷ left) xs (omega arith) r)

pub sort_frames-Rising : (low : ℕ) (xs : List ℕ) → Rising low xs → sort_frames xs ≡ xs
unfolding sort_frames in_array
sort_frames-Rising low xs r = nothing_to_sort low [] xs tt r

-- What giving back these frames leaves: they are free and no others are that were not.
pub record Back (pfa : Pfa) (S : ℕ → Type 0) (number : ℕ) (p : Pfa) : Type 0 where
  pub valid : IsPfa p
  pub free : (x : ℕ) → FreeAt p x ↔ (FreeAt pfa x ⊎ S x)
  pub occupied : (x : ℕ) → (S x → ⊥) → (p.pages x).occupied ≡ (pfa.pages x).occupied
  pub refcount : (x : ℕ) → (p.pages x).refcount ≡ (pfa.pages x).refcount
  pub total : p.total_frames ≡ pfa.total_frames
  pub start : p.start_addr ≡ pfa.start_addr
  pub counter : p.free_frames % 2 ^ 32 ≡ (pfa.free_frames + number) % 2 ^ 32

abbrev pub InRuns : ℕ → ℕ → List ℕ → ℕ → Type 0
InRuns start len frames x = Among start len x ⊎ (has x frames ≡ true)

pub Back-iff :
    (pfa : Pfa) (S T : ℕ → Type 0) (m n : ℕ) (p : Pfa)
    → ((x : ℕ) → S x ↔ T x)
    → m ≡ n
    → Back pfa S m p
    → Back pfa T n p
Back-iff pfa S T m n p same e b = record {
  valid = b.valid;
  free = λ x. (
    λ w. elim ((b.free x).0 w) [ inl u ↦ inl u | inr i ↦ inr ((same x).0 i) ],
    λ w. (b.free x).1 (elim w [ inl u ↦ inl u | inr i ↦ inr ((same x).1 i) ]),
  );
  occupied = λ x out. b.occupied x (λ i. out ((same x).0 i));
  refcount = b.refcount;
  total = b.total;
  start = b.start;
  counter = omega (arith, b.counter, e);
}

-- A range given back, and more after it.
Given-Back :
    (pfa q p : Pfa) (base len n : ℕ) (T : ℕ → Type 0)
    → Given pfa base len q
    → Back q T n p
    → Back pfa (λ x. Among base len x ⊎ T x) (len + n) p
Given-Back pfa q p base len n T g b = record {
  valid = b.valid;
  free = λ x. (
    λ w. elim ((b.free x).0 w) [
      | inl u ↦ elim ((g.free x).0 u) [ inl t ↦ inl t | inr i ↦ inr (inl i) ]
      | inr i ↦ inr (inr i)
    ],
    λ w. (b.free x).1 (elim w [
      | inl u ↦ inl ((g.free x).1 (inl u))
      | inr s ↦ elim s [ inl i ↦ inl ((g.free x).1 (inr i)) | inr i ↦ inr i ]
    ]),
  );
  occupied = λ x out. b.occupied x (λ i. out (inr i)) ∙ g.occupied x (λ i. out (inl i));
  refcount = λ x. b.refcount x ∙ g.refcount x;
  total = b.total ∙ g.total;
  start = b.start ∙ g.start;
  counter = omega (arith, b.counter, g.counter);
}

pub has_cons :
    (x f : ℕ) (frames : List ℕ) → (has x (f ∷ frames) ≡ true) ↔ ((x ≡ f) ⊎ (has x frames ≡ true))
unfolding has
has_cons x f frames = (
  λ h. elim (Bool-cases (x == f)) [
    | inl e ↦ inl ((==_iff x f).0 e)
    | inr e ↦ inr (ground (arith, e, h))
  ],
  λ s. elim s [ inl e ↦ ground (arith, e) | inr h ↦ ground (arith, h) ],
)

-- The run goes on with the next frame.
longer_InRuns :
    (start len f x : ℕ) (frames : List ℕ)
    → f ≡ start + len
    → InRuns start (len + 1) frames x ↔ InRuns start len (f ∷ frames) x
longer_InRuns start len f x frames e = (
  λ s. elim s [
    | inl (a, b) ↦ elim (dec_lt x (start + len)) [
      | yes lt ↦ inl (a, lt)
      | no ge ↦ inr ((has_cons x f frames).1 (inl (omega arith)))
    ]
    | inr h ↦ inr ((has_cons x f frames).1 (inr h))
  ],
  λ s. elim s [
    | inl (a, b) ↦ inl (a, omega arith)
    | inr h ↦ elim ((has_cons x f frames).0 h) [
      | inl q ↦ inl (omega arith, omega arith)
      | inr t ↦ inr t
    ]
  ],
)

-- The next frame begins a run.
apart_InRuns :
    (start len f x : ℕ) (frames : List ℕ)
    → (Among start len x ⊎ InRuns f 1 frames x) ↔ InRuns start len (f ∷ frames) x
apart_InRuns start len f x frames = (
  λ s. elim s [
    | inl i ↦ inl i
    | inr t ↦
        inr ((has_cons x f frames).1 (elim t [ inl (a, b) ↦ inl (omega arith) | inr h ↦ inr h ]))
  ],
  λ s. elim s [
    | inl i ↦ inl i
    | inr h ↦ elim ((has_cons x f frames).0 h) [
      | inl e ↦ inr (inl (omega arith, omega arith))
      | inr t ↦ inr (inr t)
    ]
  ],
)

-- The frames of a run and those that follow it, up to 1024 and none of them free, become free.
pub free_runs-Back :
    (frames : List ℕ) (pfa : Pfa) (start len : ℕ)
    → IsPfa pfa
    → len + length frames ≤ 1024
    → start + len ≤ pfa.total_frames
    → Rising (start + len) frames
    → ((x : ℕ) → InRuns start len frames x → x < pfa.total_frames)
    → ((x : ℕ) → InRuns start len frames x → FreeAt pfa x → ⊥)
    → (p : Pfa) × (free_runs pfa start len frames ≡ some p)
      × Back pfa (InRuns start len frames) (len + length frames) p
unfolding free_runs has Rising
free_runs-Back [] pfa start len v few fits r inside taken =
    let (p, run, g) =
      buddy_free_range-Given pfa start len (omega (arith, few)) v fits (λ x i. taken x (inl i)) in
    (
      p,
      run,
      record {
        valid = g.valid;
        free = λ x. (
          λ w. elim ((g.free x).0 w) [ inl u ↦ inl u | inr i ↦ inr (inl i) ],
          λ w. (g.free x).1 (elim w [
            | inl u ↦ inl u
            | inr i ↦ elim i [ inl a ↦ inr a | inr h ↦ absurd (ground (arith, h)) ]
          ]),
        );
        occupied = λ x out. g.occupied x (λ i. out (inl i));
        refcount = g.refcount;
        total = g.total;
        start = g.start;
        counter = omega (arith, g.counter);
      },
    )
free_runs-Back (f ∷ frames) pfa start len v few fits (le, r) inside taken =
    elim (Bool-cases (f == start + len)) [
      | inl e ↦
          let here : f ≡ start + len = (==_iff f (start + len)).0 e in
          let same = λ (x : ℕ). longer_InRuns start len f x frames here in
          let (p, run, b) =
            free_runs-Back frames pfa start (len + 1) v (omega (arith, few))
              (omega (arith, inside f (inr ((has_cons f f frames).1 (inl refl)))))
              (subst (λ k. Rising k frames) (omega (arith, here)) r)
              (λ x i. inside x ((same x).0 i)) (λ x i. taken x ((same x).0 i)) in
          (
            p,
            if_true (f == start + len) _ _ e ∙ run,
            Back-iff pfa (InRuns start (len + 1) frames) (InRuns start len (f ∷ frames))
                (len + 1 + length frames) (len + suc (length frames)) p same (omega arith) b,
          )
      | inr e ↦
          let later : start + len < f = ground (arith, e, le) in
          let same = λ (x : ℕ). apart_InRuns start len f x frames in
          let (q, freed, g) =
            buddy_free_range-Given pfa start len (omega (arith, few)) v fits
              (λ x i. taken x (inl i)) in
          let (p, run, b) =
            free_runs-Back frames q f 1 g.valid (omega (arith, few))
              (omega (arith, g.total, inside f (inr ((has_cons f f frames).1 (inl refl)))))
              (subst (λ k. Rising k frames) (omega arith) r)
              (λ x i. omega (arith, g.total, inside x ((same x).0 (inr i))))
              (λ x i w. elim ((g.free x).0 w) [
                | inl u ↦ taken x ((same x).0 (inr i)) u
                | inr (a, b) ↦ elim i [
                  | inl (c, d) ↦ absurd (omega arith)
                  | inr h ↦ absurd (omega (arith, Rising-has (suc f) x frames r h))
                ]
              ]) in
          (
            p,
            if_false (f == start + len) _ _ e ∙ rw freed run,
            Back-iff pfa (λ x. Among start len x ⊎ InRuns f 1 frames x)
                (InRuns start len (f ∷ frames)) (len + (1 + length frames))
                (len + suc (length frames)) p same (omega arith)
                (Given-Back pfa q p start len (1 + length frames) (InRuns f 1 frames) g b),
          )
    ]
