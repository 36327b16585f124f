-- ===== src/Kernel/Frames/Setup/Inserted.antt =====
-- The frames that the set-up puts in the lists, one by one.
use johnbeauty_os.Prelude.{
  ℕ, zero, suc, ◌+◌, ◌≤◌, ◌<◌, ◌≡◌, ◌∙◌, refl, sym, ap, true, false, some, arith, Bool-cases, inl,
  inr, ◌↔◌, ◌⊎◌, ℕ_discrete,
}
use johnbeauty_os.Prelude.Align.{Aligned-0}
use johnbeauty_os.Kernel.Frames.{Pfa, invalid, linked}
use johnbeauty_os.Kernel.Frames.Blocks.{FreeAt, IsPfa, IsLoose}
use johnbeauty_os.Kernel.Frames.Steps.{insert_lem}
use johnbeauty_os.Kernel.Frames.Merge.{Freed, linked-Freed}
use johnbeauty_os.Kernel.Frames.Ranges.Changed.{Among}
use johnbeauty_os.Kernel.Frames.Bulk.Freed.{occupied-not_free}
use johnbeauty_os.Kernel.Frames.Setup.{insert_frames}
use johnbeauty_os.Kernel.Frames.Setup.Paired.{IsTidy}

-- Of these frames, those not in use are free now.
pub record Inserted (pfa : Pfa) (frame n : ℕ) (p : Pfa) : Type 0 where
  pub valid : IsPfa p
  pub tidy : IsTidy p
  pub free :
      (x : ℕ) → FreeAt p x ↔ (FreeAt pfa x ⊎ (Among frame n x × ((pfa.pages x).occupied ≡ false)))
  pub occupied : (x : ℕ) → (p.pages x).occupied ≡ (pfa.pages x).occupied
  pub total : p.total_frames ≡ pfa.total_frames

-- The pages from a frame on are in no block.
pub record IsUnset (pfa : Pfa) (frame : ℕ) : Type 0 where
  pub no_order : (x : ℕ) → frame ≤ x → (pfa.pages x).order ≡ invalid
  pub not_free : (x : ℕ) → frame ≤ x → FreeAt pfa x → ⊥

module _ (pfa : Pfa) (frame : ℕ) (v : IsPfa pfa) (t : IsTidy pfa) (u : IsUnset pfa frame)
    (inside : frame < pfa.total_frames) (unused : (pfa.pages frame).occupied ≡ false) where
  frame-IsLoose : IsLoose pfa frame 0
  frame-IsLoose = record {
    small = omega arith;
    aligned = Aligned-0 frame;
    fits = omega arith;
    loose = λ x a b.
        let same : x ≡ frame = omega arith in
        (u.no_order x a, ap (λ k. (pfa.pages k).occupied) same ∙ unused);
    apart = λ x a b w. u.not_free x a w;
  }

  frame-Freed : Freed pfa frame 0 (linked pfa frame 0)
  frame-Freed = linked-Freed pfa frame 0 v frame-IsLoose

  frame-IsTidy : IsTidy (linked pfa frame 0)
  frame-IsTidy x e =
      frame-Freed.orders x (occupied-not_free (linked pfa frame 0) x frame-Freed.valid e)
      ∙ t x (sym (frame-Freed.occupied x) ∙ e)

  frame-IsUnset : IsUnset (linked pfa frame 0) (suc frame)
  frame-IsUnset =
      let away : (x : ℕ) → suc frame ≤ x → FreeAt (linked pfa frame 0) x → ⊥ = λ x le w.
        elim ((frame-Freed.free x).0 w) [
          | inl old ↦ u.not_free x (omega arith) old
          | inr (a, b) ↦ absurd (omega arith)
        ] in
      record {
        no_order = λ x le. frame-Freed.orders x (away x le) ∙ u.no_order x (omega arith);
        not_free = away;
      }

  frame-Inserted :
      (n : ℕ) (p : Pfa)
      → Inserted (linked pfa frame 0) (suc frame) n p
      → Inserted pfa frame (suc n) p
  frame-Inserted n p i = record {
    valid = i.valid;
    tidy = i.tidy;
    free = λ x. (
      λ w. elim ((i.free x).0 w) [
        | inl s ↦ elim ((frame-Freed.free x).0 s) [
          | inl old ↦ inl old
          | inr (a, b) ↦
              let same : x ≡ frame = omega arith in
              inr ((omega arith, omega arith), ap (λ k. (pfa.pages k).occupied) same ∙ unused)
        ]
        | inr ((a, b), e) ↦ inr ((omega arith, omega arith), sym (frame-Freed.occupied x) ∙ e)
      ],
      λ w. (i.free x).1 (elim w [
        | inl old ↦ inl ((frame-Freed.free x).1 (inl old))
        | inr ((a, b), e) ↦ elim (ℕ_discrete x frame) [
          | yes same ↦ inl ((frame-Freed.free x).1 (inr (a, omega arith)))
          | no ne ↦ inr ((omega arith, omega arith), frame-Freed.occupied x ∙ e)
        ]
      ]),
    );
    occupied = λ x. i.occupied x ∙ frame-Freed.occupied x;
    total = i.total ∙ frame-Freed.total;
  }

skipped-Inserted :
    (pfa : Pfa) (frame n : ℕ) (p : Pfa)
    → (pfa.pages frame).occupied ≡ true
    → Inserted pfa (suc frame) n p
    → Inserted pfa frame (suc n) p
skipped-Inserted pfa frame n p used i = record {
  valid = i.valid;
  tidy = i.tidy;
  free = λ x. (
    λ w. elim ((i.free x).0 w) [
      | inl old ↦ inl old
      | inr ((a, b), e) ↦ inr ((omega arith, omega arith), e)
    ],
    λ w. (i.free x).1 (elim w [
      | inl old ↦ inl old
      | inr ((a, b), e) ↦ elim (ℕ_discrete x frame) [
        | yes same ↦ absurd (ground (arith, ap (λ k. (pfa.pages k).occupied) same, e, used))
        | no ne ↦ inr ((omega arith, omega arith), e)
      ]
    ]),
  );
  occupied = i.occupied;
  total = i.total;
}

-- The loop over the frames.
pub insert_frames-Inserted :
    (n : ℕ) (pfa : Pfa) (frame : ℕ)
    → IsPfa pfa
    → IsTidy pfa
    → IsUnset pfa frame
    → frame + n ≤ pfa.total_frames
    → (p : Pfa) × (insert_frames n pfa frame ≡ some p) × Inserted pfa frame n p
unfolding insert_frames
insert_frames-Inserted zero pfa frame v t u fits = (
  pfa,
  refl,
  record {
    valid = v;
    tidy = t;
    free =
        λ x. (λ w. inl w, λ w. elim w [ inl old ↦ old | inr ((a, b), e) ↦ absurd (omega arith) ]);
    occupied = λ x. refl;
    total = refl;
  },
)
insert_frames-Inserted (suc n) pfa frame v t u fits = elim (Bool-cases (pfa.pages frame).occupied) [
  | inl used ↦
      let next : IsUnset pfa (suc frame) = record {
        no_order = λ x le. u.no_order x (omega arith);
        not_free = λ x le. u.not_free x (omega arith);
      } in
      let (p, run, i) = insert_frames-Inserted n pfa (suc frame) v t next (omega arith) in
      (p, rw used run, skipped-Inserted pfa frame n p used i)
  | inr unused ↦
      let inside : frame < pfa.total_frames = omega arith in
      let f = frame-Freed pfa frame v t u inside unused in
      let (p, run, i) =
        insert_frames-Inserted n (linked pfa frame 0) (suc frame) f.valid
          (frame-IsTidy pfa frame v t u inside unused) (frame-IsUnset pfa frame v t u inside unused)
          (omega (arith, fits, f.total)) in
      (
        p,
        rw
            (
              unused,
              u.no_order frame (omega arith),
              insert_lem pfa frame 0 v (frame-IsLoose pfa frame v t u inside unused),
            )
            run,
        frame-Inserted pfa frame v t u inside unused n p i,
      )
]
