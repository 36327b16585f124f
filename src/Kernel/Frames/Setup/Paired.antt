-- ===== src/Kernel/Frames/Setup/Paired.antt =====
-- Two halves that are free become one block, at the set-up.
use Prim.Native.Nat.{bit_xor}
use native.Mathlib.Nat.{pow-suc}
use johnbeauty_os.Prelude.{
  ℕ, suc, ◌+◌, ◌%◌, ◌^◌, ◌≤◌, ◌<◌, ◌≡◌, ◌≢◌, ◌∙◌, refl, sym, true, some, arith, Bool-cases, inl,
  inr, ◌↔◌, ◌==◌, ltb, if_false,
}
use johnbeauty_os.Prelude.Align.{Aligned, bit_xor-first_half}
use johnbeauty_os.Prelude.Bits.{pow-pos}
use johnbeauty_os.Kernel.Frames.{Pfa, invalid, linked, unlinked, min_frame, buddy_mergeable}
use johnbeauty_os.Kernel.Frames.Blocks.{is_head, FreeAt, IsPfa, IsLoose}
use johnbeauty_os.Kernel.Frames.Unlinked.{
  unlinked-IsPfa, free_unlinked, unlinked-IsLoose, still_loose, occupied_unlinked,
}
use johnbeauty_os.Kernel.Frames.Steps.{
  In, dec_In, In_halves, insert_lem, remove_lem, unlinked_order, unlinked_fields,
}
use johnbeauty_os.Kernel.Frames.Merge.{Freed, linked-Freed}
use johnbeauty_os.Kernel.Frames.Bulk.Freed.{occupied-not_free}
use johnbeauty_os.Kernel.Frames.Setup.{pair_up}

-- A page that is in use heads no block.
abbrev pub IsTidy : Pfa → Type 0
IsTidy pfa = (x : ℕ) → (pfa.pages x).occupied ≡ true → (pfa.pages x).order ≡ invalid

-- The same frames are free.
pub record Alike (pfa p : Pfa) : Type 0 where
  pub valid : IsPfa p
  pub tidy : IsTidy p
  pub free : (x : ℕ) → FreeAt p x ↔ FreeAt pfa x
  pub occupied : (x : ℕ) → (p.pages x).occupied ≡ (pfa.pages x).occupied
  pub total : p.total_frames ≡ pfa.total_frames

module _ (pfa : Pfa) (frame order : ℕ) (v : IsPfa pfa) (t : IsTidy pfa) (small : order < 10)
    (al : Aligned frame (suc order)) (fits : frame + 2 ^ suc order ≤ pfa.total_frames)
    (le : order ≤ 10) (head : is_head pfa frame order ≡ true)
    (upper : is_head pfa (frame + 2 ^ order) order ≡ true) where
  abbrev without_upper : Pfa
  without_upper = unlinked pfa (frame + 2 ^ order) order

  upper-IsPfa : IsPfa without_upper
  upper-IsPfa = unlinked-IsPfa pfa (frame + 2 ^ order) order v le upper

  still_head : is_head without_upper frame order ≡ true
  still_head =
      let ne : frame ≢ frame + 2 ^ order = omega (arith, pow-pos order) in
      ground (
        arith,
        head,
        (unlinked_fields pfa (frame + 2 ^ order) order).0,
        unlinked_order pfa (frame + 2 ^ order) order frame ne,
        occupied_unlinked pfa (frame + 2 ^ order) order v le upper frame,
      )

  abbrev without_both : Pfa
  without_both = unlinked without_upper frame order

  both-IsPfa : IsPfa without_both
  both-IsPfa = unlinked-IsPfa without_upper frame order upper-IsPfa le still_head

  free_both : (x : ℕ) → FreeAt without_both x ↔ (FreeAt pfa x × (In frame (suc order) x → ⊥))
  free_both x =
      let first = free_unlinked pfa (frame + 2 ^ order) order v le upper x in
      let second = free_unlinked without_upper frame order upper-IsPfa le still_head x in
      let halves = In_halves frame (frame + 2 ^ order) order x refl in
      (
        λ w.
            let (u, a) = second.0 w in
            let (old, b) = first.0 u in (old, λ i. elim (halves.0 i) [ inl c ↦ b c | inr c ↦ a c ]),
        λ (w, out).
            second.1 (first.1 (w, λ c. out (halves.1 (inl c))), λ c. out (halves.1 (inr c))),
      )

  both-IsLoose : IsLoose without_both frame (suc order)
  both-IsLoose = record {
    small = omega arith;
    aligned = al;
    fits = omega (
      arith,
      fits,
      (unlinked_fields pfa (frame + 2 ^ order) order).0,
      (unlinked_fields without_upper frame order).0,
    );
    loose = λ x a b. elim ((In_halves frame (frame + 2 ^ order) order x refl).0 (a, b)) [
      | inl (c, d) ↦
          still_loose without_upper frame order upper-IsPfa le still_head x
            ((unlinked-IsLoose pfa (frame + 2 ^ order) order v le upper).loose x c d)
      | inr (c, d) ↦
          (unlinked-IsLoose without_upper frame order upper-IsPfa le still_head).loose x c d
    ];
    apart = λ x a b w. ((free_both x).0 w).1 (a, b);
  }

  abbrev whole : Pfa
  whole = linked without_both frame (suc order)

  whole-Freed : Freed without_both frame (suc order) whole
  whole-Freed = linked-Freed without_both frame (suc order) both-IsPfa both-IsLoose

  in_block-FreeAt : (x : ℕ) → In frame (suc order) x → FreeAt pfa x
  in_block-FreeAt x i = elim ((In_halves frame (frame + 2 ^ order) order x refl).0 i) [
    | inl (a, b) ↦ record {
      block = frame + 2 ^ order;
      order = order;
      small = le;
      head = upper;
      low = a;
      high = b;
    }
    | inr (a, b) ↦ record {
      block = frame;
      order = order;
      small = le;
      head = head;
      low = a;
      high = b;
    }
  ]

  whole-FreeAt : (x : ℕ) → FreeAt whole x ↔ FreeAt pfa x
  whole-FreeAt x = (
    λ w. elim ((whole-Freed.free x).0 w) [
      | inl u ↦ ((free_both x).0 u).0
      | inr i ↦ in_block-FreeAt x i
    ],
    λ w. (whole-Freed.free x).1 (elim (dec_In frame (suc order) x) [
      | yes i ↦ inr i
      | no out ↦ inl ((free_both x).1 (w, out))
    ]),
  )

  whole_occupied : (x : ℕ) → (whole.pages x).occupied ≡ (pfa.pages x).occupied
  whole_occupied x =
      whole-Freed.occupied x
      ∙ occupied_unlinked without_upper frame order upper-IsPfa le still_head x
      ∙ occupied_unlinked pfa (frame + 2 ^ order) order v le upper x

  -- A page in use is in no free block, so that its order is as it was.
  whole-IsTidy : IsTidy whole
  whole-IsTidy x e =
      let used : (pfa.pages x).occupied ≡ true = sym (whole_occupied x) ∙ e in
      let away : FreeAt pfa x → ⊥ = occupied-not_free pfa x v used in
      let first : x ≢ frame =
        λ q. away (in_block-FreeAt x (omega arith, omega (arith, pow-pos (suc order)))) in
      let second : x ≢ frame + 2 ^ order = λ q.
        away (in_block-FreeAt x (omega arith, omega (arith, pow-pos order, pow-suc 2 order))) in
      whole-Freed.orders x (λ w. away ((whole-FreeAt x).0 w))
      ∙ unlinked_order without_upper frame order x first
      ∙ unlinked_order pfa (frame + 2 ^ order) order x second
      ∙ t x used

  whole-Alike : Alike pfa whole
  whole-Alike = record {
    valid = whole-Freed.valid;
    tidy = whole-IsTidy;
    free = whole-FreeAt;
    occupied = whole_occupied;
    total =
        whole-Freed.total
        ∙ (unlinked_fields without_upper frame order).0
        ∙ (unlinked_fields pfa (frame + 2 ^ order) order).0;
  }

pub nothing-Alike : (pfa : Pfa) → IsPfa pfa → IsTidy pfa → Alike pfa pfa
nothing-Alike pfa v t = record {
  valid = v;
  tidy = t;
  free = λ x. (λ w. w, λ w. w);
  occupied = λ x. refl;
  total = refl;
}

own_head :
    (pfa : Pfa) (order frame : ℕ)
    → IsPfa pfa
    → IsTidy pfa
    → order < 10
    → frame + 2 ^ suc order ≤ pfa.total_frames
    → (pfa.pages frame).order == order % 2 ^ 8 ≡ true
    → is_head pfa frame order ≡ true
own_head pfa order frame v t small fits own = elim (Bool-cases (pfa.pages frame).occupied) [
  | inl e ↦ absurd (ground (arith, t frame e, own))
  | inr e ↦ ground (arith, e, own, pow-pos (suc order), fits)
]

upper_head :
    (pfa : Pfa) (order frame : ℕ)
    → Aligned frame (suc order)
    → buddy_mergeable pfa frame order ≡ true
    → is_head pfa (frame + 2 ^ order) order ≡ true
unfolding buddy_mergeable
upper_head pfa order frame al m =
    let here : is_head pfa (bit_xor frame (2 ^ order)) order ≡ true = ground (arith, m) in
    rw (bit_xor-first_half frame order al) at here

low_half : (frame order : ℕ) → min_frame (frame + 2 ^ order) frame ≡ frame
low_half frame order = if_false (ltb (frame + 2 ^ order) frame) _ _ (ground arith)

-- Two free halves that meet become one block; nothing else changes.
pub pair_up-Alike :
    (pfa : Pfa) (order frame : ℕ)
    → IsPfa pfa
    → IsTidy pfa
    → order < 10
    → Aligned frame (suc order)
    → frame + 2 ^ suc order ≤ pfa.total_frames
    → (p : Pfa) × (pair_up pfa order frame ≡ some p) × Alike pfa p
unfolding pair_up
pair_up-Alike pfa order frame v t small al fits =
    elim (Bool-cases ((pfa.pages frame).order == order % 2 ^ 8)) [
      | inr other ↦ (pfa, rw other refl, nothing-Alike pfa v t)
      | inl own ↦ elim (Bool-cases (buddy_mergeable pfa frame order)) [
        | inr apart ↦ (pfa, rw (own, apart) refl, nothing-Alike pfa v t)
        | inl m ↦
            let head = own_head pfa order frame v t small fits own in
            let upper = upper_head pfa order frame al m in
            let le : order ≤ 10 = omega arith in
            let b = frame + 2 ^ order in
            (
              whole pfa frame order v t small al fits le head upper,
              rw
                  (
                    own,
                    m,
                    bit_xor-first_half frame order al,
                    remove_lem pfa b order v le upper,
                    remove_lem (unlinked pfa b order) frame order
                        (upper-IsPfa pfa frame order v t small al fits le head upper) le
                        (still_head pfa frame order v t small al fits le head upper),
                    low_half frame order,
                  )
                  (insert_lem (without_both pfa frame order v t small al fits le head upper) frame
                    (suc order) (both-IsPfa pfa frame order v t small al fits le head upper)
                    (both-IsLoose pfa frame order v t small al fits le head upper)),
              whole-Alike pfa frame order v t small al fits le head upper,
            )
      ]
    ]
