-- ===== src/Kernel/Frames/Cached/Drain.antt =====
-- `percpu_drain` moves frames from a cache to the free blocks.
use johnbeauty_os.Prelude.{
  ℕ, zero, suc, ◌+◌, ◌≤◌, ◌<◌, ◌≡◌, ◌≢◌, ◌∙◌, refl, sym, ap, true, List, [], ◌∷◌, some, arith, inl,
  inr, ◌↔◌, ◌==◌, if_true, if_false, length, ℕ_discrete,
}
use johnbeauty_os.Prelude.Members.{has}
use johnbeauty_os.Prelude.Align.{Aligned-0}
use johnbeauty_os.Kernel.Frames.{Pfa, put_at, buddy_free_nolock}
use johnbeauty_os.Kernel.Frames.Blocks.{FreeAt, IsLoose}
use johnbeauty_os.Kernel.Frames.Merge.{Freed, buddy_free_nolock-Freed}
use johnbeauty_os.Kernel.Frames.Cached.{cache_of, pop_cached, drain_from}
use johnbeauty_os.Kernel.Frames.Cached.Spare.{
  Spare, cache, IsFrames, popped, beside-FreeAt, beside-IsPfa, popped_before, popped_after,
  pop-IsFrames,
}
use johnbeauty_os.Kernel.Frames.Cached.Refill.{Shifted, not-Shifted, shift_again}

module _ (pfa : Pfa) (cpu frame : ℕ) (rest : List ℕ) (w : IsFrames pfa)
    (front : cache pfa cpu ≡ frame ∷ rest) (short : length (cache pfa cpu) ≤ 17) where
  abbrev without_first : Pfa
  without_first = cache_of pfa cpu (popped rest (pfa.percpu cpu))

  here : has frame (cache pfa cpu) ≡ true
  unfolding has
  here = ap (has frame) front ∙ ground arith

  is_Spare : Spare pfa frame
  is_Spare = w.spare cpu frame here

  same_blocks : (x : ℕ) → FreeAt without_first x ↔ FreeAt pfa x
  same_blocks =
      beside-FreeAt pfa pfa.free_frames (put_at pfa.percpu cpu (popped rest (pfa.percpu cpu)))

  first-IsLoose : IsLoose without_first frame 0
  first-IsLoose = record {
    small = omega arith;
    aligned = Aligned-0 frame;
    fits = omega (arith, is_Spare.inside);
    loose = λ x a b.
        let same : x ≡ frame = omega arith in rw same (is_Spare.no_order, is_Spare.unoccupied);
    apart = λ x a b u.
        let same : x ≡ frame = omega arith in is_Spare.not_free (rw same at ((same_blocks x).0 u));
  }

  module _ (q : Pfa) (f : Freed without_first frame 0 q) where
    other-Spare : (c g : ℕ) → has g (cache pfa c) ≡ true → g ≢ frame → Spare q g
    other-Spare c g t ne =
        let z = w.spare c g t in
        let out : FreeAt q g → ⊥ = λ u. elim ((f.free g).0 u) [
          | inl old ↦ z.not_free ((same_blocks g).0 old)
          | inr (a, b) ↦ ne (omega arith)
        ] in
        record {
          inside = omega (arith, z.inside, f.total);
          no_order = f.orders g out ∙ z.no_order;
          unoccupied = f.occupied g ∙ z.unoccupied;
          not_free = out;
        }

    drained-Shifted : Shifted pfa cpu q
    drained-Shifted = record {
      frames = pop-IsFrames pfa q cpu frame rest w f.valid front f.same_percpu other-Spare short;
      avail = λ x. (
        λ u. elim u [
          | inl t ↦ elim ((f.free x).0 t) [
            | inl old ↦ inl ((same_blocks x).0 old)
            | inr (a, b) ↦ inr (cpu, let same : x ≡ frame = omega arith in rw same here)
          ]
          | inr (c, t) ↦ inr (
            c,
            (popped_before pfa q cpu frame rest w f.valid front f.same_percpu other-Spare c x t).0,
          )
        ],
        λ u. elim u [
          | inl t ↦ inl ((f.free x).1 (inl ((same_blocks x).1 t)))
          | inr (c, t) ↦ elim (ℕ_discrete x frame) [
            | yes e ↦ inl ((f.free x).1 (inr (omega arith, omega arith)))
            | no ne ↦ inr (
              c,
              popped_after pfa q cpu frame rest w f.valid front f.same_percpu other-Spare c x t ne,
            )
          ]
        ],
      );
      others = λ c ne. ap (λ P. P c) f.same_percpu ∙ if_false (c == cpu) _ _ (ground (arith, ne));
      occupied = f.occupied;
      total = f.total;
      start = f.start;
    }

    drained_length : suc (length (cache q cpu)) ≡ length (cache pfa cpu)
    drained_length =
        ap (λ P. suc (length (P cpu).free_list)) f.same_percpu
        ∙ ap (λ pc. suc (length pc.free_list))
            (if_true (cpu == cpu) (popped rest (pfa.percpu cpu)) (pfa.percpu cpu) (ground arith))
        ∙ sym (ap length front)

filled : (fs : List ℕ) → 0 < length fs → (f : ℕ) × (rest : List ℕ) × (fs ≡ f ∷ rest)
filled [] h = absurd (omega arith)
filled (f ∷ fs) h = (f, fs, refl)

drain_round :
    (n : ℕ) (pfa q p : Pfa) (cpu frame : ℕ) (rest : List ℕ)
    → cache pfa cpu ≡ frame ∷ rest
    → buddy_free_nolock (cache_of pfa cpu (popped rest (pfa.percpu cpu))) frame 0 ≡ some q
    → drain_from n q cpu ≡ some p
    → drain_from (suc n) pfa cpu ≡ some p
unfolding drain_from pop_cached
drain_round n pfa q p cpu frame rest front run more = rw (front, run) more

-- The frames of a cache go to the free blocks one by one.
pub drain_from-Shifted :
    (n : ℕ) (pfa : Pfa) (cpu : ℕ)
    → IsFrames pfa
    → n ≤ length (cache pfa cpu)
    → length (cache pfa cpu) ≤ 17
    → (p : Pfa) × (drain_from n pfa cpu ≡ some p)
      × Shifted pfa cpu p
      × (length (cache p cpu) + n ≡ length (cache pfa cpu))
unfolding drain_from pop_cached
drain_from-Shifted zero pfa cpu w le short = (pfa, refl, not-Shifted pfa cpu w, omega arith)
drain_from-Shifted (suc n) pfa cpu w le short =
    let (frame, rest, front) = filled (cache pfa cpu) (omega arith) in
    let p = without_first pfa cpu frame rest w front short in
    let (q, run, f, count) =
      buddy_free_nolock-Freed p frame 0
        (beside-IsPfa pfa pfa.free_frames (put_at pfa.percpu cpu (popped rest (pfa.percpu cpu)))
          w.valid)
        (first-IsLoose pfa cpu frame rest w front short) in
    let g = drained-Shifted pfa cpu frame rest w front short q f in
    let less = drained_length pfa cpu frame rest w front short q f in
    let (p', more, h, left) = drain_from-Shifted n q cpu g.frames (omega arith) (omega arith) in
    (
      p',
      drain_round n pfa q p' cpu frame rest front run more,
      shift_again pfa q p' cpu g h,
      omega arith,
    )
