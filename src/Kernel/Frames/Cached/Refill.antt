-- ===== src/Kernel/Frames/Cached/Refill.antt =====
-- `percpu_refill` moves frames from the free blocks to a cache.
use johnbeauty_os.Prelude.{
  ℕ, zero, suc, ◌≤◌, ◌≡◌, ◌≢◌, ◌∙◌, refl, ap, true, some, arith, Bool-cases, inl, inr, ◌↔◌, ◌==◌,
  ltb, if_true, if_false, ==_iff, length,
}
use johnbeauty_os.Dsa.Bitmap.{trailing_zeros}
use johnbeauty_os.Kernel.Frames.{Pfa, unlinked}
use johnbeauty_os.Kernel.Frames.Blocks.{FreeAt}
use johnbeauty_os.Kernel.Frames.Unlinked.{unlinked-IsPfa, unlinked-IsLoose}
use johnbeauty_os.Kernel.Frames.Steps.{remove_lem}
use johnbeauty_os.Kernel.Frames.Split.{split-Halved}
use johnbeauty_os.Kernel.Frames.Ranges.Orders.{found_any, nothing_free}
use johnbeauty_os.Kernel.Frames.Cached.{pushed, into_cache, refill_one, refill_from, percpu_refill}
use johnbeauty_os.Kernel.Frames.Cached.Spare.{cache, IsFrames, Avail}
use johnbeauty_os.Kernel.Frames.Cached.Moved.{
  kept_caches, kept-IsFrames, kept-Avail, kept_occupied, kept_total,
}

-- What moving frames between a cache and the free blocks leaves: the same frames can be had, the other caches are as they were, and no page
-- became occupied or ceased to be.
pub record Shifted (pfa : Pfa) (cpu : ℕ) (p : Pfa) : Type 0 where
  pub frames : IsFrames p
  pub avail : (x : ℕ) → Avail p x ↔ Avail pfa x
  pub others : (c : ℕ) → c ≢ cpu → p.percpu c ≡ pfa.percpu c
  pub occupied : (x : ℕ) → (p.pages x).occupied ≡ (pfa.pages x).occupied
  pub total : p.total_frames ≡ pfa.total_frames
  pub start : p.start_addr ≡ pfa.start_addr

pub not-Shifted : (pfa : Pfa) (cpu : ℕ) → IsFrames pfa → Shifted pfa cpu pfa
not-Shifted pfa cpu w = record {
  frames = w;
  avail = λ x. (λ u. u, λ u. u);
  others = λ c ne. refl;
  occupied = λ x. refl;
  total = refl;
  start = refl;
}

pub shift_again :
    (pfa q p : Pfa) (cpu : ℕ) → Shifted pfa cpu q → Shifted q cpu p → Shifted pfa cpu p
shift_again pfa q p cpu f g = record {
  frames = g.frames;
  avail = λ x. (λ u. (f.avail x).0 ((g.avail x).0 u), λ u. (g.avail x).1 ((f.avail x).1 u));
  others = λ c ne. g.others c ne ∙ f.others c ne;
  occupied = λ x. g.occupied x ∙ f.occupied x;
  total = g.total ∙ f.total;
  start = g.start ∙ f.start;
}

-- One frame more, where there is a free block.
refill_one-Shifted :
    (pfa : Pfa) (cpu : ℕ)
    → IsFrames pfa
    → length (cache pfa cpu) ≤ 16
    → pfa.free_order_bitmap ≢ 0
    → (p : Pfa) × (refill_one pfa cpu ≡ some p)
      × Shifted pfa cpu p
      × (length (cache p cpu) ≡ suc (length (cache pfa cpu)))
unfolding refill_one
refill_one-Shifted pfa cpu w room ne =
    let o = trailing_zeros 32 pfa.free_order_bitmap in
    let (small, (frame, front, head)) = found_any pfa w.valid ne in
    let (q, halves, h) =
      split-Halved o (unlinked pfa frame o) frame o 0 (omega arith)
        (unlinked-IsPfa pfa frame o w.valid small head)
        (unlinked-IsLoose pfa frame o w.valid small head) in
    let caches = kept_caches pfa cpu frame o w small head room q h in
    (
      into_cache q cpu frame,
      rw (front, remove_lem pfa frame o w.valid small head, halves),
      record {
        frames = kept-IsFrames pfa cpu frame o w small head room q h;
        avail = kept-Avail pfa cpu frame o w small head room q h;
        others = λ c other. ap (λ P. P c) caches ∙ if_false (c == cpu) _ _ (ground (arith, other));
        occupied = kept_occupied pfa cpu frame o w small head room q h;
        total = (kept_total pfa cpu frame o w small head room q h).0;
        start = (kept_total pfa cpu frame o w small head room q h).1;
      },
      ap (λ P. length (P cpu).free_list) caches
          ∙ ap (λ pc. length pc.free_list)
              (if_true (cpu == cpu) (pushed frame (pfa.percpu cpu)) (pfa.percpu cpu)
                (ground arith)),
    )

refill_from-Shifted :
    (n : ℕ) (pfa : Pfa) (cpu : ℕ)
    → IsFrames pfa
    → length (cache pfa cpu) ≤ 8
    → (p : Pfa) × (refill_from n pfa cpu ≡ some p)
      × Shifted pfa cpu p
      × (length (cache pfa cpu) ≤ length (cache p cpu))
      × (length (cache p cpu) ≤ 8)
unfolding refill_from
refill_from-Shifted zero pfa cpu w room = (pfa, refl, not-Shifted pfa cpu w, omega arith, room)
refill_from-Shifted (suc n) pfa cpu w room = elim (Bool-cases (ltb (pfa.percpu cpu).count 8)) [
  | inr full ↦ (pfa, rw full, not-Shifted pfa cpu w, omega arith, room)
  | inl more ↦ elim (Bool-cases (pfa.free_order_bitmap == 0)) [
    | inl bare ↦ (pfa, rw (more, bare), not-Shifted pfa cpu w, omega arith, room)
    | inr blocks ↦
        let (q, run, f, longer) =
          refill_one-Shifted pfa cpu w (omega arith) (ground (arith, blocks)) in
        let (p, rest, g, grown, small) =
          refill_from-Shifted n q cpu f.frames (ground (arith, longer, more, w.counted cpu)) in
        (
          p,
          rw (more, blocks, run) rest,
          shift_again pfa q p cpu f g,
          omega (arith, grown, longer),
          small,
        )
  ]
]

-- The first round finds a frame where there is one.
first_round :
    (n : ℕ) (pfa : Pfa) (cpu : ℕ)
    → IsFrames pfa
    → length (cache pfa cpu) ≡ 0
    → (p : Pfa) × (refill_from (suc n) pfa cpu ≡ some p)
      × Shifted pfa cpu p
      × (length (cache p cpu) ≤ 8)
      × (length (cache p cpu) ≡ 0 → (p ≡ pfa) × ((x : ℕ) → FreeAt pfa x → ⊥))
unfolding refill_from
first_round n pfa cpu w bare =
    let more : ltb (pfa.percpu cpu).count 8 ≡ true = ground (arith, w.counted cpu, bare) in
    elim (Bool-cases (pfa.free_order_bitmap == 0)) [
      | inl gone ↦ (
        pfa,
        rw (more, gone),
        not-Shifted pfa cpu w,
        omega arith,
        λ e. (refl, nothing_free pfa w.valid ((==_iff _ 0).0 gone)),
      )
      | inr blocks ↦
          let (q, run, f, longer) =
            refill_one-Shifted pfa cpu w (omega arith) (ground (arith, blocks)) in
          let (p, rest, g, grown, small) = refill_from-Shifted n q cpu f.frames (omega arith) in
          (
            p,
            rw (more, blocks, run) rest,
            shift_again pfa q p cpu f g,
            small,
            λ e. absurd (omega arith),
          )
    ]

-- `percpu_refill` of a cache that is empty does not halt; the cache stays empty only where no frame is
-- free.
pub percpu_refill-Shifted :
    (pfa : Pfa) (cpu : ℕ)
    → IsFrames pfa
    → length (cache pfa cpu) ≡ 0
    → (p : Pfa) × (percpu_refill pfa cpu ≡ some p)
      × Shifted pfa cpu p
      × (length (cache p cpu) ≤ 8)
      × (length (cache p cpu) ≡ 0 → (p ≡ pfa) × ((x : ℕ) → FreeAt pfa x → ⊥))
unfolding percpu_refill
percpu_refill-Shifted pfa cpu w bare = first_round 7 pfa cpu w bare
