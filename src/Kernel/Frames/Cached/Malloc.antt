-- ===== src/Kernel/Frames/Cached/Malloc.antt =====
-- `jlos_page_frame_malloc` hands out one frame that could be had.
use johnbeauty_os.Prelude.{
  ℕ, ◌≤◌, ◌≡◌, ◌≢◌, ◌∙◌, refl, ap, true, false, List, [], ◌∷◌, some, none, arith, inl, inr, ◌↔◌,
  ◌⊎◌, ◌==◌, ltb, if_intro, if_false, add32, mul32, length, ℕ_discrete,
}
use johnbeauty_os.Prelude.Members.{has}
use johnbeauty_os.Kernel.Frames.{Page, PerCpu, Pfa, put_at, on_page}
use johnbeauty_os.Kernel.Frames.Blocks.{FreeAt, IsPfa}
use johnbeauty_os.Kernel.Frames.Ranges.{frame_to_phys, page_frame_size}
use johnbeauty_os.Kernel.Frames.Cached.{cache_of, pop_cached, serve, malloc}
use johnbeauty_os.Kernel.Frames.Cached.Spare.{
  Spare, cache, IsFrames, Avail, popped, beside-FreeAt, beside-IsPfa, on_page-IsPfa, on_page-FreeAt,
  popped_before, popped_after, pop-IsFrames,
}
use johnbeauty_os.Kernel.Frames.Cached.Refill.{Shifted, percpu_refill-Shifted}

-- Between the calls no cache has more than `JLOS_PFA_PERCPU_HIGN` frames.
abbrev pub IsShort : Pfa → Type 0
IsShort pfa = (c : ℕ) → length (cache pfa c) ≤ 16

-- What a call that hands out a frame leaves.
pub record Served (pfa : Pfa) (frame : ℕ) (p : Pfa) : Type 0 where
  pub frames : IsFrames p
  pub short : IsShort p
  pub was_avail : Avail pfa frame
  pub avail : (x : ℕ) → Avail p x ↔ (Avail pfa x × (x ≢ frame))
  pub reserved : ((p.pages frame).occupied ≡ true) × ((p.pages frame).refcount ≡ 1)
  pub others : (x : ℕ) → x ≢ frame → (p.pages x).occupied ≡ (pfa.pages x).occupied

abbrev owned_page : Page → Page
owned_page pg = record pg { occupied = true; refcount = 1 }

module _ (pfa : Pfa) (cpu frame : ℕ) (rest : List ℕ) (w : IsFrames pfa) (s : IsShort pfa)
    (front : cache pfa cpu ≡ frame ∷ rest) where
  abbrev without_first : Pfa
  without_first = cache_of pfa cpu (popped rest (pfa.percpu cpu))

  abbrev owned : Pfa
  owned = on_page without_first frame owned_page

  here : has frame (cache pfa cpu) ≡ true
  unfolding has
  here = ap (has frame) front ∙ ground arith

  is_Spare : Spare pfa frame
  is_Spare = w.spare cpu frame here

  popped-FreeAt : (x : ℕ) → FreeAt without_first x ↔ FreeAt pfa x
  popped-FreeAt =
      beside-FreeAt pfa pfa.free_frames (put_at pfa.percpu cpu (popped rest (pfa.percpu cpu)))

  popped-IsPfa : IsPfa without_first
  popped-IsPfa =
      beside-IsPfa pfa pfa.free_frames (put_at pfa.percpu cpu (popped rest (pfa.percpu cpu)))
        w.valid

  not_in_block : FreeAt without_first frame → ⊥
  not_in_block u = is_Spare.not_free ((popped-FreeAt frame).0 u)

  owned-FreeAt : (x : ℕ) → FreeAt owned x ↔ FreeAt pfa x
  owned-FreeAt x =
      let a =
        on_page-FreeAt without_first frame owned_page popped-IsPfa (inr refl) not_in_block x in
      (λ u. (popped-FreeAt x).0 (a.0 u), λ u. a.1 ((popped-FreeAt x).1 u))

  owned-IsPfa : IsPfa owned
  owned-IsPfa = on_page-IsPfa without_first frame owned_page popped-IsPfa (inr refl) not_in_block

  other_page : (x : ℕ) → x ≢ frame → owned.pages x ≡ pfa.pages x
  other_page x ne = if_false (x == frame) _ _ (ground (arith, ne))

  still-Spare : (c f : ℕ) → has f (cache pfa c) ≡ true → f ≢ frame → Spare owned f
  still-Spare c f t ne =
      let z = w.spare c f t in
      record {
        inside = z.inside;
        no_order = ap (λ pg. pg.order) (other_page f ne) ∙ z.no_order;
        unoccupied = ap (λ pg. pg.occupied) (other_page f ne) ∙ z.unoccupied;
        not_free = λ u. z.not_free ((owned-FreeAt f).0 u);
      }

  owned-Served : Served pfa frame owned
  owned-Served = record {
    frames =
        pop-IsFrames pfa owned cpu frame rest w owned-IsPfa front refl still-Spare
          (omega (arith, s cpu));
    short = λ c.
        if_intro {A = PerCpu} (λ pc. length pc.free_list ≤ 16) (c == cpu) _ _
          (λ e. omega (arith, s cpu, ap length front)) (λ e. s c);
    was_avail = inr (cpu, here);
    avail = λ x. (
      λ u. elim u [
        | inl t ↦
            (inl ((owned-FreeAt x).0 t), λ e. is_Spare.not_free (rw e at ((owned-FreeAt x).0 t)))
        | inr (c, t) ↦
            let (old, ne) =
              popped_before pfa owned cpu frame rest w owned-IsPfa front refl still-Spare c x t in
            (inr (c, old), ne)
      ],
      λ (u, ne). elim u [
        | inl t ↦ inl ((owned-FreeAt x).1 t)
        | inr (c, t) ↦
            inr (
              c,
              popped_after pfa owned cpu frame rest w owned-IsPfa front refl still-Spare c x t ne,
            )
      ],
    );
    reserved = (ground arith, ground arith);
    others = λ x ne. ap (λ pg. pg.occupied) (other_page x ne);
  }

  pub serve-Served :
      (serve pfa cpu ≡ some (some (frame_to_phys pfa frame), owned)) × Served pfa frame owned
  unfolding serve pop_cached
  serve-Served = (rw front, owned-Served)

-- To have a frame after a refill is to have had it before.
refilled-Served :
    (pfa q p : Pfa) (cpu frame : ℕ) → Shifted pfa cpu q → Served q frame p → Served pfa frame p
refilled-Served pfa q p cpu frame f g = record {
  frames = g.frames;
  short = g.short;
  was_avail = (f.avail frame).0 g.was_avail;
  avail = λ x. (
    λ u. let (a, ne) = (g.avail x).0 u in ((f.avail x).0 a, ne),
    λ (a, ne). (g.avail x).1 ((f.avail x).1 a, ne),
  );
  reserved = g.reserved;
  others = λ x ne. g.others x ne ∙ f.occupied x;
}

length_cases : (fs : List ℕ) → (length fs ≡ 0) ⊎ ((f : ℕ) × (rest : List ℕ) × (fs ≡ f ∷ rest))
length_cases [] = inl refl
length_cases (f ∷ fs) = inr (f, fs, refl)

-- In a well-formed state `malloc` does not halt. It hands out one frame that could be had, with its
-- address, as `Served` says: the frame is occupied and has one reference, all others can be had as
-- before, and the state stays well formed. Or it hands out nothing, and then changes nothing, the cache
-- of the processor is empty and no frame lies in a free block.
pub malloc-Served :
    (pfa : Pfa) (cpu : ℕ)
    → IsFrames pfa
    → IsShort pfa
    → ((frame : ℕ) × (p : Pfa) × (malloc pfa cpu ≡ some (some (frame_to_phys pfa frame), p))
        × Served pfa frame p)
      ⊎ ((malloc pfa cpu ≡ some (none, pfa))
          × (length (cache pfa cpu) ≡ 0)
          × ((x : ℕ) → FreeAt pfa x → ⊥))
unfolding malloc
malloc-Served pfa cpu w s = elim (length_cases (cache pfa cpu)) [
  | inr (frame, rest, front) ↦
      let some_left : (pfa.percpu cpu).count ≢ 0 =
        λ e. absurd (omega (arith, w.counted cpu, ap length front)) in
      let skip : ((pfa.percpu cpu).count == 0) ≡ false = ground (arith, some_left) in
      let full : ltb 0 (pfa.percpu cpu).count ≡ true = ground (arith, some_left) in
      let (run, served) = serve-Served pfa cpu frame rest w s front in
      inl (frame, owned pfa cpu frame rest w s front, rw (skip, full) run, served)
  | inl bare ↦
      let empty : ((pfa.percpu cpu).count == 0) ≡ true = ground (arith, w.counted cpu, bare) in
      let (q, run, f, small, nothing) = percpu_refill-Shifted pfa cpu w bare in
      elim (length_cases (cache q cpu)) [
        | inl still ↦
            let (same, gone) = nothing still in
            let off : ltb 0 (q.percpu cpu).count ≡ false =
              ground (arith, f.frames.counted cpu, still) in
            inr (rw (empty, run, off) (ap (λ p. some (none, p)) same), bare, gone)
        | inr (frame, rest, front) ↦
            let s' : IsShort q = λ c. elim (ℕ_discrete c cpu) [
              | yes e ↦ omega (arith, small, ap (λ d. length (cache q d)) e)
              | no ne ↦ omega (arith, s c, ap (λ pc. length pc.free_list) (f.others c ne))
            ] in
            let full : ltb 0 (q.percpu cpu).count ≡ true =
              ground (arith, f.frames.counted cpu, ap length front) in
            let (more, served) = serve-Served q cpu frame rest f.frames s' front in
            let p = owned q cpu frame rest f.frames s' front in
            inl (
              frame,
              p,
              rw (empty, run, full)
                  (more ∙ ap (λ a. some (some (add32 a (mul32 frame page_frame_size)), p)) f.start),
              refilled-Served pfa q p cpu frame f served,
            )
      ]
]
