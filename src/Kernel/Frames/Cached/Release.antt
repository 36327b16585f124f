-- ===== src/Kernel/Frames/Cached/Release.antt =====
-- `jlos_page_frame_refcount_dec` takes a frame back.
use johnbeauty_os.Prelude.{
  ℕ, suc, ◌+◌, ◌-◌, ◌≤◌, ◌<◌, ◌≡◌, ◌≢◌, ◌∙◌, refl, sym, ap, true, false, some, arith, Bool-cases,
  inl, inr, ◌↔◌, ◌⊎◌, ◌==◌, ltb, leb, if◌then◌else◌, if_true, if_false, length, ℕ_discrete,
}
use johnbeauty_os.Prelude.Members.{has}
use johnbeauty_os.Kernel.Frames.{Page, Pfa, invalid, put_at}
use johnbeauty_os.Kernel.Frames.Blocks.{FreeAt, IsPfa}
use johnbeauty_os.Kernel.Frames.Ranges.{phys_to_frame}
use johnbeauty_os.Kernel.Frames.Cached.{
  cache_of, pushed, drain_from, percpu_drain, released, refcount_dec,
}
use johnbeauty_os.Kernel.Frames.Cached.Spare.{
  Spare, cache, IsFrames, Avail, beside-FreeAt, beside-IsPfa, push-IsFrames, pushed_cached,
}
use johnbeauty_os.Kernel.Frames.Cached.Refill.{Shifted}
use johnbeauty_os.Kernel.Frames.Cached.Malloc.{IsShort}
use johnbeauty_os.Kernel.Frames.Cached.Drain.{drain_from-Shifted}
use johnbeauty_os.Kernel.Frames.Cached.Touched.{
  touched, touched-FreeAt, touched-IsFrames, touched-Avail,
}

-- What taking a frame back leaves: it can be had, and the others as before.
pub record Released (pfa : Pfa) (frame : ℕ) (p : Pfa) : Type 0 where
  pub frames : IsFrames p
  pub short : IsShort p
  pub avail : (x : ℕ) → Avail p x ↔ (Avail pfa x ⊎ (x ≡ frame))
  pub others : (x : ℕ) → x ≢ frame → (p.pages x).occupied ≡ (pfa.pages x).occupied

abbrev cleared_page : Page → Page
cleared_page pg = record pg {
  occupied = false;
  order = invalid;
  type = 0;
  pt_present_count = 0;
  refcount = 0;
}

module _ (pfa : Pfa) (cpu frame : ℕ) (w : IsFrames pfa) (s : IsShort pfa)
    (inside : frame < pfa.total_frames) (held : Avail pfa frame → ⊥) where
  abbrev cleared : Pfa
  cleared = touched pfa frame cleared_page w (inl refl) held

  abbrev cached : Pfa
  cached = cache_of cleared cpu (pushed frame (pfa.percpu cpu))

  cleared-IsFrames : IsFrames cleared
  cleared-IsFrames = touched-IsFrames pfa frame cleared_page w (inl refl) held

  cached-FreeAt : (x : ℕ) → FreeAt cached x ↔ FreeAt cleared x
  cached-FreeAt =
      beside-FreeAt cleared pfa.free_frames (put_at pfa.percpu cpu (pushed frame (pfa.percpu cpu)))

  cached-IsPfa : IsPfa cached
  cached-IsPfa =
      beside-IsPfa cleared pfa.free_frames (put_at pfa.percpu cpu (pushed frame (pfa.percpu cpu)))
        cleared-IsFrames.valid

  cached-Spare : (c g : ℕ) → has g (cache cleared c) ≡ true → Spare cached g
  cached-Spare c g t =
      let z = cleared-IsFrames.spare c g t in
      record {
        inside = z.inside;
        no_order = z.no_order;
        unoccupied = z.unoccupied;
        not_free = λ u. z.not_free ((cached-FreeAt g).0 u);
      }

  frame-Spare : Spare cached frame
  frame-Spare = record {
    inside = inside;
    no_order = ground arith;
    unoccupied = ground arith;
    not_free = λ u. held (
        inl (
          (touched-FreeAt pfa frame cleared_page w (inl refl) held frame).0
            ((cached-FreeAt frame).0 u)));
  }

  not_cached : (c : ℕ) → has frame (cache cleared c) ≡ false
  not_cached c = elim (Bool-cases (has frame (cache pfa c))) [
    | inl t ↦ absurd (held (inr (c, t)))
    | inr n ↦ n
  ]

  cached-IsFrames : IsFrames cached
  cached-IsFrames =
      push-IsFrames cleared cached cpu frame cleared-IsFrames cached-IsPfa refl cached-Spare
        frame-Spare not_cached (s cpu)

  cached-Avail : (x : ℕ) → Avail cached x ↔ (Avail pfa x ⊎ (x ≡ frame))
  cached-Avail x =
      let moved =
        pushed_cached cleared cached cpu frame cleared-IsFrames cached-IsPfa refl cached-Spare
          frame-Spare not_cached (s cpu) x in
      let blocks = touched-FreeAt pfa frame cleared_page w (inl refl) held x in
      (
        λ u. elim u [
          | inl t ↦ inl (inl (blocks.0 ((cached-FreeAt x).0 t)))
          | inr t ↦ elim (moved.0 t) [ inl old ↦ inl (inr old) | inr e ↦ inr e ]
        ],
        λ u. elim u [
          | inl a ↦ elim a [
            | inl t ↦ inl ((cached-FreeAt x).1 (blocks.1 t))
            | inr t ↦ inr (moved.1 (inl t))
          ]
          | inr e ↦ inr (moved.1 (inr e))
        ],
      )

  cached-length :
      (c : ℕ)
      → length (cache cached c)
        ≡ (if c == cpu then suc (length (cache pfa cpu)) else length (cache pfa c))
  cached-length c = elim (Bool-cases (c == cpu)) [
    | inl e ↦
        ap (λ pc. length pc.free_list)
          (if_true (c == cpu) (pushed frame (pfa.percpu cpu)) (pfa.percpu c) e)
        ∙ sym (if_true (c == cpu) _ _ e)
    | inr e ↦
        ap (λ pc. length pc.free_list)
          (if_false (c == cpu) (pushed frame (pfa.percpu cpu)) (pfa.percpu c) e)
        ∙ sym (if_false (c == cpu) _ _ e)
  ]

  cached_page : (x : ℕ) → x ≢ frame → (cached.pages x).occupied ≡ (pfa.pages x).occupied
  cached_page x ne =
      ap (λ pg. pg.occupied)
        (if_false (x == frame) (cleared_page (pfa.pages frame)) (pfa.pages x) (ground (arith, ne)))

  short_elsewhere : (c : ℕ) → c ≢ cpu → length (cache cached c) ≤ 16
  short_elsewhere c ne =
      let other : (c == cpu) ≡ false = ground (arith, ne) in
      omega (arith, cached-length c ∙ if_false (c == cpu) _ _ other, s c)

  long_here : length (cache cached cpu) ≤ 17
  long_here = omega (arith, cached-length cpu ∙ if_true (cpu == cpu) _ _ (ground arith), s cpu)

  -- Where the cache did not become long.
  cached-Released : (cached.percpu cpu).count ≤ 16 → Released pfa frame cached
  cached-Released low = record {
    frames = cached-IsFrames;
    short = λ c. elim (ℕ_discrete c cpu) [
      | yes e ↦ omega (arith, ap (λ d. length (cache cached d)) e, cached-IsFrames.counted cpu, low)
      | no ne ↦ short_elsewhere c ne
    ];
    avail = cached-Avail;
    others = cached_page;
  }

  -- Where it did.
  drained-Released :
      (p : Pfa)
      → Shifted cached cpu p
      → length (cache p cpu) + 8 ≡ length (cache cached cpu)
      → Released pfa frame p
  drained-Released p f less = record {
    frames = f.frames;
    short = λ c. elim (ℕ_discrete c cpu) [
      | yes e ↦ omega (arith, ap (λ d. length (cache p d)) e, less, long_here)
      | no ne ↦ omega (arith, ap (λ pc. length pc.free_list) (f.others c ne), short_elsewhere c ne)
    ];
    avail =
        λ x. (λ u. (cached-Avail x).0 ((f.avail x).0 u), λ u. (f.avail x).1 ((cached-Avail x).1 u));
    others = λ x ne. f.occupied x ∙ cached_page x ne;
  }

  pub released-Released : (p : Pfa) × (released pfa cpu frame ≡ some p) × Released pfa frame p
  unfolding released percpu_drain
  released-Released = elim (Bool-cases (ltb 16 (cached.percpu cpu).count)) [
    | inr low ↦ (cached, if_false _ _ _ low, cached-Released (ground (arith, low)))
    | inl high ↦
        let enough : 16 < (cached.percpu cpu).count = ground (arith, high) in
        let batch : ltb (cached.percpu cpu).count 8 ≡ false = ground (arith, enough) in
        let (p, run, f, less) =
          drain_from-Shifted 8 cached cpu cached-IsFrames
            (omega (arith, cached-IsFrames.counted cpu, enough)) long_here in
        (
          p,
          if_true _ _ _ high ∙ ap (λ n. drain_from n cached cpu) (if_false _ _ _ batch) ∙ run,
          drained-Released p f less,
        )
  ]

-- The last reference to a frame is dropped: in a well-formed state, for a frame that is occupied and
-- cannot be had, `refcount_dec` does not halt, the frame can be had again and all others as before, and
-- the state stays well formed.
pub refcount_dec-Released :
    (pfa : Pfa) (cpu phys : ℕ)
    → IsFrames pfa
    → IsShort pfa
    → phys_to_frame pfa phys < pfa.total_frames
    → (pfa.pages (phys_to_frame pfa phys)).refcount ≡ 1
    → (pfa.pages (phys_to_frame pfa phys)).occupied ≡ true
    → (Avail pfa (phys_to_frame pfa phys) → ⊥)
    → (p : Pfa) × (refcount_dec pfa cpu phys ≡ some p) × Released pfa (phys_to_frame pfa phys) p
unfolding refcount_dec
refcount_dec-Released pfa cpu phys w s inside one taken held =
    let frame = phys_to_frame pfa phys in
    let drop : Page → Page = λ pg. record pg { refcount = (pfa.pages frame).refcount - 1 } in
    let p0 = touched pfa frame drop w (inr taken) held in
    let avail = touched-Avail pfa frame drop w (inr taken) held in
    let (p, run, r) =
      released-Released p0 cpu frame (touched-IsFrames pfa frame drop w (inr taken) held) s inside
        (λ u. held ((avail frame).0 u)) in
    (
      p,
      if_false (leb pfa.total_frames frame) _ _ (ground (arith, inside))
          ∙ if_false ((pfa.pages frame).refcount == 0) _ _ (ground (arith, one))
          ∙ if_true ((pfa.pages frame).refcount == 1) _ _ (ground (arith, one))
          ∙ run,
      record {
        frames = r.frames;
        short = r.short;
        avail = λ x. (
          λ u. elim ((r.avail x).0 u) [ inl a ↦ inl ((avail x).0 a) | inr e ↦ inr e ],
          λ u. (r.avail x).1 (elim u [ inl a ↦ inl ((avail x).1 a) | inr e ↦ inr e ]),
        );
        others = λ x ne.
            r.others x ne
            ∙ ap (λ pg. pg.occupied)
                (if_false (x == frame) (drop (pfa.pages frame)) (pfa.pages x) (ground (arith, ne)));
      },
    )
