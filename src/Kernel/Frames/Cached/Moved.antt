-- ===== src/Kernel/Frames/Cached/Moved.antt =====
-- A frame moved from a free block to a cache.
use johnbeauty_os.Prelude.{
  ℕ, ◌≤◌, ◌≡◌, ◌≢◌, ◌∙◌, refl, ap, true, false, arith, Bool-cases, inl, inr, ◌↔◌, ◌==◌, if_false,
  sub32, length, ℕ_discrete,
}
use johnbeauty_os.Prelude.Members.{has}
use johnbeauty_os.Prelude.Bits.{pow-pos}
use johnbeauty_os.Kernel.Frames.{Page, Pfa, invalid, put_at, on_page, unlinked}
use johnbeauty_os.Kernel.Frames.Blocks.{is_head, FreeAt, IsPfa}
use johnbeauty_os.Kernel.Frames.Unlinked.{free_unlinked, occupied_unlinked}
use johnbeauty_os.Kernel.Frames.Steps.{dec_In, unlinked_fields, unlinked_order, unlinked_percpu}
use johnbeauty_os.Kernel.Frames.Split.{Halved}
use johnbeauty_os.Kernel.Frames.Cached.{pushed, into_cache}
use johnbeauty_os.Kernel.Frames.Cached.Spare.{
  Spare, cache, IsFrames, Avail, beside-FreeAt, beside-IsPfa, on_page-IsPfa, on_page-FreeAt,
  push-IsFrames, pushed_cached,
}

abbrev cached_page : Page → Page
cached_page pg = record pg { occupied = false; type = 0; order = invalid; refcount = 0 }

module _ (pfa : Pfa) (cpu frame order : ℕ) (w : IsFrames pfa) (small : order ≤ 10)
    (head : is_head pfa frame order ≡ true) (room : length (cache pfa cpu) ≤ 16) (q : Pfa)
    (h : Halved (unlinked pfa frame order) frame order 0 q) where
  at_head : FreeAt pfa frame
  at_head = record {
    block = frame;
    order = order;
    small = small;
    head = head;
    low = omega arith;
    high = omega (arith, pow-pos order);
  }

  free_split : (x : ℕ) → FreeAt q x ↔ (FreeAt pfa x × (x ≢ frame))
  free_split x = (
    λ u. elim ((h.free x).0 u) [
      | inl t ↦
          let (old, away) = (free_unlinked pfa frame order w.valid small head x).0 t in
          (old, λ e. away (omega arith, omega (arith, pow-pos order)))
      | inr ((a, b), out) ↦ (
        record { block = frame; order = order; small = small; head = head; low = a; high = b },
        λ e. out (omega arith, omega arith),
      )
    ],
    λ (old, ne). (h.free x).1 (elim (dec_In frame order x) [
      | yes i ↦ inr (i, λ (a, b). ne (omega arith))
      | no away ↦ inl ((free_unlinked pfa frame order w.valid small head x).1 (old, away))
    ]),
  )

  not_free : FreeAt q frame → ⊥
  not_free u = ((free_split frame).0 u).1 refl

  abbrev pub kept : Pfa
  kept = into_cache q cpu frame

  pub kept_caches : kept.percpu ≡ put_at pfa.percpu cpu (pushed frame (pfa.percpu cpu))
  unfolding into_cache
  kept_caches =
      let same : q.percpu ≡ pfa.percpu = h.same_percpu ∙ unlinked_percpu pfa frame order in
      ap (λ P. put_at P cpu (pushed frame (P cpu))) same

  kept-FreeAt : (x : ℕ) → FreeAt kept x ↔ (FreeAt pfa x × (x ≢ frame))
  unfolding into_cache
  kept-FreeAt x =
      let a = on_page-FreeAt q frame cached_page h.valid (inl refl) not_free x in
      let b =
        beside-FreeAt (on_page q frame cached_page) (sub32 q.free_frames 1)
          (put_at q.percpu cpu (pushed frame (q.percpu cpu))) x in
      (λ u. (free_split x).0 (a.0 (b.0 u)), λ u. b.1 (a.1 ((free_split x).1 u)))

  pub kept-IsPfa : IsPfa kept
  unfolding into_cache
  kept-IsPfa =
      beside-IsPfa (on_page q frame cached_page) (sub32 q.free_frames 1)
        (put_at q.percpu cpu (pushed frame (q.percpu cpu)))
        (on_page-IsPfa q frame cached_page h.valid (inl refl) not_free)

  pub kept_total : (kept.total_frames ≡ pfa.total_frames) × (kept.start_addr ≡ pfa.start_addr)
  unfolding into_cache
  kept_total =
      (h.total ∙ (unlinked_fields pfa frame order).0, h.start ∙ (unlinked_fields pfa frame order).1)

  kept_page : (x : ℕ) → x ≢ frame → kept.pages x ≡ q.pages x
  unfolding into_cache
  kept_page x ne = if_false (x == frame) _ _ (ground (arith, ne))

  kept_here : ((kept.pages frame).order ≡ invalid) × ((kept.pages frame).occupied ≡ false)
  unfolding into_cache
  kept_here = (ground arith, ground arith)

  pub kept_occupied : (x : ℕ) → (kept.pages x).occupied ≡ (pfa.pages x).occupied
  kept_occupied x = elim (ℕ_discrete x frame) [
    | yes e ↦ ap (λ k. (kept.pages k).occupied) e ∙ kept_here.1 ∙ ground (arith, head, e)
    | no ne ↦
        ap (λ pg. pg.occupied) (kept_page x ne)
        ∙ h.occupied x
        ∙ occupied_unlinked pfa frame order w.valid small head x
  ]

  pub fresh : (c : ℕ) → has frame (cache pfa c) ≡ false
  fresh c = elim (Bool-cases (has frame (cache pfa c))) [
    | inl t ↦ absurd ((w.spare c frame t).not_free at_head)
    | inr n ↦ n
  ]

  pub kept-Spare : (c f : ℕ) → has f (cache pfa c) ≡ true → Spare kept f
  kept-Spare c f t =
      let s = w.spare c f t in
      let ne : f ≢ frame = λ e. s.not_free (rw e at_head) in
      let away : FreeAt q f → ⊥ = λ u. s.not_free ((free_split f).0 u).0 in
      record {
        inside = omega (arith, s.inside, kept_total.0);
        no_order =
            ap (λ pg. pg.order) (kept_page f ne)
            ∙ h.orders f away
            ∙ unlinked_order pfa frame order f ne
            ∙ s.no_order;
        unoccupied = kept_occupied f ∙ s.unoccupied;
        not_free = λ u. s.not_free ((kept-FreeAt f).0 u).0;
      }

  pub new-Spare : Spare kept frame
  new-Spare = record {
    inside = omega (arith, w.valid.fits frame order small head, kept_total.0, pow-pos order);
    no_order = kept_here.0;
    unoccupied = kept_here.1;
    not_free = λ u. ((kept-FreeAt frame).0 u).1 refl;
  }

  pub kept-IsFrames : IsFrames kept
  kept-IsFrames =
      push-IsFrames pfa kept cpu frame w kept-IsPfa kept_caches kept-Spare new-Spare fresh room

  -- The frame was free and is in the cache.
  pub kept-Avail : (x : ℕ) → Avail kept x ↔ Avail pfa x
  kept-Avail x =
      let moved =
        pushed_cached pfa kept cpu frame w kept-IsPfa kept_caches kept-Spare new-Spare fresh room
          x in
      (
        λ u. elim u [
          | inl t ↦ inl ((kept-FreeAt x).0 t).0
          | inr t ↦ elim (moved.0 t) [ inl old ↦ inr old | inr e ↦ inl (rw e at_head) ]
        ],
        λ u. elim u [
          | inl t ↦ elim (ℕ_discrete x frame) [
            | yes e ↦ inr (moved.1 (inr e))
            | no ne ↦ inl ((kept-FreeAt x).1 (t, ne))
          ]
          | inr t ↦ inr (moved.1 (inl t))
        ],
      )
