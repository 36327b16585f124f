-- ===== src/Kernel/Frames/Cached/Spare.antt =====
-- The frames that the processors keep: each is in no free block, in one cache and once in it.
use johnbeauty_os.Prelude.{
  ℕ, ◌≤◌, ◌<◌, ◌≡◌, ◌≢◌, ◌∙◌, refl, sym, ap, true, false, ◌&&◌, ◌||◌, List, ◌∷◌, arith, Bool-cases,
  inl, inr, ◌↔◌, ◌⊎◌, ◌==◌, if◌then◌else◌, if_intro, if_true, if_false, ==_iff, sub32, length,
}
use mathlib.Core.Path.{subst}
use johnbeauty_os.Prelude.Members.{has, Distinct}
use johnbeauty_os.Kernel.Frames.{Page, PerCpu, Pfa, invalid, put_at, on_page}
use johnbeauty_os.Kernel.Frames.Blocks.{FreeAt, IsPfa}
use johnbeauty_os.Kernel.Frames.Ranges.Changed.{Among, Unheaded, changed-IsPfa, changed-FreeAt}
use johnbeauty_os.Kernel.Frames.Cached.{pushed}

-- A frame that is no caller's and in no free block.
pub record Spare (pfa : Pfa) (f : ℕ) : Type 0 where
  pub inside : f < pfa.total_frames
  pub no_order : (pfa.pages f).order ≡ invalid
  pub unoccupied : (pfa.pages f).occupied ≡ false
  pub not_free : FreeAt pfa f → ⊥

abbrev pub cache : Pfa → ℕ → List ℕ
cache pfa c = (pfa.percpu c).free_list

pub record IsFrames (pfa : Pfa) : Type 0 where
  pub valid : IsPfa pfa
  pub spare : (c f : ℕ) → has f (cache pfa c) ≡ true → Spare pfa f
  pub once : (c : ℕ) → Distinct (cache pfa c)
  pub alone : (c d f : ℕ) → has f (cache pfa c) ≡ true → has f (cache pfa d) ≡ true → c ≡ d
  pub counted : (c : ℕ) → (pfa.percpu c).count ≡ length (cache pfa c)

-- The frame can be had: it is in a free block or in the cache of some processor.
abbrev pub Avail : Pfa → ℕ → Type 0
Avail pfa x = FreeAt pfa x ⊎ ((c : ℕ) × (has x (cache pfa c) ≡ true))

-- The caches and the counter are no part of the free blocks.
module _ (pfa : Pfa) (n : ℕ) (P : ℕ → PerCpu) where
  pub beside-FreeAt : (x : ℕ) → FreeAt (record pfa { free_frames = n; percpu = P }) x ↔ FreeAt pfa x
  beside-FreeAt x = (
    λ w. record {
      block = w.block;
      order = w.order;
      small = w.small;
      head = w.head;
      low = w.low;
      high = w.high;
    },
    λ w. record {
      block = w.block;
      order = w.order;
      small = w.small;
      head = w.head;
      low = w.low;
      high = w.high;
    },
  )

  pub beside-IsPfa : IsPfa pfa → IsPfa (record pfa { free_frames = n; percpu = P })
  beside-IsPfa v = record {
    size = v.size;
    lists = v.lists;
    once = v.once;
    aligned = v.aligned;
    fits = v.fits;
    apart = v.apart;
    inner = v.inner;
    mask = v.mask;
    mask_high = v.mask_high;
    mask_word = v.mask_word;
  }

-- One page that is in no free block changes.
module _ (pfa : Pfa) (frame : ℕ) (f : Page → Page) (v : IsPfa pfa)
    (unheaded : Unheaded (f (pfa.pages frame))) (taken : FreeAt pfa frame → ⊥) where
  among_one : (x : ℕ) → Among frame 1 x → x ≡ frame
  among_one x i = omega arith

  one_outside : (x : ℕ) → (Among frame 1 x → ⊥) → (on_page pfa frame f).pages x ≡ pfa.pages x
  one_outside x out = if_false (x == frame) _ _ (elim (Bool-cases (x == frame)) [
    | inl e ↦ absurd (out (ground (arith, e), ground (arith, e)))
    | inr e ↦ e
  ])

  one_inside : (x : ℕ) → Among frame 1 x → Unheaded ((on_page pfa frame f).pages x)
  one_inside x i =
      let same = among_one x i in
      rw (if_true (x == frame) (f (pfa.pages frame)) (pfa.pages x) (ground (arith, same))) unheaded

  one_taken : (x : ℕ) → Among frame 1 x → FreeAt pfa x → ⊥
  one_taken x i w = taken (rw (sym (among_one x i)) w)

  pub on_page-IsPfa : IsPfa (on_page pfa frame f)
  on_page-IsPfa =
      changed-IsPfa pfa (on_page pfa frame f).pages frame 1 v one_outside one_inside one_taken

  pub on_page-FreeAt : (x : ℕ) → FreeAt (on_page pfa frame f) x ↔ FreeAt pfa x
  on_page-FreeAt =
      changed-FreeAt pfa (on_page pfa frame f).pages frame 1 v one_outside one_inside one_taken

abbrev pub popped : List ℕ → PerCpu → PerCpu
popped rest pc = record { free_list = rest; count = sub32 pc.count 1 }

-- A frame joins a cache.
module _ (pfa p : Pfa) (cpu frame : ℕ) (w : IsFrames pfa) (v : IsPfa p)
    (caches : p.percpu ≡ put_at pfa.percpu cpu (pushed frame (pfa.percpu cpu)))
    (spares : (c f : ℕ) → has f (cache pfa c) ≡ true → Spare p f) (new : Spare p frame)
    (fresh : (c : ℕ) → has frame (cache pfa c) ≡ false) (room : length (cache pfa cpu) ≤ 16) where
  at_cache :
      (c : ℕ) → p.percpu c ≡ (if c == cpu then pushed frame (pfa.percpu cpu) else pfa.percpu c)
  at_cache c = ap (λ P. P c) caches

  pub has_pushed : (c f : ℕ) → has f (cache p c) ≡ ((c == cpu && f == frame) || has f (cache pfa c))
  unfolding has
  has_pushed c f = ap (λ pc. has f pc.free_list) (at_cache c) ∙ elim (Bool-cases (c == cpu)) [
    | inl e ↦ let same : c ≡ cpu = (==_iff c cpu).0 e in rw (e, same) refl
    | inr e ↦ rw e refl
  ]

  pushed_cases :
      (c f : ℕ)
      → has f (cache p c) ≡ true
      → ((c ≡ cpu) × (f ≡ frame)) ⊎ (has f (cache pfa c) ≡ true)
  pushed_cases c f h = elim (Bool-cases (has f (cache pfa c))) [
    | inl old ↦ inr old
    | inr n ↦ inl (ground (arith, has_pushed c f, h, n), ground (arith, has_pushed c f, h, n))
  ]

  pub pushed_cached :
      (x : ℕ)
      → ((c : ℕ) × (has x (cache p c) ≡ true))
        ↔ (((c : ℕ) × (has x (cache pfa c) ≡ true)) ⊎ (x ≡ frame))
  pushed_cached x = (
    λ (c, h). elim (pushed_cases c x h) [ inl (a, b) ↦ inr b | inr old ↦ inl (c, old) ],
    λ s. elim s [
      | inl (c, old) ↦ (c, has_pushed c x ∙ ground (arith, old))
      | inr e ↦ (cpu, has_pushed cpu x ∙ ground (arith, e))
    ],
  )

  pub push-IsFrames : IsFrames p
  unfolding has Distinct
  push-IsFrames = record {
    valid = v;
    spare = λ c f h. elim (Bool-cases (has f (cache pfa c))) [
      | inl old ↦ spares c f old
      | inr n ↦ let same : f ≡ frame = ground (arith, has_pushed c f, h, n) in rw same new
    ];
    once = λ c. rw (ap (λ pc. pc.free_list) (at_cache c)) (
        if_intro {A = PerCpu} (λ pc. Distinct pc.free_list) (c == cpu) _ _
          (λ e. (fresh cpu, w.once cpu)) (λ e. w.once c));
    alone = λ c d f h k. elim (pushed_cases c f h) [
      | inl (a, b) ↦ elim (pushed_cases d f k) [
        | inl (a', b') ↦ omega arith
        | inr old ↦ absurd (ground (arith, fresh d, b, old))
      ]
      | inr old ↦ elim (pushed_cases d f k) [
        | inl (a', b') ↦ absurd (ground (arith, fresh c, b', old))
        | inr old' ↦ w.alone c d f old old'
      ]
    ];
    counted = λ c.
        let P : PerCpu → Type 0 = λ pc. pc.count ≡ length pc.free_list in
        subst P (sym (at_cache c))
          (if_intro P (c == cpu) _ _ (λ e. omega (arith, w.counted cpu)) (λ e. w.counted c));
  }

-- The first frame of a cache leaves it.
module _ (pfa p : Pfa) (cpu frame : ℕ) (rest : List ℕ) (w : IsFrames pfa) (v : IsPfa p)
    (front : cache pfa cpu ≡ frame ∷ rest)
    (caches : p.percpu ≡ put_at pfa.percpu cpu (popped rest (pfa.percpu cpu)))
    (spares : (c f : ℕ) → has f (cache pfa c) ≡ true → f ≢ frame → Spare p f) where
  in_cache :
      (c : ℕ) → p.percpu c ≡ (if c == cpu then popped rest (pfa.percpu cpu) else pfa.percpu c)
  in_cache c = ap (λ P. P c) caches

  apart_once : Distinct (frame ∷ rest)
  apart_once = subst Distinct front (w.once cpu)

  pub frame_here : has frame (cache pfa cpu) ≡ true
  unfolding has
  frame_here = ap (has frame) front ∙ ground arith

  pub popped_before :
      (c f : ℕ) → has f (cache p c) ≡ true → (has f (cache pfa c) ≡ true) × (f ≢ frame)
  unfolding has Distinct
  popped_before c f h = elim (Bool-cases (c == cpu)) [
    | inl e ↦
        let same : c ≡ cpu = (==_iff c cpu).0 e in
        let inside : has f rest ≡ true =
          sym (ap (λ pc. has f pc.free_list) (in_cache c ∙ if_true (c == cpu) _ _ e)) ∙ h in
        (
          ap (λ d. has f (cache pfa d)) same ∙ ap (has f) front ∙ ground (arith, inside),
          λ eq. ground (arith, apart_once.0, eq, inside),
        )
    | inr e ↦
        let inside : has f (cache pfa c) ≡ true =
          sym (ap (λ pc. has f pc.free_list) (in_cache c ∙ if_false (c == cpu) _ _ e)) ∙ h in
        (inside, λ eq. absurd (ground (arith, e, w.alone c cpu frame (rw eq at inside) frame_here)))
  ]

  pub popped_after : (c f : ℕ) → has f (cache pfa c) ≡ true → f ≢ frame → has f (cache p c) ≡ true
  unfolding has
  popped_after c f h ne = elim (Bool-cases (c == cpu)) [
    | inl e ↦
        let same : c ≡ cpu = (==_iff c cpu).0 e in
        let inside : has f (frame ∷ rest) ≡ true =
          sym (ap (has f) front) ∙ ap (λ d. has f (cache pfa d)) (sym same) ∙ h in
        ap (λ pc. has f pc.free_list) (in_cache c ∙ if_true (c == cpu) _ _ e)
        ∙ ground (arith, inside, ne)
    | inr e ↦ ap (λ pc. has f pc.free_list) (in_cache c ∙ if_false (c == cpu) _ _ e) ∙ h
  ]

  pub pop-IsFrames : length (cache pfa cpu) ≤ 17 → IsFrames p
  unfolding Distinct
  pop-IsFrames short = record {
    valid = v;
    spare = λ c f h. let (old, ne) = popped_before c f h in spares c f old ne;
    once = λ c.
        let P : PerCpu → Type 0 = λ pc. Distinct pc.free_list in
        subst P (sym (in_cache c)) (if_intro P (c == cpu) _ _ (λ e. apart_once.1) (λ e. w.once c));
    alone = λ c d f h k. w.alone c d f (popped_before c f h).0 (popped_before d f k).0;
    counted = λ c.
        let P : PerCpu → Type 0 = λ pc. pc.count ≡ length pc.free_list in
        subst P (sym (in_cache c)) (
          if_intro P (c == cpu) _ _ (λ e. omega (arith, w.counted cpu, ap length front))
            (λ e. w.counted c));
  }
