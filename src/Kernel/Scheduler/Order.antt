-- ===== src/Kernel/Scheduler/Order.antt =====
-- A run queue of `kernel/multitask.c` gives the tasks of the more urgent levels first, and the tasks of
-- a level in the order in which they came.
use johnbeauty_os.Prelude.{
  ℕ, zero, suc, ◌-◌, ◌*◌, ◌/◌, ◌^◌, ◌<◌, ◌≡◌, ◌≢◌, ◌∙◌, refl, sym, ap, Bool, true, false, not, ◌||◌,
  none, some, List, [], ◌∷◌, ◌++◌, ◌==◌, arith, length, if_true, if_false, ==_iff, ◌⊎◌, inl, inr,
  Bool-cases, sub32,
}
use johnbeauty_os.Kernel.Scheduler.{Runqueue, test_bit, ctz, at_level, without, pop_level, pop}
use johnbeauty_os.Kernel.Scheduler.Mask.{ctz_lem, mask_zero}
use johnbeauty_os.Kernel.Scheduler.{Manager, update, update_rq, boosted, dequeued, rq_dequeue}
use johnbeauty_os.Kernel.Scheduler.Levels.{
  some_in, joined, IsRunqueue, in_order, without-IsRunqueue,
}

joined-front :
    (q : ℕ → List ℕ) (l t : ℕ) (rest : List ℕ)
    → l < 4
    → ((k : ℕ) → k < l → q k ≡ [])
    → q l ≡ t ∷ rest
    → joined q ≡ t ∷ joined (at_level q l rest)
joined-front q zero t rest small low e = ap (λ p. p ++ (q 1 ++ (q 2 ++ q 3))) e
joined-front q (suc zero) t rest small low e = rw (low 0 (omega arith), e) refl
joined-front q (suc (suc zero)) t rest small low e =
    rw (low 0 (omega arith), low 1 (omega arith), e) refl
joined-front q (suc (suc (suc zero))) t rest small low e =
    rw (low 0 (omega arith), low 1 (omega arith), low 2 (omega arith), e) refl
joined-front q (suc (suc (suc (suc l)))) t rest small low e = absurd (omega arith)

none_in : (q : List ℕ) → some_in q ≡ false → q ≡ []
none_in [] h = refl
none_in (t ∷ q) h = absurd (ground (arith, h))

clash : (q : List ℕ) → q ≡ [] → some_in q ≡ true → ⊥
clash [] e h = ground (arith, h)
clash (t ∷ q) e h = ground (arith, e)

all_off :
    (a b c d : Bool)
    → not (a || b || c || d) ≡ true
    → (a ≡ false) × (b ≡ false) × (c ≡ false) × (d ≡ false)
all_off a b c d h = (ground (arith, h), ground (arith, h), ground (arith, h), ground (arith, h))

-- What `pop` does: the first task in the order, if there is one, leaves it.
pub record IsPop (rq : Runqueue) (t l : ℕ) (rest : List ℕ) (rq' : Runqueue) : Type 0 where
  pub popped : pop rq ≡ some (t, l, rq')
  pub at_most : l < 4
  pub left : rq' ≡ without rq l rest
  pub first : rq.queue l ≡ t ∷ rest
  pub urgent : (k : ℕ) → k < l → rq.queue k ≡ []
  pub order : in_order rq ≡ t ∷ in_order rq'
  pub valid : IsRunqueue rq'

module _ (rq : Runqueue) (v : IsRunqueue rq) where
  empty_at : (l : ℕ) → l < 4 → test_bit rq.nonempty l ≡ false → rq.queue l ≡ []
  empty_at l h e = none_in (rq.queue l) (sym (v.level l h).0 ∙ e)

  pop-empty : rq.nonempty ≡ 0 → (in_order rq ≡ []) × (pop rq ≡ none)
  unfolding in_order pop
  pop-empty e =
      let off = all_off _ _ _ _ (sym (mask_zero rq.nonempty v.mask) ∙ (==_iff _ _).1 e) in
      (
        rw
            (
              empty_at 0 (omega arith) off.0,
              empty_at 1 (omega arith) off.1,
              empty_at 2 (omega arith) off.2,
              empty_at 3 (omega arith) off.3,
            )
            refl,
        if_true (rq.nonempty == 0) _ _ ((==_iff _ _).1 e),
      )

  IsPop-first :
      (rest : List ℕ) (t : ℕ)
      → rq.nonempty ≢ 0
      → rq.queue (ctz rq.nonempty) ≡ t ∷ rest
      → IsPop rq t (ctz rq.nonempty) rest (without rq (ctz rq.nonempty) rest)
  unfolding pop in_order pop_level without
  IsPop-first rest t ne e =
      let l : ℕ = ctz rq.nonempty in
      let lowest = λ (k : ℕ) (h : k < 4). ctz_lem rq.nonempty k v.mask h ne in
      let small = (lowest 0 (omega arith)).0 in
      record {
        popped = if_false (rq.nonempty == 0) _ _ (ground (arith, ne)) ∙ ap (pop_level rq l) e;
        at_most = small;
        left = refl;
        first = e;
        urgent = λ k h. empty_at k (omega arith) ((lowest k (omega arith)).2 h);
        order =
            joined-front rq.queue l t rest small
              (λ k h. empty_at k (omega arith) ((lowest k (omega arith)).2 h)) e;
        valid = without-IsRunqueue rq l rest v small (ap length e);
      }

  -- A run queue gives its first task in the order, and `none` only when it has none.
  pub pop-in_order :
      ((in_order rq ≡ []) × (pop rq ≡ none))
      ⊎ ((t : ℕ) × (l : ℕ) × (rest : List ℕ) × (rq' : Runqueue) × IsPop rq t l rest rq')
  pop-in_order = elim (Bool-cases (rq.nonempty == 0)) [
    | inl e ↦ inl (pop-empty ((==_iff _ _).0 e))
    | inr e ↦ inr (first_of (rq.queue (ctz rq.nonempty)) refl (λ z. absurd (ground (arith, e, z))))
  ]
    where
      first_of :
          (q : List ℕ)
          → rq.queue (ctz rq.nonempty) ≡ q
          → rq.nonempty ≢ 0
          → (t : ℕ) × (l : ℕ) × (rest : List ℕ) × (rq' : Runqueue) × IsPop rq t l rest rq'
      first_of [] e ne =
          let lowest = ctz_lem rq.nonempty 0 v.mask (omega arith) ne in
          absurd (
            clash (rq.queue (ctz rq.nonempty)) e
              (sym (v.level (ctz rq.nonempty) lowest.0).0 ∙ lowest.1))
      first_of (t ∷ rest) e ne =
          (t, ctz rq.nonempty, rest, without rq (ctz rq.nonempty) rest, IsPop-first rest t ne e)

-- What a processor gets: the first task of level `l`, above which all levels are empty. It was moved up a
-- level for each 200 ticks since it became ready, at most to the first, and no other task changed.
pub record IsDequeued (m : Manager) (cpu now t l : ℕ) (m' : Manager) : Type 0 where
  pub result : rq_dequeue m cpu now ≡ (some t, m')
  pub order : in_order (m.rq cpu) ≡ t ∷ in_order (m'.rq cpu)
  pub level : l < 4
  pub from_level : (m.rq cpu).queue l ≡ t ∷ (m'.rq cpu).queue l
  pub urgent : (k : ℕ) → k < l → (m.rq cpu).queue k ≡ []
  pub aged : (m'.task t).priority ≡ l - sub32 now (m.task t).last_ready_tick / 200
  pub others : (u : ℕ) → u ≢ t → m'.task u ≡ m.task u
  pub slice : (m'.task t).default_slice ≡ 2 * 2 ^ (m'.task t).priority
  pub valid : IsRunqueue (m'.rq cpu)

pub at_level-here {ℓ} : {A : Type ℓ} (k : ℕ) (f : ℕ → A) (a : A) → at_level f k a k ≡ a
at_level-here k f a = if_true (k == k) a (f k) ((==_iff k k).1 refl)

-- A processor whose run queue is well formed takes the first task in the order of it, the more
-- urgent levels first, leaves it well formed, and takes none only when there is none. The task is
-- the first of the level that it is taken from, above which all levels are empty; its new level is
-- that one less one for each 200 ticks since it became ready, at least 0, and its slice is that of
-- the new level. The others stay in their order and as they were.
pub rq_dequeue-in_order :
    (m : Manager) (cpu now : ℕ)
    → IsRunqueue (m.rq cpu)
    → ((in_order (m.rq cpu) ≡ []) × (rq_dequeue m cpu now ≡ (none, m)))
      ⊎ ((t : ℕ) × (l : ℕ) × (m' : Manager) × IsDequeued m cpu now t l m')
unfolding rq_dequeue dequeued boosted without
rq_dequeue-in_order m cpu now v = elim (pop-in_order (m.rq cpu) v) [
  | inl e ↦ inl (e.0, ap (dequeued m cpu now) e.1)
  | inr (t, l, rest, rq', p) ↦ inr (
    t,
    l,
    update_rq (update m t (boosted now l (m.task t))) cpu rq',
    record {
      result = ap (dequeued m cpu now) p.popped;
      order = p.order ∙ ap (λ rq. t ∷ in_order rq) (sym (at_level-here cpu m.rq rq'));
      level = p.at_most;
      from_level =
          p.first
          ∙ ap (λ q. t ∷ q)
              (sym (
                ap (λ rq. rq.queue l) (at_level-here cpu m.rq rq' ∙ p.left)
                ∙ at_level-here l (m.rq cpu).queue rest));
      urgent = p.urgent;
      aged = rw (at_level-here t m.task (boosted now l (m.task t))) (ground arith);
      others = λ u ne. if_false (u == t) _ _ (ground (arith, ne));
      slice = rw (at_level-here t m.task (boosted now l (m.task t))) refl;
      valid = rw (at_level-here cpu m.rq rq') p.valid;
    },
  )
]
