-- ===== src/Kernel/Scheduler/Ready.antt =====
-- Only ready tasks are in the run queues of `kernel/multitask.c`, through each change of a status.
use johnbeauty_os.Prelude.{
  ℕ, suc, ◌-◌, ◌^◌, ◌<◌, ◌≡◌, ◌∙◌, refl, sym, ap, true, false, not, ◌&&◌, ◌==◌, ltb, arith,
  if_intro, if_false, ==_iff, inl, inr, Bool-cases,
}
use johnbeauty_os.Kernel.Sync.{Status, ready, running, blocked, waiting, zombie, is_blocked}
use johnbeauty_os.Kernel.Scheduler.{
  levels, Task, Manager, clamp_pri, update, rq_enqueue, rq_remove_specific,
}
use johnbeauty_os.Kernel.Scheduler.Switch.{
  is_ready, is_running, set_ready, taken_off, set_blocked, made_ready, demoted, requeue_prev,
}
use johnbeauty_os.Kernel.Scheduler.Order.{at_level-here}
use johnbeauty_os.Kernel.Scheduler.Linked.{
  linked_at, IsManager, rq_enqueue-IsManager, rq_remove_specific-IsManager,
}

-- Only ready tasks are in a run queue.
abbrev pub OnlyReady : Manager → Type 0
OnlyReady m = (u : ℕ) → (m.task u).linked ≡ true → is_ready (m.task u).status ≡ true

abbrev pub IsScheduler : ℕ → Manager → Type 0
IsScheduler n m = IsManager n m × OnlyReady m

pub IsManager-more : (n : ℕ) (m : Manager) → IsManager n m → IsManager (suc n) m
IsManager-more n m v = record {
  queues = v.queues;
  places = v.places;
  once = v.once;
  short = λ c l h. omega (arith, v.short c l h);
}

-- A task changes in what does not say where it is linked.
pub update-IsManager :
    (n : ℕ) (m : Manager) (t : ℕ) (T : Task)
    → IsManager n m
    → ((c l : ℕ) → linked_at (m.task t) c l ≡ linked_at T c l)
    → IsManager n (update m t T)
update-IsManager n m t T v same = record {
  queues = v.queues;
  places = λ c l u h.
      v.places c l u h
      ∙ if_intro (λ y. linked_at (m.task u) c l ≡ linked_at y c l) (u == t) T (m.task u)
          (λ e. ap (λ w. linked_at (m.task w) c l) ((==_iff u t).0 e) ∙ same c l) (λ e. refl);
  once = v.once;
  short = v.short;
}

pub update-OnlyReady :
    (m : Manager) (t : ℕ) (T : Task)
    → OnlyReady m
    → (T.linked ≡ true → is_ready T.status ≡ true)
    → OnlyReady (update m t T)
update-OnlyReady m t T w h u =
    if_intro (λ y. y.linked ≡ true → is_ready y.status ≡ true) (u == t) T (m.task u) (λ e. h)
      (λ e. w u)

pub rq_enqueue-IsScheduler :
    (n : ℕ) (m : Manager) (t : ℕ)
    → IsScheduler n m
    → n < 2 ^ 32 - 2
    → (m.task t).linked ≡ false
    → is_ready (m.task t).status ≡ true
    → IsScheduler (suc n) (rq_enqueue m t)
unfolding rq_enqueue
rq_enqueue-IsScheduler n m t (v, w) room off r = (
  rq_enqueue-IsManager n m t v room off,
  update-OnlyReady m t (record (m.task t) { linked = true }) w (λ e. r),
)

-- What is no longer linked may have any status.
pub removed-OnlyReady :
    (m : Manager) (t : ℕ)
    → ((u : ℕ) → (u == t) ≡ false → (m.task u).linked ≡ true → is_ready (m.task u).status ≡ true)
    → OnlyReady (taken_off m t)
unfolding taken_off rq_remove_specific
removed-OnlyReady m t w =
    let T : Task = record (m.task t) { linked = false } in
    if_intro OnlyReady (m.task t).linked _ _
      (λ on.
        if_intro OnlyReady (not (m.task t).linked) _ _ (λ off. absurd (ground (arith, on, off)))
          (λ off u.
            if_intro (λ y. y.linked ≡ true → is_ready y.status ≡ true) (u == t) T (m.task u)
              (λ e h. absurd (ground (arith, h))) (λ e. w u e)))
      (λ off u. elim (Bool-cases (u == t)) [
        | inl e ↦
            λ h. absurd (ground (arith, h, ap (λ w. (m.task w).linked) ((==_iff u t).0 e), off))
        | inr e ↦ w u e
      ])

taken_off-IsManager : (n : ℕ) (m : Manager) (t : ℕ) → IsManager n m → IsManager n (taken_off m t)
unfolding taken_off
taken_off-IsManager n m t v =
    if_intro (IsManager n) (m.task t).linked _ _ (λ e. rq_remove_specific-IsManager n m t v)
      (λ e. v)

-- A task that leaves its run queue, if it is in one, for any status.
pub off-IsScheduler :
    (n : ℕ) (m : Manager) (t : ℕ) (T : Task)
    → IsScheduler n m
    → ((c l : ℕ) → linked_at (m.task t) c l ≡ linked_at T c l)
    → IsScheduler n (taken_off (update m t T) t)
off-IsScheduler n m t T (v, w) same = (
  taken_off-IsManager n (update m t T) t (update-IsManager n m t T v same),
  removed-OnlyReady (update m t T) t (λ u e. rw (if_false (u == t) T (m.task u) e) (w u)),
)

-- A task that was blocked is made ready.
blocked_off :
    (n : ℕ) (m : Manager) (t : ℕ)
    → IsScheduler n m
    → is_ready (m.task t).status ≡ false
    → (m.task t).linked ≡ false
blocked_off n m t (v, w) e = elim (Bool-cases (m.task t).linked) [
  | inl on ↦ absurd (ground (arith, w t on, e))
  | inr off ↦ off
]

not_ready : (s : Status) → is_blocked s ≡ true → is_ready s ≡ false
unfolding is_blocked is_ready
not_ready ready h = absurd (ground (arith, h))
not_ready running h = refl
not_ready blocked h = refl
not_ready waiting h = refl
not_ready zombie h = refl

running_only : (s : Status) → not (is_running s) ≡ false → is_ready s ≡ false
unfolding is_running is_ready
running_only ready h = absurd (ground (arith, h))
running_only running h = refl
running_only blocked h = refl
running_only waiting h = refl
running_only zombie h = refl

pub more-IsScheduler : (n : ℕ) (m : Manager) → IsScheduler n m → IsScheduler (suc n) m
more-IsScheduler n m (v, w) = (IsManager-more n m v, w)

-- A task that is in no run queue is changed to a ready one and put in one.
pub ready-IsScheduler :
    (n : ℕ) (m : Manager) (t : ℕ) (T : Task)
    → IsScheduler n m
    → n < 2 ^ 32 - 2
    → (m.task t).linked ≡ false
    → T.linked ≡ false
    → is_ready T.status ≡ true
    → IsScheduler (suc n) (rq_enqueue (update m t T) t)
ready-IsScheduler n m t T (v, w) room off off' r =
    let here = at_level-here t m.task T in
    rq_enqueue-IsScheduler n (update m t T) t
      (
        update-IsManager n m t T v (λ c l.
            ap (λ b. b && (c == (m.task t).cpu && l == clamp_pri (m.task t).priority)) off
            ∙ sym (ap (λ b. b && (c == T.cpu && l == clamp_pri T.priority)) off')),
        update-OnlyReady m t T w (λ e. r),
      )
      room (ap (λ y. y.linked) here ∙ off') (ap (λ y. is_ready y.status) here ∙ r)

pub made_ready-IsScheduler :
    (n : ℕ) (m : Manager) (t now : ℕ)
    → IsScheduler n m
    → n < 2 ^ 32 - 2
    → IsScheduler (suc n) (made_ready m t now)
unfolding made_ready set_ready is_ready
made_ready-IsScheduler n m t now i room =
    if_intro (IsScheduler (suc n)) (is_blocked (m.task t).status) _ _
      (λ e.
        let off = blocked_off n m t i (not_ready (m.task t).status e) in
        ready-IsScheduler n m t (set_ready now (m.task t)) i room off off refl)
      (λ e. more-IsScheduler n m i)

demoted-linked : (task : Task) → (demoted task).linked ≡ task.linked
unfolding demoted
demoted-linked task =
    if_intro {A = Task} (λ y. y.linked ≡ task.linked)
      (task.remain_slice == 0 && ltb task.priority (levels - 1)) _ _ (λ e. refl) (λ e. refl)

pub requeue_prev-IsScheduler :
    (n : ℕ) (m : Manager) (prev idle now : ℕ)
    → IsScheduler n m
    → n < 2 ^ 32 - 2
    → IsScheduler (suc n) (requeue_prev m prev idle now)
unfolding requeue_prev set_blocked set_ready demoted is_ready
requeue_prev-IsScheduler n m prev idle now i room =
    let task = m.task prev in
    let P : Manager → Type 0 = IsScheduler (suc n) in
    if_intro P (not (is_running task.status)) _ _ (λ e. more-IsScheduler n m i)
      (λ e.
        if_intro P task.sleeping _ _
          (λ e2.
            more-IsScheduler n _
              (off-IsScheduler n m prev (record task { status = blocked }) i (λ c l. refl)))
          (λ e2.
            if_intro P (prev == idle) _ _ (λ e3. more-IsScheduler n m i)
              (λ e3.
                let off = blocked_off n m prev i (running_only task.status e) in
                ready-IsScheduler n m prev (set_ready now (demoted task)) i room off
                  (demoted-linked task ∙ off) refl)))
