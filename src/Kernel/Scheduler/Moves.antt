-- ===== src/Kernel/Scheduler/Moves.antt =====
-- The run queues of `kernel/multitask.c` through the changes of a task's status: who is linked where, and
-- that only ready tasks wait for a processor.
use johnbeauty_os.Prelude.{
  ℕ, ◌≡◌, ◌∙◌, refl, sym, ap, Bool, true, false, ◌&&◌, ◌||◌, List, ◌∷◌, ◌==◌, arith, length,
  if◌then◌else◌, if_intro, ==_iff, inl, inr, ap₂,
}
use mathlib.Core.Path.{subst}
use johnbeauty_os.Prelude.Members.{has, Distinct}
use johnbeauty_os.Kernel.Scheduler.{
  Task, Runqueue, Manager, clamp_pri, without, update, update_rq, boosted, dequeued, rq_dequeue,
}
use johnbeauty_os.Kernel.Scheduler.Order.{IsPop, pop-in_order}
use johnbeauty_os.Kernel.Scheduler.Linked.{linked_at, IsManager, change-IsManager, self_true}

heads : (x a b : Bool) → (x && (a && b)) ≡ true → (a ≡ true) × (b ≡ true)
heads x a b h = (ground (arith, h), ground (arith, h))

linked_first : (x a b : Bool) → (x && (a && b)) ≡ true → x ≡ true
linked_first x a b h = ground (arith, h)

-- The first task of a level that it was taken from.
module _ (n : ℕ) (m : Manager) (cpu t l : ℕ) (rest : List ℕ) (rq' : Runqueue) (v : IsManager n m)
    (p : IsPop (m.rq cpu) t l rest rq') where
  was_here : linked_at (m.task t) cpu l ≡ true
  unfolding has
  was_here =
      sym (v.places cpu l t p.at_most)
      ∙ ap (has t) p.first
      ∙ ap (λ b. b || has t rest) (self_true t)

  was_at : (c k : ℕ) → linked_at (m.task t) c k ≡ ((m.task t).linked && (c == cpu && k == l))
  was_at c k =
      let task = m.task t in
      let (same_cpu, same_level) =
        heads task.linked (cpu == task.cpu) (l == clamp_pri task.priority) was_here in
      ap₂ (λ x y. task.linked && (c == x && k == y)) (sym ((==_iff cpu task.cpu).0 same_cpu))
        (sym ((==_iff l (clamp_pri task.priority)).0 same_level))

  apart_once : Distinct (t ∷ rest)
  apart_once = subst Distinct p.first (v.once cpu l p.at_most)

  rest_holds : (u : ℕ) → has u rest ≡ (if u == t then false else has u ((m.rq cpu).queue l))
  unfolding has Distinct
  rest_holds u =
      if_intro (λ b. has u rest ≡ b) (u == t) _ _
        (λ e. ap (λ w. has w rest) ((==_iff u t).0 e) ∙ apart_once.0)
        (λ e. sym (ap (has u) p.first ∙ ap (λ b. b || has u rest) e))

  pub popped-IsManager :
      (T : Task) → T.linked ≡ false → IsManager n (update_rq (update m t T) cpu rq')
  unfolding without Distinct
  popped-IsManager T off =
      change-IsManager m t cpu l rest T rq' n n v p.at_most (λ k. ap (λ r. r.queue k) p.left)
        (λ u. rest_holds u ∙ ap (λ b. if u == t then b else has u ((m.rq cpu).queue l)) (sym off))
        (λ c k.
          ap (λ b. b && (c == T.cpu && k == clamp_pri T.priority)) off
          ∙ ap (λ b. b && (c == cpu && k == l)) (sym off))
        was_at p.valid apart_once.1 (omega (arith, ap length p.first, v.short cpu l p.at_most))
        (omega arith)

  -- It was in the run queue.
  pub popped-linked : (m.task t).linked ≡ true
  popped-linked =
      linked_first (m.task t).linked (cpu == (m.task t).cpu) (l == clamp_pri (m.task t).priority)
        was_here

pub rq_dequeue-IsManager :
    (n : ℕ) (m : Manager) (cpu now : ℕ) → IsManager n m → IsManager n (rq_dequeue m cpu now).1
unfolding rq_dequeue dequeued boosted
rq_dequeue-IsManager n m cpu now v = elim (pop-in_order (m.rq cpu) (v.queues cpu)) [
  | inl e ↦ rw e.1 v
  | inr (t, l, rest, rq', p) ↦
      rw p.popped (popped-IsManager n m cpu t l rest rq' v p (boosted now l (m.task t)) refl)
]
