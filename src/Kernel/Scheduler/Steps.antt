-- ===== src/Kernel/Scheduler/Steps.antt =====
-- The steps of `kernel/multitask.c` that choose, move and wake tasks keep the run queues in order.
use johnbeauty_os.Prelude.{
  ℕ, suc, ◌-◌, ◌^◌, ◌<◌, ◌≡◌, ◌∙◌, refl, ap, false, ◌||◌, Option, none, some, ◌==◌, leb, arith,
  if_intro, inl, inr,
}
use johnbeauty_os.Kernel.Sync.{Status, waiting}
use johnbeauty_os.Kernel.Scheduler.{
  Task, Runqueue, Manager, pop, update, update_rq, boosted, dequeued, rq_dequeue,
}
use johnbeauty_os.Kernel.Scheduler.Switch.{
  is_ready, set_running, set_waiting, is_zombie, enqueue_ready, wakeup, stolen, rq_steal_cpu,
  busiest_from, moved_here, sched_balance,
}
use johnbeauty_os.Kernel.Scheduler.Order.{pop-in_order, at_level-here}
use johnbeauty_os.Kernel.Scheduler.Linked.{IsManager}
use johnbeauty_os.Kernel.Scheduler.Moves.{rq_dequeue-IsManager, popped-IsManager, popped-linked}
use johnbeauty_os.Kernel.Scheduler.Ready.{
  OnlyReady, IsScheduler, update-IsManager, update-OnlyReady, off-IsScheduler, more-IsScheduler,
  made_ready-IsScheduler, rq_enqueue-IsScheduler, ready-IsScheduler,
}

dequeued-OnlyReady :
    (m : Manager) (cpu now : ℕ) (o : Option (ℕ × ℕ × Runqueue))
    → OnlyReady m
    → OnlyReady (dequeued m cpu now o).1
unfolding dequeued boosted
dequeued-OnlyReady m cpu now none w = w
dequeued-OnlyReady m cpu now (some (t, l, rq)) w =
    update-OnlyReady m t (boosted now l (m.task t)) w (λ h. absurd (ground (arith, h)))

pub rq_dequeue-IsScheduler :
    (n : ℕ) (m : Manager) (cpu now : ℕ) → IsScheduler n m → IsScheduler n (rq_dequeue m cpu now).1
unfolding rq_dequeue
rq_dequeue-IsScheduler n m cpu now (v, w) =
    (rq_dequeue-IsManager n m cpu now v, dequeued-OnlyReady m cpu now (pop (m.rq cpu)) w)

-- A task taken from the run queue of `from` goes to that of `cpu`.
stolen-IsScheduler :
    (n : ℕ) (m : Manager) (from cpu : ℕ)
    → IsScheduler n m
    → n < 2 ^ 32 - 2
    → IsScheduler (suc n) (moved_here cpu (rq_steal_cpu m from))
unfolding rq_steal_cpu stolen moved_here
stolen-IsScheduler n m from cpu (v, w) room = elim (pop-in_order (m.rq from) (v.queues from)) [
  | inl e ↦ rw e.1 (more-IsScheduler n m (v, w))
  | inr (t, l, rest, rq', p) ↦
      let task : Task = record (m.task t) { linked = false } in
      let m' : Manager = update_rq (update m t task) from rq' in
      let here = at_level-here t m.task task in
      let left : IsManager n m' = popped-IsManager n m from t l rest rq' v p task refl in
      let only : OnlyReady m' = update-OnlyReady m t task w (λ h. absurd (ground (arith, h))) in
      let was_ready = w t (popped-linked n m from t l rest rq' v p) in
      rw p.popped (
        ready-IsScheduler n m' t (record (m'.task t) { cpu = cpu }) (left, only) room
          (ap (λ y. y.linked) here) (ap (λ y. y.linked) here)
          (ap (λ y. is_ready y.status) here ∙ was_ready))
]

pub sched_balance-IsScheduler :
    (n : ℕ) (m : Manager) (cpu num_cpus : ℕ)
    → IsScheduler n m
    → n < 2 ^ 32 - 2
    → IsScheduler (suc n) (sched_balance m cpu num_cpus)
unfolding sched_balance
sched_balance-IsScheduler n m cpu num_cpus i room =
    let best = busiest_from m cpu 0 num_cpus (cpu, 0) in
    if_intro (IsScheduler (suc n)) (leb num_cpus 1 || best.0 == cpu || best.1 == 0) _ _
      (λ e. more-IsScheduler n m i) (λ e. stolen-IsScheduler n m best.0 cpu i room)

pub awake-IsScheduler :
    (n : ℕ) (m : Manager) (t : ℕ)
    → IsScheduler n m
    → IsScheduler n (update m t (record (m.task t) { sleeping = false }))
awake-IsScheduler n m t (v, w) = (
  update-IsManager n m t (record (m.task t) { sleeping = false }) v (λ c l. refl),
  update-OnlyReady m t (record (m.task t) { sleeping = false }) w (w t),
)

pub wakeup-IsScheduler :
    (n : ℕ) (m : Manager) (t now : ℕ)
    → IsScheduler n m
    → n < 2 ^ 32 - 2
    → IsScheduler (suc n) (wakeup m t now)
unfolding wakeup
wakeup-IsScheduler n m t now i room =
    made_ready-IsScheduler n _ t now
      (if_intro (IsScheduler n) (m.task t).sleeping _ _ (λ e. awake-IsScheduler n m t i) (λ e. i))
      room

pub set_waiting-IsScheduler :
    (n : ℕ) (m : Manager) (t pid : ℕ) (target : Option Status)
    → IsScheduler n m
    → IsScheduler n (set_waiting m t pid target)
unfolding set_waiting
set_waiting-IsScheduler n m t pid target i =
    if_intro (IsScheduler n) (is_zombie target) _ _ (λ e. i)
      (λ e.
        off-IsScheduler n m t (record (m.task t) { status = waiting; waiting_pid = pid }) i
          (λ c l. refl))

-- A ready task that is not linked is put in its run queue.
pub enqueue_ready-IsScheduler :
    (n : ℕ) (m : Manager) (t : ℕ)
    → IsScheduler n m
    → n < 2 ^ 32 - 2
    → (m.task t).linked ≡ false
    → IsScheduler (suc n) (enqueue_ready m t)
unfolding enqueue_ready
enqueue_ready-IsScheduler n m t i room off =
    if_intro (IsScheduler (suc n)) (is_ready (m.task t).status) _ _
      (λ e. rq_enqueue-IsScheduler n m t i room off e) (λ e. more-IsScheduler n m i)

pub run-IsScheduler :
    (n : ℕ) (m : Manager) (t : ℕ)
    → IsScheduler n m
    → (m.task t).linked ≡ false
    → IsScheduler n (update m t (set_running (m.task t)))
unfolding set_running
run-IsScheduler n m t (v, w) off = (
  update-IsManager n m t (set_running (m.task t)) v (λ c l. refl),
  update-OnlyReady m t (set_running (m.task t)) w (λ h. absurd (ground (arith, h, off))),
)
