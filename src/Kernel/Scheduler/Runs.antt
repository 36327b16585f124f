-- ===== src/Kernel/Scheduler/Runs.antt =====
-- Every sequence of the steps of `kernel/multitask.c` on the run queues keeps them in order.
use johnbeauty_os.Prelude.{
  ℕ, suc, ◌-◌, ◌^◌, ◌<◌, ◌≡◌, refl, sym, ap, false, ◌&&◌, Option, ◌==◌, arith,
}
use johnbeauty_os.Kernel.Sync.{Status, blocked, zombie}
use johnbeauty_os.Prelude.Members.{has, Distinct}
use johnbeauty_os.Kernel.Scheduler.{
  Task, Manager, runqueue_init, manager_init, clamp_pri, update, rq_dequeue,
}
use johnbeauty_os.Kernel.Scheduler.Mask.{zero_bit}
use johnbeauty_os.Kernel.Scheduler.Switch.{
  set_running, set_blocked, set_zombie, set_waiting, enqueue_ready, sleep_expire, wakeup,
  requeue_prev, sched_balance,
}
use johnbeauty_os.Kernel.Scheduler.Ready.{
  IsScheduler, off-IsScheduler, more-IsScheduler, made_ready-IsScheduler, requeue_prev-IsScheduler,
}
use johnbeauty_os.Kernel.Scheduler.Steps.{
  rq_dequeue-IsScheduler, sched_balance-IsScheduler, awake-IsScheduler, wakeup-IsScheduler,
  set_waiting-IsScheduler, enqueue_ready-IsScheduler, run-IsScheduler,
}

-- The states that `n` steps lead to, from empty run queues: tasks put in for the first time, woken,
-- blocked, ended or waiting, sleepers whose timer ran out, the requeueing of the task that ran, the
-- balance between processors, the choice of the next task, and its start.
pub data Run (task : ℕ → Task) : ℕ → Manager → Type 0 where
  start : ((u : ℕ) → (task u).linked ≡ false) → Run task 0 (manager_init task)
  came :
      {n : ℕ} {m : Manager} (t : ℕ)
      → Run task n m
      → (m.task t).linked ≡ false
      → Run task (suc n) (enqueue_ready m t)
  woken : {n : ℕ} {m : Manager} (t now : ℕ) → Run task n m → Run task (suc n) (wakeup m t now)
  expired :
      {n : ℕ} {m : Manager} (t now : ℕ) → Run task n m → Run task (suc n) (sleep_expire m t now)
  was_blocked : {n : ℕ} {m : Manager} (t : ℕ) → Run task n m → Run task (suc n) (set_blocked m t)
  ended : {n : ℕ} {m : Manager} (t code : ℕ) → Run task n m → Run task (suc n) (set_zombie m t code)
  waited :
      {n : ℕ} {m : Manager} (t pid : ℕ) (target : Option Status)
      → Run task n m
      → Run task (suc n) (set_waiting m t pid target)
  requeued :
      {n : ℕ} {m : Manager} (prev idle now : ℕ)
      → Run task n m
      → Run task (suc n) (requeue_prev m prev idle now)
  balanced :
      {n : ℕ} {m : Manager} (cpu num_cpus : ℕ)
      → Run task n m
      → Run task (suc n) (sched_balance m cpu num_cpus)
  chosen :
      {n : ℕ} {m : Manager} (cpu now : ℕ) → Run task n m → Run task (suc n) (rq_dequeue m cpu now).1
  started :
      {n : ℕ} {m : Manager} (t : ℕ)
      → Run task n m
      → (m.task t).linked ≡ false
      → Run task (suc n) (update m t (set_running (m.task t)))

init-IsScheduler :
    (task : ℕ → Task) → ((u : ℕ) → (task u).linked ≡ false) → IsScheduler 0 (manager_init task)
unfolding manager_init runqueue_init has Distinct
init-IsScheduler task off = (
  record {
    queues = λ c. record { mask = omega arith; level = λ l h. (zero_bit l h, refl, omega arith) };
    places = λ c l t h.
        ap (λ b. b && (c == (task t).cpu && l == clamp_pri (task t).priority)) (sym (off t));
    once = λ c l h. tt;
    short = λ c l h. omega arith;
  },
  λ u h. absurd (ground (arith, h, off u)),
)

-- From empty run queues, any sequence of fewer than 2 ^ 32 - 2 steps leaves each task in at most one
-- place: a linked one in the queue of its processor at the level of its priority, once, and no other
-- in any; each count is the length of its queue, each mask has the bits of the levels that are not
-- empty, and only ready tasks are in a queue.
pub Run-IsScheduler :
    (task : ℕ → Task) {n : ℕ} {m : Manager} → Run task n m → n < 2 ^ 32 - 2 → IsScheduler n m
unfolding sleep_expire set_blocked set_zombie
Run-IsScheduler task (start off) h = init-IsScheduler task off
Run-IsScheduler task (came {n = n} {m = m} t r off) h =
    enqueue_ready-IsScheduler n m t (Run-IsScheduler task r (omega arith)) (omega arith) off
Run-IsScheduler task (woken {n = n} {m = m} t now r) h =
    wakeup-IsScheduler n m t now (Run-IsScheduler task r (omega arith)) (omega arith)
Run-IsScheduler task (expired {n = n} {m = m} t now r) h =
    made_ready-IsScheduler n _ t now
      (awake-IsScheduler n m t (Run-IsScheduler task r (omega arith))) (omega arith)
Run-IsScheduler task (was_blocked {n = n} {m = m} t r) h = more-IsScheduler n _ (
    off-IsScheduler n m t (record (m.task t) { status = blocked })
      (Run-IsScheduler task r (omega arith)) (λ c l. refl))
Run-IsScheduler task (ended {n = n} {m = m} t code r) h = more-IsScheduler n _ (
    off-IsScheduler n m t (record (m.task t) { status = zombie; exit_code = code })
      (Run-IsScheduler task r (omega arith)) (λ c l. refl))
Run-IsScheduler task (waited {n = n} {m = m} t pid target r) h =
    more-IsScheduler n _
      (set_waiting-IsScheduler n m t pid target (Run-IsScheduler task r (omega arith)))
Run-IsScheduler task (requeued {n = n} {m = m} prev idle now r) h =
    requeue_prev-IsScheduler n m prev idle now (Run-IsScheduler task r (omega arith)) (omega arith)
Run-IsScheduler task (balanced {n = n} {m = m} cpu num_cpus r) h =
    sched_balance-IsScheduler n m cpu num_cpus (Run-IsScheduler task r (omega arith)) (omega arith)
Run-IsScheduler task (chosen {n = n} {m = m} cpu now r) h =
    more-IsScheduler n _ (rq_dequeue-IsScheduler n m cpu now (Run-IsScheduler task r (omega arith)))
Run-IsScheduler task (started {n = n} {m = m} t r off) h =
    more-IsScheduler n _ (run-IsScheduler n m t (Run-IsScheduler task r (omega arith)) off)
