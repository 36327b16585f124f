-- ===== src/Kernel/Scheduler/Tests.antt =====
-- The theorems on the run queues of `kernel/multitask.c` at two tasks.
use johnbeauty_os.Prelude.{ℕ, ◌≡◌, ◌⊎◌, refl, false, none, some, [], arith, ltb, if◌then◌else◌}
use johnbeauty_os.Kernel.Sync.{ready}
use johnbeauty_os.Kernel.Scheduler.{
  Task, Manager, clamp_pri, push, manager_init, rq_enqueue, rq_dequeue, dequeued, pop, pop_level,
  ctz_from,
}
use johnbeauty_os.Kernel.Scheduler.Switch.{enqueue_ready, is_ready}
use johnbeauty_os.Kernel.Scheduler.Levels.{IsRunqueue, in_order}
use johnbeauty_os.Kernel.Scheduler.Order.{IsDequeued, rq_dequeue-in_order}
use johnbeauty_os.Kernel.Scheduler.Ready.{IsScheduler}
use johnbeauty_os.Kernel.Scheduler.Runs.{Run, start, came, chosen, Run-IsScheduler}

abbrev some_task : ℕ → Task
some_task t = record {
  status = ready;
  sleeping = false;
  yield = false;
  exit_code = 0;
  waiting_pid = 0;
  priority = if ltb t 2 then 2 else 1;
  remain_slice = 4;
  default_slice = 4;
  last_ready_tick = 100;
  cpu = 0;
  linked = false;
}

-- Task 1 comes, then the more urgent task 2, and the first of the two is chosen.
abbrev two_tasks : Manager
two_tasks = enqueue_ready (enqueue_ready (manager_init some_task) 1) 2

came_2 : Run some_task 2 two_tasks
unfolding manager_init enqueue_ready is_ready rq_enqueue
came_2 = came 2 (came 1 (start (λ u. refl)) refl) refl

Run-IsScheduler_example : IsScheduler 3 (rq_dequeue two_tasks 0 150).1
Run-IsScheduler_example = Run-IsScheduler some_task (chosen 0 150 came_2) (omega arith)

two_tasks-IsRunqueue : IsRunqueue (two_tasks.rq 0)
two_tasks-IsRunqueue = (Run-IsScheduler some_task came_2 (omega arith)).0.queues 0

rq_dequeue-in_order_example :
    ((in_order (two_tasks.rq 0) ≡ []) × (rq_dequeue two_tasks 0 150 ≡ (none, two_tasks)))
    ⊎ ((t : ℕ) × (l : ℕ) × (m' : Manager) × IsDequeued two_tasks 0 150 t l m')
rq_dequeue-in_order_example = rq_dequeue-in_order two_tasks 0 150 two_tasks-IsRunqueue

-- The more urgent task, which came later, runs first.
urgent_first : (rq_dequeue two_tasks 0 150).0 ≡ some 2
unfolding rq_dequeue dequeued pop enqueue_ready is_ready manager_init rq_enqueue push clamp_pri
    pop_level ctz_from
urgent_first = refl
