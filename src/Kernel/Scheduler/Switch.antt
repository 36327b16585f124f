-- ===== src/Kernel/Scheduler/Switch.antt =====
-- The changes of a task's status in `kernel/multitask.c`, and the choice of the next task in
-- `jlos_task_manager_schedule`. The zombies that it frees and the sleepers that it wakes stand in
-- other parts; what follows the choice is the switch of the processor.
use johnbeauty_os.Prelude.{
  ℕ, zero, suc, ◌-◌, ◌*◌, ◌^◌, Bool, true, false, not, ◌&&◌, ◌||◌, Option, none, some, ◌==◌, ltb,
  leb, if◌then◌else◌, add32,
}
use johnbeauty_os.Kernel.Sync.{Status, ready, running, blocked, waiting, zombie, is_blocked}
use johnbeauty_os.Kernel.Scheduler.{
  levels, Task, Runqueue, Manager, update, update_rq, pop, rq_enqueue, rq_dequeue,
  rq_remove_specific,
}

unfoldable pub set_ready : ℕ → Task → Task
set_ready now task = record task { status = ready; last_ready_tick = now; yield = false }

unfoldable pub set_running : Task → Task
set_running task = record task {
  status = running;
  remain_slice = task.default_slice;
  yield = false;
}

-- A task that is in a run queue is taken out of it.
unfoldable pub taken_off : Manager → ℕ → Manager
taken_off m t = if (m.task t).linked then rq_remove_specific m t else m

unfoldable pub set_blocked : Manager → ℕ → Manager
set_blocked m t = taken_off (update m t (record (m.task t) { status = blocked })) t

unfoldable pub set_zombie : Manager → ℕ → ℕ → Manager
set_zombie m t exit_code =
    taken_off (update m t (record (m.task t) { status = zombie; exit_code = exit_code })) t

unfoldable pub is_zombie : Option Status → Bool
is_zombie (some zombie) = true
is_zombie _ = false

-- The task waits for the task of the number `pid`, of which `target` is the status, if it exists.
unfoldable pub set_waiting : Manager → ℕ → ℕ → Option Status → Manager
set_waiting m t pid target =
    if is_zombie target
    then m
    else taken_off (update m t (record (m.task t) { status = waiting; waiting_pid = pid })) t

unfoldable pub is_ready : Status → Bool
is_ready ready = true
is_ready _ = false

unfoldable pub is_running : Status → Bool
is_running running = true
is_running _ = false

-- `jlos_task_manager_enqueue`.
unfoldable pub enqueue_ready : Manager → ℕ → Manager
enqueue_ready m t = if is_ready (m.task t).status then rq_enqueue m t else m

-- A blocked task is made ready and put in its run queue.
unfoldable pub made_ready : Manager → ℕ → ℕ → Manager
made_ready m t now =
    if is_blocked (m.task t).status then rq_enqueue (update m t (set_ready now (m.task t))) t else m

-- The timer of a sleeping task ran out, or the task is woken; the removal of the timer is another
-- part's.
unfoldable pub sleep_expire : Manager → ℕ → ℕ → Manager
sleep_expire m t now = made_ready (update m t (record (m.task t) { sleeping = false })) t now

unfoldable pub wakeup : Manager → ℕ → ℕ → Manager
wakeup m t now =
    let awake : Task = record (m.task t) { sleeping = false } in
    made_ready (if (m.task t).sleeping then update m t awake else m) t now

-- A task that used up its slice goes down a level.
unfoldable pub demoted : Task → Task
demoted task =
    if task.remain_slice == 0 && ltb task.priority (levels - 1)
    then record task { priority = suc task.priority; default_slice = 2 * 2 ^ suc task.priority }
    else task

-- What happens to the task that was running, where `idle` is the idle task of its processor.
unfoldable pub requeue_prev : Manager → ℕ → ℕ → ℕ → Manager
requeue_prev m prev idle now =
    let task = m.task prev in
    if not (is_running task.status)
    then m
    else if task.sleeping
    then set_blocked m prev
    else if prev == idle
    then m
    else rq_enqueue (update m prev (set_ready now (demoted task))) prev

unfoldable pub rq_task_count : Manager → ℕ → ℕ
rq_task_count m cpu =
    let count = (m.rq cpu).count in
    add32 (add32 (add32 (add32 0 (count 0)) (count 1)) (count 2)) (count 3)

unfoldable pub stolen : Manager → ℕ → Option (ℕ × ℕ × Runqueue) → Option ℕ × Manager
stolen m cpu none = (none, m)
stolen m cpu (some (t, level, rq)) =
    (some t, update_rq (update m t (record (m.task t) { linked = false })) cpu rq)

unfoldable pub rq_steal_cpu : Manager → ℕ → Option ℕ × Manager
rq_steal_cpu m cpu = stolen m cpu (pop (m.rq cpu))

-- The search for the processor with the most tasks, from `c` on: its number and its tasks.
unfoldable pub busiest_from : Manager → ℕ → ℕ → ℕ → ℕ × ℕ → ℕ × ℕ
busiest_from m cpu c zero best = best
busiest_from m cpu c (suc n) best =
    let count = rq_task_count m c in
    let better = if not (c == cpu) && ltb best.1 count then (c, count) else best in
    busiest_from m cpu (suc c) n better

unfoldable pub moved_here : ℕ → Option ℕ × Manager → Manager
moved_here cpu (none, m) = m
moved_here cpu (some t, m) = rq_enqueue (update m t (record (m.task t) { cpu = cpu })) t

unfoldable pub sched_balance : Manager → ℕ → ℕ → Manager
sched_balance m cpu num_cpus =
    let best = busiest_from m cpu 0 num_cpus (cpu, 0) in
    if leb num_cpus 1 || best.0 == cpu || best.1 == 0
    then m
    else moved_here cpu (rq_steal_cpu m best.0)

abbrev pub or_idle : ℕ → Option ℕ × Manager → ℕ × Manager
or_idle idle (none, m) = (idle, m)
or_idle idle (some t, m) = (t, m)

-- The next task to run: one of this processor, one taken from the busiest other, or the idle task.
unfoldable pub pick_next : Manager → ℕ → ℕ → ℕ → ℕ → ℕ × Manager
pick_next m cpu num_cpus idle now = elim (rq_dequeue m cpu now).0 [
  | none ↦ or_idle idle (rq_dequeue (sched_balance m cpu num_cpus) cpu now)
  | some t ↦ (t, (rq_dequeue m cpu now).1)
]

-- `jlos_task_manager_curr_task_on_tick`: the slice of the running task, `none` for the idle one.
unfoldable pub on_tick : Manager → Option ℕ → ℕ → Option ℕ × Manager
on_tick m none idle = (none, m)
on_tick m (some curr) idle =
    let task = m.task curr in
    if curr == idle
    then (none, m)
    else if is_running task.status && ltb 0 task.remain_slice
    then (some curr, update m curr (record task { remain_slice = task.remain_slice - 1 }))
    else (some curr, m)

-- Does a tick of the clock schedule.
unfoldable pub reschedules : Bool → Bool → Option ℕ × Manager → Bool
reschedules preemptive need_resched (none, m) = true
reschedules preemptive need_resched (some curr, m) =
    need_resched
    || not (is_running (m.task curr).status)
    || preemptive && (m.task curr).remain_slice == 0

-- The requeueing of the task that ran and the choice of the next, which runs.
unfoldable pub schedule : Manager → ℕ → ℕ → ℕ → ℕ → ℕ → ℕ × Manager
schedule m prev cpu num_cpus idle now =
    let (next, m') = pick_next (requeue_prev m prev idle now) cpu num_cpus idle now in
    (next, update m' next (set_running (m'.task next)))
