-- ===== src/Kernel/Sync.antt =====
-- `kernel/sync.c`: semaphores, mutexes and condition variables. Every body runs between
-- `jlos_spin_lock_irqsave` and `jlos_spin_unlock_irqrestore`, so a call is one step. A task is its
-- number; its status is what `jlos_task_set_blocked` and `jlos_task_wakeup` of `kernel/multitask.c`
-- make of it, of which the run queue and the sleep timer are left out. `none` as the current task is
-- the null of `jlos_hal_current_task`.
pub mod Queue
pub mod Semaphores
pub mod Mutexes
pub mod Conditions
mod Tests
use johnbeauty_os.Prelude.{
  ℕ, ◌+◌, ◌^◌, Bool, true, false, not, ◌&&◌, Option, none, some, List, [], ◌∷◌, ◌++◌, ◌==◌, ltb,
  if◌then◌else◌, add32, sub32,
}

pub data Status : Type 0 where
  ready : Status
  running : Status
  blocked : Status
  waiting : Status
  zombie : Status

abbrev pub Tasks : Type 0
Tasks = ℕ → Status

unfoldable pub set_status : Tasks → ℕ → Status → Tasks
set_status tasks t status = λ u. if u == t then status else tasks u

-- `if (wait && wait->status == JLOS_TASK_BLOCKED)`.
unfoldable pub is_blocked : Status → Bool
is_blocked blocked = true
is_blocked _ = false

-- `jlos_task_wakeup`: only a blocked task becomes ready.
unfoldable pub task_wakeup : Tasks → ℕ → Tasks
unfolding is_blocked set_status
task_wakeup tasks t = if is_blocked (tasks t) then set_status tasks t ready else tasks

unfoldable pub wait_enqueue : List ℕ → ℕ → List ℕ
wait_enqueue queue t = queue ++ (t ∷ [])

unfoldable pub wait_dequeue : List ℕ → Option ℕ × List ℕ
wait_dequeue [] = (none, [])
wait_dequeue (t ∷ queue) = (some t, queue)

-- `resource_count` is the word that holds the `int32_t`.
pub record Semaphore : Type 0 where
  pub resource_count : ℕ
  pub wait_queue : List ℕ

unfoldable pub semaphore_init : ℕ → Semaphore
semaphore_init init_count = record { resource_count = init_count; wait_queue = [] }

unfoldable pub semaphore_wait : Semaphore → Tasks → Option ℕ → Semaphore × Tasks
unfolding wait_enqueue set_status
semaphore_wait sem tasks none = (sem, tasks)
semaphore_wait sem tasks (some t) =
    let count = sub32 sem.resource_count 1 in
    if ltb count (2 ^ 31) then (record sem { resource_count = count }, tasks) else (
      record { resource_count = count; wait_queue = wait_enqueue sem.wait_queue t },
      set_status tasks t blocked,
    )

-- The waking of the first waiter, where there is one and it is blocked.
unfoldable pub wake_first : Tasks → Option ℕ → Tasks
unfolding is_blocked task_wakeup
wake_first tasks none = tasks
wake_first tasks (some t) = if is_blocked (tasks t) then task_wakeup tasks t else tasks

unfoldable pub semaphore_post : Semaphore → Tasks → Semaphore × Tasks
unfolding wait_dequeue wake_first
semaphore_post sem tasks =
    let count = add32 sem.resource_count 1 in
    let (first, rest) = wait_dequeue sem.wait_queue in
    if ltb count (2 ^ 31) && not (count == 0)
    then (record sem { resource_count = count }, tasks)
    else (record { resource_count = count; wait_queue = rest }, wake_first tasks first)

pub record Mutex : Type 0 where
  pub locked : ℕ
  pub owner : Option ℕ
  pub recursion : ℕ
  pub wait_queue : List ℕ

unfoldable pub mutex_init : Mutex
mutex_init = record { locked = 0; owner = none; recursion = 0; wait_queue = [] }

unfoldable pub owns : Option ℕ → ℕ → Bool
owns none t = false
owns (some o) t = o == t

unfoldable pub mutex_lock : Mutex → Tasks → Option ℕ → Mutex × Tasks
unfolding wait_enqueue set_status owns
mutex_lock mutex tasks none = (mutex, tasks)
mutex_lock mutex tasks (some t) =
    if owns mutex.owner t
    then (record mutex { recursion = add32 mutex.recursion 1 }, tasks)
    else if mutex.locked == 0
    then (record mutex { locked = 1; owner = some t; recursion = 1 }, tasks)
    else (record mutex { wait_queue = wait_enqueue mutex.wait_queue t }, set_status tasks t blocked)

-- The handing over of a mutex that was let go to the waiter taken from its queue.
unfoldable pub hand_over : Mutex → Tasks → Option ℕ → Mutex × Tasks
unfolding is_blocked task_wakeup
hand_over mutex tasks none = (mutex, tasks)
hand_over mutex tasks (some w) =
    if is_blocked (tasks w)
    then (record mutex { locked = 1; owner = some w; recursion = 1 }, task_wakeup tasks w)
    else (mutex, tasks)

unfoldable pub mutex_unlock : Mutex → Tasks → Option ℕ → Mutex × Tasks
unfolding wait_dequeue hand_over owns
mutex_unlock mutex tasks none = (mutex, tasks)
mutex_unlock mutex tasks (some t) =
    let left = sub32 mutex.recursion 1 in
    let (first, rest) = wait_dequeue mutex.wait_queue in
    if not (owns mutex.owner t)
    then (mutex, tasks)
    else if not (left == 0)
    then (record mutex { recursion = left }, tasks)
    else hand_over (record { locked = 0; owner = none; recursion = left; wait_queue = rest }) tasks
        first

-- `jlos_cond_t` is its wait queue. `cond_wait` up to the call of the scheduler, behind which the task
-- calls `mutex_lock` again.
unfoldable pub cond_init : List ℕ
cond_init = []

unfoldable pub cond_wait : List ℕ → Mutex → Tasks → Option ℕ → List ℕ × Mutex × Tasks
unfolding wait_enqueue set_status
cond_wait queue mutex tasks none = (queue, mutex, tasks)
cond_wait queue mutex tasks (some t) =
    let (mutex', tasks') = mutex_unlock mutex (set_status tasks t blocked) (some t) in
    (wait_enqueue queue t, mutex', tasks')

unfoldable pub cond_signal : List ℕ → Tasks → List ℕ × Tasks
unfolding wait_dequeue wake_first
cond_signal queue tasks = let (first, rest) = wait_dequeue queue in (rest, wake_first tasks first)

-- The loop of `jlos_cond_broadcast` leaves the queue empty.
unfoldable pub cond_broadcast : List ℕ → Tasks → List ℕ × Tasks
unfolding wake_first
cond_broadcast [] tasks = ([], tasks)
cond_broadcast (t ∷ queue) tasks = cond_broadcast queue (wake_first tasks (some t))
