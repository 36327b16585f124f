-- ===== src/Kernel/Scheduler.antt =====
-- The run queues of the scheduler, `kernel/multitask.c`: four levels for each processor, the most
-- urgent first. A task is a number; `linked` is what `task_on_rq` reads off its list node. What runs
-- under the lock of a run queue is one step; the ticks of the clock are an argument. The status of a
-- task is that of `Kernel/Sync`.
pub mod Mask
pub mod Levels
pub mod Switch
pub mod Order
pub mod Linked
pub mod Moves
pub mod Ready
pub mod Steps
pub mod Runs
mod Tests
use johnbeauty_os.Prelude.{
  ℕ, zero, suc, ◌+◌, ◌-◌, ◌*◌, ◌/◌, ◌^◌, Bool, true, false, not, ◌&&◌, ◌||◌, Option, none, some,
  List, [], ◌∷◌, ◌++◌, ◌==◌, ltb, leb, if◌then◌else◌, add32, sub32,
}
use Prim.Native.Nat.{bit_and, bit_or}
use johnbeauty_os.Dsa.List.{unlink}
use johnbeauty_os.Kernel.Sync.{Status, ready, running, blocked, waiting, zombie, is_blocked}

abbrev pub levels : ℕ
levels = 4

abbrev pub aging_ticks : ℕ
aging_ticks = 200

pub record Task : Type 0 where
  pub status : Status
  pub sleeping : Bool
  pub yield : Bool
  pub exit_code : ℕ
  pub waiting_pid : ℕ
  pub priority : ℕ
  pub remain_slice : ℕ
  pub default_slice : ℕ
  pub last_ready_tick : ℕ
  pub cpu : ℕ
  pub linked : Bool

pub record Runqueue : Type 0 where
  pub queue : ℕ → List ℕ
  pub count : ℕ → ℕ
  pub nonempty : ℕ

pub record Manager : Type 0 where
  pub task : ℕ → Task
  pub rq : ℕ → Runqueue

unfoldable pub runqueue_init : Runqueue
runqueue_init = record { queue = λ _. []; count = λ _. 0; nonempty = 0 }

-- The run queues of `jlos_task_manager_init`.
unfoldable pub manager_init : (ℕ → Task) → Manager
unfolding runqueue_init
manager_init task = record { task = task; rq = λ _. runqueue_init }

unfoldable pub clamp_pri : ℕ → ℕ
clamp_pri p = if ltb p levels then p else levels - 1

abbrev pub test_bit : ℕ → ℕ → Bool
test_bit n l = not (bit_and n (2 ^ l) == 0)

abbrev pub set_bit : ℕ → ℕ → ℕ
set_bit n l = bit_or n (2 ^ l)

abbrev pub clear_bit : ℕ → ℕ → ℕ
clear_bit n l = bit_and n (2 ^ 32 - 1 - 2 ^ l)

-- `__builtin_ctz`: the lowest bit that is set, looked for from bit `l` on.
unfoldable pub ctz_from : ℕ → ℕ → ℕ → ℕ
ctz_from zero l n = l
ctz_from (suc rounds) l n =
    let above = ctz_from rounds (suc l) n in if test_bit n l then l else above

abbrev pub ctz : ℕ → ℕ
ctz n = ctz_from 32 0 n

abbrev pub at_level {ℓ} : {A : Type ℓ} → (ℕ → A) → ℕ → A → ℕ → A
at_level f l a k = if k == l then a else f k

unfoldable pub push : Runqueue → ℕ → ℕ → Runqueue
push rq level t = record {
  queue = at_level rq.queue level (rq.queue level ++ (t ∷ []));
  count = at_level rq.count level (add32 (rq.count level) 1);
  nonempty = set_bit rq.nonempty level;
}

-- A node less at a level, of which `rest` are left.
unfoldable pub without : Runqueue → ℕ → List ℕ → Runqueue
without rq level rest =
    let left = sub32 (rq.count level) 1 in
    record {
      queue = at_level rq.queue level rest;
      count = at_level rq.count level left;
      nonempty = if left == 0 then clear_bit rq.nonempty level else rq.nonempty;
    }

-- The first node of a level, which the mask says is there.
unfoldable pub pop_level : Runqueue → ℕ → List ℕ → Option (ℕ × ℕ × Runqueue)
pop_level rq level [] = none
pop_level rq level (t ∷ rest) = some (t, level, without rq level rest)

-- The first task of the most urgent level, with its level.
unfoldable pub pop : Runqueue → Option (ℕ × ℕ × Runqueue)
pop rq =
    let level = ctz rq.nonempty in
    if rq.nonempty == 0 then none else pop_level rq level (rq.queue level)

abbrev pub update : Manager → ℕ → Task → Manager
update m t task = record m { task = at_level m.task t task }

abbrev pub update_rq : Manager → ℕ → Runqueue → Manager
update_rq m cpu rq = record m { rq = at_level m.rq cpu rq }

unfoldable pub rq_enqueue : Manager → ℕ → Manager
rq_enqueue m t =
    let cpu = (m.task t).cpu in
    let rq = push (m.rq cpu) (clamp_pri (m.task t).priority) t in
    update_rq (update m t (record (m.task t) { linked = true })) cpu rq

-- The task taken from `level` is moved up a level for each 200 ticks that it was ready.
unfoldable pub boosted : ℕ → ℕ → Task → Task
boosted now level task =
    let aged = sub32 now task.last_ready_tick / aging_ticks in
    let boost = if ltb aged level then aged else level in
    record task {
      linked = false;
      priority = level - boost;
      default_slice = 2 * 2 ^ (level - boost);
      last_ready_tick = now;
    }

unfoldable pub dequeued : Manager → ℕ → ℕ → Option (ℕ × ℕ × Runqueue) → Option ℕ × Manager
dequeued m cpu now none = (none, m)
dequeued m cpu now (some (t, level, rq)) =
    (some t, update_rq (update m t (boosted now level (m.task t))) cpu rq)

unfoldable pub rq_dequeue : Manager → ℕ → ℕ → Option ℕ × Manager
rq_dequeue m cpu now = dequeued m cpu now (pop (m.rq cpu))

unfoldable pub rq_remove_specific : Manager → ℕ → Manager
rq_remove_specific m t =
    let task = m.task t in
    let l = clamp_pri task.priority in
    let rq = m.rq task.cpu in
    if not task.linked
    then m
    else update_rq (update m t (record task { linked = false })) task.cpu
        (without rq l (unlink t (rq.queue l)))
