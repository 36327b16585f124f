-- ===== src/Kernel/Sync/Conditions.antt =====
-- The condition variables of `kernel/sync.c`: whom they wake, and that no wake-up is lost between the
-- release of the mutex and the sleep.
use johnbeauty_os.Prelude.{ℕ, ◌≡◌, refl, some, List, [], ◌∷◌, arith, ◌==◌, if◌then◌else◌}
use johnbeauty_os.Kernel.Sync.{
  Status, ready, running, blocked, waiting, zombie, Tasks, set_status, is_blocked, task_wakeup,
  wake_first, cond_broadcast,
}
use johnbeauty_os.Prelude.Members.{has}

-- What a wake-up makes of a task's status.
unfoldable pub stirred : Status → Status
stirred blocked = ready
stirred status = status

stirred_twice : (status : Status) → stirred (stirred status) ≡ stirred status
unfolding stirred
stirred_twice ready = refl
stirred_twice running = refl
stirred_twice blocked = refl
stirred_twice waiting = refl
stirred_twice zombie = refl

stirred_lem : (status : Status) → (if is_blocked status then ready else status) ≡ stirred status
unfolding stirred is_blocked
stirred_lem ready = refl
stirred_lem running = refl
stirred_lem blocked = refl
stirred_lem waiting = refl
stirred_lem zombie = refl

wake_first-status :
    (tasks : Tasks) (t u : ℕ)
    → wake_first tasks (some t) u ≡ (if u == t then stirred (tasks u) else tasks u)
unfolding wake_first task_wakeup set_status
wake_first-status tasks t u = grind (arith, stirred_lem (tasks t), stirred_lem (tasks u))

-- A broadcast empties the queue and makes ready the blocked tasks of it; every other task keeps its
-- status.
broadcast-status :
    (queue : List ℕ) (tasks : Tasks)
    → let (queue', tasks') = cond_broadcast queue tasks in
      (queue' ≡ []) × ((u : ℕ) → tasks' u ≡ (if has u queue then stirred (tasks u) else tasks u))
unfolding cond_broadcast has
broadcast-status [] tasks = (refl, λ u. refl)
broadcast-status (t ∷ queue) tasks =
    let (gone, rest) = broadcast-status queue (wake_first tasks (some t)) in
    (gone, λ u. grind (arith, rest u, wake_first-status tasks t u, stirred_twice (tasks u)))
