-- ===== src/Kernel/Sync/Mutexes.antt =====
-- The mutexes of `kernel/sync.c` against a lock that its owner may take again and that goes from
-- hand to hand.
use johnbeauty_os.Prelude.{
  ℕ, zero, suc, ◌^◌, ◌<◌, ◌≡◌, ◌↔◌, refl, sym, Bool, true, false, some, none, List, [], ◌∷◌, ◌++◌,
  arith, ◌==◌, add32, sub32, if◌then◌else◌, if_intro,
}
use johnbeauty_os.Kernel.Sync.{
  ready, blocked, Tasks, set_status, is_blocked, task_wakeup, hand_over, Mutex, mutex_init,
  mutex_lock, mutex_unlock, owns, wait_enqueue, wait_dequeue,
}
use johnbeauty_os.Prelude.Members.{has, Distinct}
use johnbeauty_os.Kernel.Sync.Queue.{
  IsWaitQueue, first_blocked, enqueue-IsWaitQueue, dequeue-IsWaitQueue,
}

-- The contract: a lock that is free, or held by a task that has taken it once and `again` times more,
-- with the tasks that wait for it.
pub data Lock : Type 0 where
  free : Lock
  held : (owner again : ℕ) (waiters : List ℕ) → Lock

unfoldable pub acquire : ℕ → Lock → Lock
acquire t free = held t 0 []
acquire t (held o again ws) =
    if o == t then held o (suc again) ws else held o again (ws ++ (t ∷ []))

unfoldable pub hand_on : List ℕ → Lock
hand_on [] = free
hand_on (w ∷ ws) = held w 0 ws

unfoldable pub release : ℕ → Lock → Lock
unfolding hand_on
release t free = free
release t (held o zero ws) = if o == t then hand_on ws else held o zero ws
release t (held o (suc again) ws) = if o == t then held o again ws else held o (suc again) ws

unfoldable pub as_mutex : Lock → Mutex
as_mutex free = record { locked = 0; owner = none; recursion = 0; wait_queue = [] }
as_mutex (held o again ws) = record {
  locked = 1;
  owner = some o;
  recursion = suc again;
  wait_queue = ws;
}

-- The tasks beside a lock, after `n` calls: the blocked ones are the waiters, the owner is not
-- blocked, and no lock was taken more often than there were calls.
unfoldable pub IsServed : ℕ → Lock → Tasks → Type 0
IsServed n free tasks = IsWaitQueue tasks []
IsServed n (held o again ws) tasks =
    IsWaitQueue tasks ws × (is_blocked (tasks o) ≡ false) × (again < n)

not_blocked_by :
    (tasks : Tasks) (t o : ℕ)
    → (o == t) ≡ false
    → is_blocked (tasks o) ≡ false
    → is_blocked (set_status tasks t blocked o) ≡ false
unfolding set_status
not_blocked_by tasks t o ne awake = ground (arith, ne)

now_ready : (tasks : Tasks) (t : ℕ) → is_blocked (set_status tasks t ready t) ≡ false
unfolding set_status is_blocked
now_ready tasks t = ground arith

-- A branch of a call serves where both do.
if_serves :
    (n : ℕ) (b : Bool) (l l' : Lock) (tasks tasks' : Tasks)
    → (b ≡ true → IsServed n l tasks)
    → (b ≡ false → IsServed n l' tasks')
    → IsServed n (if b then l else l') (if b then tasks else tasks')
if_serves n true l l' tasks tasks' here there = here refl
if_serves n false l l' tasks tasks' here there = there refl

-- The tasks after a call of lock, and after one of unlock.
locked_tasks : ℕ → Lock → Tasks → Tasks
locked_tasks t free tasks = tasks
locked_tasks t (held o again ws) tasks = if o == t then tasks else set_status tasks t blocked

handed_tasks : List ℕ → Tasks → Tasks
handed_tasks [] tasks = tasks
handed_tasks (w ∷ ws) tasks = set_status tasks w ready

unlocked_tasks : ℕ → Lock → Tasks → Tasks
unfolding handed_tasks
unlocked_tasks t free tasks = tasks
unlocked_tasks t (held o zero ws) tasks = if o == t then handed_tasks ws tasks else tasks
unlocked_tasks t (held o (suc again) ws) tasks = tasks

lock_eq :
    (l : Lock) (tasks : Tasks) (t : ℕ) (n : ℕ)
    → suc n < 2 ^ 32
    → IsServed n l tasks
    → mutex_lock (as_mutex l) tasks (some t) ≡ (as_mutex (acquire t l), locked_tasks t l tasks)
unfolding mutex_lock as_mutex acquire locked_tasks owns wait_enqueue IsServed
lock_eq free tasks t n small s = refl
lock_eq (held o again ws) tasks t n small s =
    let same : add32 (suc again) 1 ≡ suc (suc again) = omega (arith, s.2) in ground (arith, same)

unlock_eq :
    (l : Lock) (tasks : Tasks) (t : ℕ) (n : ℕ)
    → suc n < 2 ^ 32
    → IsServed n l tasks
    → mutex_unlock (as_mutex l) tasks (some t) ≡ (as_mutex (release t l), unlocked_tasks t l tasks)
unfolding mutex_unlock as_mutex release owns hand_over hand_on wait_dequeue IsServed task_wakeup
    unlocked_tasks handed_tasks
unlock_eq free tasks t n small s = refl
unlock_eq (held o zero []) tasks t n small s = ground arith
unlock_eq (held o zero (x ∷ ws)) tasks t n small s =
    let b : is_blocked (tasks x) ≡ true = first_blocked tasks x ws s.0 in ground (arith, b)
unlock_eq (held o (suc again) ws) tasks t n small s =
    let same : sub32 (suc (suc again)) 1 ≡ suc again = omega (arith, s.2) in ground (arith, same)

lock_serves :
    (n : ℕ) (l : Lock) (tasks : Tasks) (t : ℕ)
    → IsServed n l tasks
    → is_blocked (tasks t) ≡ false
    → IsServed (suc n) (acquire t l) (locked_tasks t l tasks)
unfolding acquire locked_tasks IsServed
lock_serves n free tasks t s awake = (s, awake, omega arith)
lock_serves n (held o again ws) tasks t (w, up, lt) awake =
    if_serves (suc n) (o == t) _ _ _ _ (λ e. (w, up, omega arith))
      (λ e. (enqueue-IsWaitQueue tasks ws t w awake, not_blocked_by tasks t o e up, omega arith))

unlock_serves :
    (n : ℕ) (l : Lock) (tasks : Tasks) (t : ℕ)
    → IsServed n l tasks
    → IsServed (suc n) (release t l) (unlocked_tasks t l tasks)
unfolding release hand_on unlocked_tasks handed_tasks IsServed
unlock_serves n free tasks t s = s
unlock_serves n (held o zero []) tasks t (w, up, lt) =
    if_serves (suc n) (o == t) _ _ _ _ (λ e. w) (λ e. (w, up, omega arith))
unlock_serves n (held o zero (x ∷ ws)) tasks t (w, up, lt) =
    if_serves (suc n) (o == t) _ _ _ _
      (λ e. (dequeue-IsWaitQueue tasks ws x w, now_ready tasks x, omega arith))
      (λ e. (w, up, omega arith))
unlock_serves n (held o (suc again) ws) tasks t (w, up, lt) =
    if_intro (λ l. IsServed (suc n) l tasks) (o == t) (held o again ws) (held o (suc again) ws)
      (λ e. (w, up, omega arith)) (λ e. (w, up, omega arith))

-- The states that `n` calls lead to, with the lock beside them: tasks that are not blocked lock and
-- unlock.
pub data Run : ℕ → Lock → Mutex → Tasks → Type 0 where
  start : {tasks : Tasks} → ((u : ℕ) → is_blocked (tasks u) ≡ false) → Run 0 free mutex_init tasks
  locks :
      {n : ℕ} {l : Lock} {mutex : Mutex} {tasks : Tasks} (t : ℕ)
      → Run n l mutex tasks
      → is_blocked (tasks t) ≡ false
      → Run
          (suc n)
          (acquire t l)
          (mutex_lock mutex tasks (some t)).0
          (mutex_lock mutex tasks (some t)).1
  unlocks :
      {n : ℕ} {l : Lock} {mutex : Mutex} {tasks : Tasks} (t : ℕ)
      → Run n l mutex tasks
      → is_blocked (tasks t) ≡ false
      → Run
          (suc n)
          (release t l)
          (mutex_unlock mutex tasks (some t)).0
          (mutex_unlock mutex tasks (some t)).1

-- After fewer than 2 ^ 32 - 1 calls of lock and unlock by tasks that are not blocked, a mutex is the
-- one that the lock calls for: unlocked, it has no waiter; locked, its owner is not blocked, each
-- blocked task is queued once, and the one that has waited longest is the next owner.
pub Run-locks :
    {n : ℕ} {l : Lock} {mutex : Mutex} {tasks : Tasks}
    → Run n l mutex tasks
    → suc n < 2 ^ 32
    → (mutex ≡ as_mutex l) × IsServed n l tasks
unfolding mutex_init as_mutex IsServed has Distinct
Run-locks (start awake) small = (refl, record { inside = λ u. sym (awake u); once = tt })
Run-locks (locks {n = n} {l = l} {tasks = tasks} t r awake) small =
    let (e, s) = Run-locks r (omega arith) in
    let step = lock_eq l tasks t n (omega arith) s in
    rw (e, step) (refl, lock_serves n l tasks t s awake)
Run-locks (unlocks {n = n} {l = l} {tasks = tasks} t r awake) small =
    let (e, s) = Run-locks r (omega arith) in
    let step = unlock_eq l tasks t n (omega arith) s in
    rw (e, step) (refl, unlock_serves n l tasks t s)

owned_unblocked :
    (l : Lock) (tasks : Tasks) (t n : ℕ)
    → IsServed n l tasks
    → is_blocked (tasks t) ≡ false
    → (is_blocked (locked_tasks t l tasks t) ≡ false)
      ↔ (owns (as_mutex (acquire t l)).owner t ≡ true)
unfolding locked_tasks acquire as_mutex owns set_status is_blocked
owned_unblocked free tasks t n s awake = ground arith
owned_unblocked (held o again ws) tasks t n s awake = ground arith

-- In a run of fewer than 2 ^ 32 - 1 calls, a task that calls lock goes on only as the owner: after
-- the call it is not blocked exactly when the mutex is its own.
lock_excludes :
    {n : ℕ} {l : Lock} {mutex : Mutex} {tasks : Tasks} (t : ℕ)
    → Run n l mutex tasks
    → suc n < 2 ^ 32
    → is_blocked (tasks t) ≡ false
    → let (mutex', tasks') = mutex_lock mutex tasks (some t) in
      (is_blocked (tasks' t) ≡ false) ↔ (owns mutex'.owner t ≡ true)
lock_excludes {n = n} {l = l} {tasks = tasks} t r small awake =
    let (e, s) = Run-locks r small in
    let step = lock_eq l tasks t n small s in rw (e, step) (owned_unblocked l tasks t n s awake)
