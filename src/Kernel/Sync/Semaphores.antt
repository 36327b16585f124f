-- ===== src/Kernel/Sync/Semaphores.antt =====
-- The semaphores of `kernel/sync.c` against a counter of free units with a queue of waiters.
use johnbeauty_os.Prelude.{
  ℕ, zero, suc, ◌+◌, ◌-◌, ◌%◌, ◌^◌, ◌≤◌, ◌<◌, ◌≡◌, ◌∙◌, ◌⊎◌, inl, inr, refl, sym, ap, true, false,
  some, List, [], ◌∷◌, ◌++◌, length, length-append, arith, ltb, ◌==◌, not, ◌&&◌, add32, sub32,
  if_true, if_false,
}
use johnbeauty_os.Kernel.Sync.{
  ready, blocked, Tasks, set_status, is_blocked, task_wakeup, wake_first, Semaphore, semaphore_init,
  semaphore_wait, semaphore_post, wait_enqueue, wait_dequeue,
}
use johnbeauty_os.Prelude.Members.{has, Distinct}
use johnbeauty_os.Kernel.Sync.Queue.{
  IsWaitQueue, first_blocked, enqueue-IsWaitQueue, dequeue-IsWaitQueue,
}

-- The contract: free units, and the tasks that wait for one, the longest waiting first.
pub record Counter : Type 0 where
  pub available : ℕ
  pub waiters : List ℕ

unfoldable pub take_unit : ℕ → Counter → Counter
take_unit t c = elim c.available [
  | zero ↦ record c { waiters = c.waiters ++ (t ∷ []) }
  | suc n ↦ record c { available = n }
]

unfoldable pub give_unit : Counter → Counter
give_unit c = elim c.waiters [
  | [] ↦ record c { available = suc c.available }
  | t ∷ ts ↦ record c { waiters = ts }
]

-- A semaphore and the tasks that stand for a counter, after `n` units or calls.
pub record IsCounter (n : ℕ) (c : Counter) (sem : Semaphore) (tasks : Tasks) : Type 0 where
  pub value : sem.resource_count ≡ (2 ^ 32 + c.available - length c.waiters) % 2 ^ 32
  pub same_queue : sem.wait_queue ≡ c.waiters
  pub idle : (c.available ≡ 0) ⊎ (c.waiters ≡ [])
  pub small : c.available + length c.waiters ≤ n
  pub queue : IsWaitQueue tasks c.waiters

wait-free :
    (sem : Semaphore) (tasks : Tasks) (t : ℕ)
    → sub32 sem.resource_count 1 < 2 ^ 31
    → semaphore_wait sem tasks (some t)
      ≡ (record sem { resource_count = sub32 sem.resource_count 1 }, tasks)
unfolding semaphore_wait
wait-free sem tasks t h = if_true (ltb (sub32 sem.resource_count 1) (2 ^ 31)) _ _ (ground arith)

wait-blocks :
    (sem : Semaphore) (tasks : Tasks) (t : ℕ)
    → 2 ^ 31 ≤ sub32 sem.resource_count 1
    → semaphore_wait sem tasks (some t) ≡ (
      record {
        resource_count = sub32 sem.resource_count 1;
        wait_queue = sem.wait_queue ++ (t ∷ []);
      },
      set_status tasks t blocked,
    )
unfolding semaphore_wait wait_enqueue
wait-blocks sem tasks t h = if_false (ltb (sub32 sem.resource_count 1) (2 ^ 31)) _ _ (ground arith)

not_idle : (a w : ℕ) (ws : List ℕ) → ((suc a ≡ 0) ⊎ (w ∷ ws ≡ [])) → ⊥
not_idle a w ws e = grind arith

woken :
    (tasks : Tasks) (t : ℕ)
    → is_blocked (tasks t) ≡ true
    → wake_first tasks (some t) ≡ set_status tasks t ready
unfolding wake_first task_wakeup
woken tasks t h = if_true (is_blocked (tasks t)) _ _ h ∙ if_true (is_blocked (tasks t)) _ _ h

post-keeps :
    (sem : Semaphore) (tasks : Tasks)
    → 0 < add32 sem.resource_count 1
    → add32 sem.resource_count 1 < 2 ^ 31
    → semaphore_post sem tasks ≡ (record sem { resource_count = add32 sem.resource_count 1 }, tasks)
unfolding semaphore_post
post-keeps sem tasks lo hi =
    let count = add32 sem.resource_count 1 in
    if_true (ltb count (2 ^ 31) && not (count == 0)) _ _ (ground arith)

module _ (n : ℕ) (room : suc n < 2 ^ 31) where
  wait_counts :
      (a : ℕ) (ws : List ℕ) (sem : Semaphore) (tasks : Tasks) (t : ℕ)
      → IsCounter n (record { available = a; waiters = ws }) sem tasks
      → is_blocked (tasks t) ≡ false
      → let (sem', tasks') = semaphore_wait sem tasks (some t) in
        IsCounter (suc n) (take_unit t (record { available = a; waiters = ws })) sem' tasks'
  unfolding take_unit
  wait_counts zero ws sem tasks t i awake =
      let low : 2 ^ 31 ≤ sub32 sem.resource_count 1 = omega (arith, i.value, i.small) in
      rw (wait-blocks sem tasks t low) (record {
        value = omega (arith, i.value, i.small, length-append ws (t ∷ []));
        same_queue = ap (λ q. q ++ (t ∷ [])) i.same_queue;
        idle = inl refl;
        small = omega (arith, i.small, length-append ws (t ∷ []));
        queue = enqueue-IsWaitQueue tasks ws t i.queue awake;
      })
  wait_counts (suc a) (w ∷ ws) sem tasks t i awake = absurd (not_idle a w ws i.idle)
  wait_counts (suc a) [] sem tasks t i awake =
      let high : sub32 sem.resource_count 1 < 2 ^ 31 = omega (arith, i.value, i.small) in
      rw (wait-free sem tasks t high) (record {
        value = omega (arith, i.value, i.small);
        same_queue = i.same_queue;
        idle = inr refl;
        small = omega (arith, i.small);
        queue = i.queue;
      })

  post-wakes :
      (ws : List ℕ) (sem : Semaphore) (tasks : Tasks) (t : ℕ)
      → IsCounter n (record { available = 0; waiters = t ∷ ws }) sem tasks
      → semaphore_post sem tasks ≡ (
        record { resource_count = add32 sem.resource_count 1; wait_queue = ws },
        set_status tasks t ready,
      )
  unfolding semaphore_post wait_dequeue
  post-wakes ws sem tasks t i =
      let count = add32 sem.resource_count 1 in
      let b : (0 < count) → 2 ^ 31 ≤ count = λ pos. omega (arith, i.value, i.small) in
      if_false (ltb count (2 ^ 31) && not (count == 0)) _ _ (ground (arith, b))
      ∙ (λ k.
          let (first, rest) = wait_dequeue (i.same_queue k) in
          (record { resource_count = count; wait_queue = rest }, wake_first tasks first))
      ∙ λ k. (
        record { resource_count = count; wait_queue = ws },
        woken tasks t (first_blocked tasks t ws i.queue) k,
      )

  post_counts :
      (a : ℕ) (ws : List ℕ) (sem : Semaphore) (tasks : Tasks)
      → IsCounter n (record { available = a; waiters = ws }) sem tasks
      → let (sem', tasks') = semaphore_post sem tasks in
        IsCounter (suc n) (give_unit (record { available = a; waiters = ws })) sem' tasks'
  unfolding give_unit
  post_counts (suc a) (t ∷ ws) sem tasks i = absurd (not_idle a t ws i.idle)
  post_counts zero (t ∷ ws) sem tasks i = rw (post-wakes ws sem tasks t i) (record {
    value = omega (arith, i.value, i.small);
    same_queue = refl;
    idle = inl refl;
    small = omega (arith, i.small);
    queue = dequeue-IsWaitQueue tasks ws t i.queue;
  })
  post_counts a [] sem tasks i =
      rw (post-keeps sem tasks (omega (arith, i.value, i.small)) (omega (arith, i.value, i.small)))
        (record {
          value = omega (arith, i.value, i.small);
          same_queue = i.same_queue;
          idle = inr refl;
          small = omega (arith, i.small);
          queue = i.queue;
        })

-- The states that `n` units or calls lead to, from a semaphore of `units`, with the counter beside
-- them: a wait by a task that is not blocked, or a post.
pub data Run (units : ℕ) : ℕ → Counter → Semaphore → Tasks → Type 0 where
  start :
      {tasks : Tasks}
      → ((u : ℕ) → is_blocked (tasks u) ≡ false)
      → Run units units (record { available = units; waiters = [] }) (semaphore_init units) tasks
  waited :
      {n : ℕ} {c : Counter} {sem : Semaphore} {tasks : Tasks} (t : ℕ)
      → Run units n c sem tasks
      → is_blocked (tasks t) ≡ false
      → Run units
          (suc n)
          (take_unit t c)
          (semaphore_wait sem tasks (some t)).0
          (semaphore_wait sem tasks (some t)).1
  posted :
      {n : ℕ} {c : Counter} {sem : Semaphore} {tasks : Tasks}
      → Run units n c sem tasks
      → Run units (suc n) (give_unit c) (semaphore_post sem tasks).0 (semaphore_post sem tasks).1

-- After any waits and posts, fewer than 2 ^ 31 with the units at the start, a semaphore and the tasks
-- stand for the counter: the word holds the free units less the waiters, there are not both, the
-- queue holds each blocked task once, and a post wakes the one that has waited longest.
pub Run-counts :
    (units : ℕ) {n : ℕ} {c : Counter} {sem : Semaphore} {tasks : Tasks}
    → Run units n c sem tasks
    → n < 2 ^ 31
    → IsCounter n c sem tasks
unfolding semaphore_init has Distinct
Run-counts units (start awake) small = record {
  value = omega arith;
  same_queue = refl;
  idle = inr refl;
  small = omega arith;
  queue = record { inside = λ u. sym (awake u); once = tt };
}
Run-counts units (waited {n = n} {c = c} {sem = sem} {tasks = tasks} t r awake) small =
    wait_counts n small c.available c.waiters sem tasks t (Run-counts units r (omega arith)) awake
Run-counts units (posted {n = n} {c = c} {sem = sem} {tasks = tasks} r) small =
    post_counts n small c.available c.waiters sem tasks (Run-counts units r (omega arith))
