-- ===== src/Kernel/Sync/Queue.antt =====
-- What the wait queues of `kernel/sync.c` hold: each blocked task once, and no other.
use johnbeauty_os.Prelude.{ℕ, ◌≡◌, ◌∙◌, true, false, ◌||◌, List, [], ◌∷◌, ◌++◌, ◌==◌, arith, refl}
use johnbeauty_os.Prelude.Members.{has, Distinct}
use johnbeauty_os.Kernel.Sync.{ready, blocked, Tasks, set_status, is_blocked}

pub record IsWaitQueue (tasks : Tasks) (queue : List ℕ) : Type 0 where
  pub inside : (u : ℕ) → has u queue ≡ is_blocked (tasks u)
  pub once : Distinct queue

pub has-enqueue : (u t : ℕ) (queue : List ℕ) → has u (queue ++ (t ∷ [])) ≡ (has u queue || u == t)
unfolding has
has-enqueue u t [] = ground arith
has-enqueue u t (x ∷ queue) = ground (arith, has-enqueue u t queue)

pub Distinct-enqueue :
    (t : ℕ) (queue : List ℕ) → has t queue ≡ false → Distinct queue → Distinct (queue ++ (t ∷ []))
unfolding Distinct has
Distinct-enqueue t [] fresh once = (refl, tt)
Distinct-enqueue t (x ∷ queue) fresh once =
    (ground (arith, has-enqueue x t queue), Distinct-enqueue t queue (ground arith) once.1)

-- A task that is not blocked joins the queue.
pub enqueue-IsWaitQueue :
    (tasks : Tasks) (queue : List ℕ) (t : ℕ)
    → IsWaitQueue tasks queue
    → is_blocked (tasks t) ≡ false
    → IsWaitQueue (set_status tasks t blocked) (queue ++ (t ∷ []))
unfolding set_status is_blocked
enqueue-IsWaitQueue tasks queue t w awake = record {
  inside = λ u. grind (arith, has-enqueue u t queue, w.inside u, w.inside t);
  once = Distinct-enqueue t queue (w.inside t ∙ awake) w.once;
}

-- The first task leaves the queue and is made ready.
pub dequeue-IsWaitQueue :
    (tasks : Tasks) (queue : List ℕ) (t : ℕ)
    → IsWaitQueue tasks (t ∷ queue)
    → IsWaitQueue (set_status tasks t ready) queue
unfolding set_status is_blocked has Distinct
dequeue-IsWaitQueue tasks queue t w = record {
  inside = λ u. grind (arith, w.inside u, w.inside t, w.once.0);
  once = w.once.1;
}

-- The first task of a queue is blocked.
pub first_blocked :
    (tasks : Tasks) (t : ℕ) (ws : List ℕ) → IsWaitQueue tasks (t ∷ ws) → is_blocked (tasks t) ≡ true
unfolding has
first_blocked tasks t ws w = ground (arith, w.inside t)
