-- ===== src/Kernel/Scheduler/Linked.antt =====
-- A task of `kernel/multitask.c` is in a run queue just when its list node is linked: once, at the level
-- of its priority, on its processor.
use johnbeauty_os.Prelude.{
  ℕ, suc, ◌-◌, ◌^◌, ◌≤◌, ◌<◌, ◌≡◌, ◌∙◌, refl, sym, ap, Bool, true, false, not, ◌&&◌, List, [], ◌∷◌,
  ◌++◌, ◌==◌, arith, length, length-append, if◌then◌else◌, if_intro, if_true, if_false, ==_iff, inl,
  inr, Bool-cases, ap₂,
}
use johnbeauty_os.Prelude.Members.{has, Distinct}
use johnbeauty_os.Kernel.Sync.Queue.{has-enqueue, Distinct-enqueue}
use johnbeauty_os.Dsa.List.{unlink, has-unlink, Distinct-unlink, length-unlink}
use johnbeauty_os.Kernel.Scheduler.{
  Task, Runqueue, Manager, clamp_pri, at_level, push, without, update, update_rq, rq_enqueue,
  rq_remove_specific,
}
use johnbeauty_os.Kernel.Scheduler.Levels.{IsRunqueue, push-IsRunqueue, without-IsRunqueue}

-- Where a task is linked.
abbrev pub linked_at : Task → ℕ → ℕ → Bool
linked_at task c l = task.linked && (c == task.cpu && l == clamp_pri task.priority)

-- After at most `n` enqueues.
pub record IsManager (n : ℕ) (m : Manager) : Type 0 where
  pub queues : (c : ℕ) → IsRunqueue (m.rq c)
  pub places : (c l t : ℕ) → l < 4 → has t ((m.rq c).queue l) ≡ linked_at (m.task t) c l
  pub once : (c l : ℕ) → l < 4 → Distinct ((m.rq c).queue l)
  pub short : (c l : ℕ) → l < 4 → length ((m.rq c).queue l) ≤ n

clamp_small : (p : ℕ) → clamp_pri p < 4
unfolding clamp_pri
clamp_small p = ground arith

-- The queue of a level after the one of `lev` on `cpu` was replaced.
queue_at :
    (m : Manager) (cpu lev c l : ℕ) (q : List ℕ) (R : Runqueue)
    → ((k : ℕ) → R.queue k ≡ at_level (m.rq cpu).queue lev q k)
    → (at_level m.rq cpu R c).queue l ≡ (if c == cpu && l == lev then q else (m.rq c).queue l)
queue_at m cpu lev c l q R h = elim (Bool-cases (c == cpu)) [
  | inl e ↦
      ap (λ r. r.queue l) (if_true (c == cpu) R (m.rq c) e)
      ∙ h l
      ∙ ap (λ d. at_level (m.rq d).queue lev q l) (sym ((==_iff c cpu).0 e))
      ∙ ap (λ b. if b && l == lev then q else (m.rq c).queue l) (sym e)
  | inr e ↦
      ap (λ r. r.queue l) (if_false (c == cpu) R (m.rq c) e)
      ∙ ap (λ b. if b && l == lev then q else (m.rq c).queue l) (sym e)
]

and_split : (a b : Bool) → (a && b) ≡ true → (a ≡ true) × (b ≡ true)
and_split true b h = (refl, h)
and_split false b h = absurd (ground (arith, h))

on_place : (x b : Bool) → b ≡ true → x ≡ (x && b)
on_place x b e = ground (arith, e)

off_place : (x y b : Bool) → b ≡ false → (x && b) ≡ (y && b)
off_place x y b e = ground (arith, e)

-- The task `t` changes, and with it the queue of the only level that it may be in, before and after.
module _ (m : Manager) (t cpu lev : ℕ) (q : List ℕ) (T : Task) (R : Runqueue) (n n' : ℕ)
    (v : IsManager n m) (small : lev < 4)
    (queues : (k : ℕ) → R.queue k ≡ at_level (m.rq cpu).queue lev q k)
    (holds : (u : ℕ) → has u q ≡ (if u == t then T.linked else has u ((m.rq cpu).queue lev)))
    (now_at : (c l : ℕ) → linked_at T c l ≡ (T.linked && (c == cpu && l == lev)))
    (was_at : (c l : ℕ)
      → linked_at (m.task t) c l ≡ ((m.task t).linked && (c == cpu && l == lev))) where
  change-places :
      (c l u : ℕ)
      → l < 4
      → has u ((at_level m.rq cpu R c).queue l) ≡ linked_at (at_level m.task t T u) c l
  change-places c l u h =
      ap (has u) (queue_at m cpu lev c l q R queues)
      ∙ if_intro (λ x. has u x ≡ linked_at (at_level m.task t T u) c l) (c == cpu && l == lev) q
          ((m.rq c).queue l)
          (λ b.
            let (c_is, l_is) = and_split (c == cpu) (l == lev) b in
            let c_eq = (==_iff c cpu).0 c_is in
            let l_eq = (==_iff l lev).0 l_is in
            let same : has u ((m.rq cpu).queue lev) ≡ linked_at (m.task u) c l =
              v.places cpu lev u small ∙ ap₂ (linked_at (m.task u)) (sym c_eq) (sym l_eq) in
            holds u
            ∙ if_intro
                (λ y. (if u == t then T.linked else has u ((m.rq cpu).queue lev)) ≡ linked_at y c l)
                (u == t) T (m.task u)
                (λ e. if_true (u == t) _ _ e ∙ on_place T.linked _ b ∙ sym (now_at c l))
                (λ e. if_false (u == t) _ _ e ∙ same))
          (λ b.
            v.places c l u h
            ∙ if_intro (λ y. linked_at (m.task u) c l ≡ linked_at y c l) (u == t) T (m.task u)
                (λ e.
                  ap (λ w. linked_at (m.task w) c l) ((==_iff u t).0 e)
                  ∙ was_at c l
                  ∙ off_place (m.task t).linked T.linked _ b
                  ∙ sym (now_at c l))
                (λ e. refl))

  pub change-IsManager :
      IsRunqueue R
      → Distinct q
      → length q ≤ n'
      → n ≤ n'
      → IsManager n' (update_rq (update m t T) cpu R)
  change-IsManager r d len more = record {
    queues = λ c. if_intro IsRunqueue (c == cpu) R (m.rq c) (λ e. r) (λ e. v.queues c);
    places = change-places;
    once = λ c l h. rw (queue_at m cpu lev c l q R queues) (
        if_intro Distinct (c == cpu && l == lev) q ((m.rq c).queue l) (λ e. d) (λ e. v.once c l h));
    short = λ c l h. rw (queue_at m cpu lev c l q R queues) (
        if_intro (λ x. length x ≤ n') (c == cpu && l == lev) q ((m.rq c).queue l) (λ e. len)
          (λ e. omega (arith, v.short c l h)));
  }

pub self_true : (k : ℕ) → (k == k) ≡ true
self_true k = (==_iff k k).1 refl

-- A task that is in no run queue is put in one.
pub rq_enqueue-IsManager :
    (n : ℕ) (m : Manager) (t : ℕ)
    → IsManager n m
    → n < 2 ^ 32 - 2
    → (m.task t).linked ≡ false
    → IsManager (suc n) (rq_enqueue m t)
unfolding rq_enqueue push
rq_enqueue-IsManager n m t v room off =
    let task = m.task t in
    let lev : ℕ = clamp_pri task.priority in
    let q = (m.rq task.cpu).queue lev in
    let small = clamp_small task.priority in
    let fresh : has t q ≡ false =
      v.places task.cpu lev t small ∙ ap (λ b. b && (task.cpu == task.cpu && lev == lev)) off in
    change-IsManager m t task.cpu lev (q ++ (t ∷ [])) (record task { linked = true })
      (push (m.rq task.cpu) lev t) n (suc n) v small (λ k. refl)
      (λ u. ground (arith, has-enqueue u t q)) (λ c l. refl) (λ c l. refl)
      (push-IsRunqueue (m.rq task.cpu) lev t (v.queues task.cpu) small
        (omega (arith, v.short task.cpu lev small)))
      (Distinct-enqueue t q fresh (v.once task.cpu lev small))
      (omega (arith, length-append q (t ∷ []), v.short task.cpu lev small)) (omega arith)

linked_here : (x a b : Bool) → not x ≡ false → a ≡ true → b ≡ true → (x && (a && b)) ≡ true
linked_here x a b h ea eb = ground (arith, h, ea, eb)

-- A task is taken out of the run queue that it is in, if any.
pub rq_remove_specific-IsManager :
    (n : ℕ) (m : Manager) (t : ℕ) → IsManager n m → IsManager n (rq_remove_specific m t)
unfolding rq_remove_specific without
rq_remove_specific-IsManager n m t v =
    let task = m.task t in
    let cpu : ℕ = task.cpu in
    let lev : ℕ = clamp_pri task.priority in
    let q = (m.rq cpu).queue lev in
    let small = clamp_small task.priority in
    let d = v.once cpu lev small in
    if_intro (IsManager n) (not task.linked) _ _ (λ e. v)
      (λ e.
        let there : has t q ≡ true =
          v.places cpu lev t small
          ∙ linked_here task.linked (cpu == cpu) (lev == lev) e (self_true cpu) (self_true lev) in
        let size = length-unlink t q there in
        change-IsManager m t cpu lev (unlink t q) (record task { linked = false })
          (without (m.rq cpu) lev (unlink t q)) n n v small (λ k. refl)
          (λ u. ground (arith, has-unlink u t q d)) (λ c l. refl) (λ c l. refl)
          (without-IsRunqueue (m.rq cpu) lev (unlink t q) (v.queues cpu) small size)
          (Distinct-unlink t q d) (omega (arith, size, v.short cpu lev small)) (omega arith))
