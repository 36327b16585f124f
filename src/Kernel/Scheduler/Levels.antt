-- ===== src/Kernel/Scheduler/Levels.antt =====
-- The levels of a run queue of `kernel/multitask.c` as one queue, the tasks of the more urgent levels
-- first.
use johnbeauty_os.Prelude.{
  ℕ, suc, ◌-◌, ◌^◌, ◌<◌, ◌≡◌, ◌∙◌, refl, sym, ap, Bool, true, false, ◌||◌, List, [], ◌∷◌, ◌++◌,
  ◌==◌, arith, length, length-append, sub32, if◌then◌else◌, if_intro, if_true, if_false, ==_iff,
}
use johnbeauty_os.Kernel.Scheduler.{Runqueue, test_bit, set_bit, clear_bit, push, without}
use johnbeauty_os.Kernel.Scheduler.Mask.{set_bit_lem, clear_bit_lem}

abbrev pub some_in : List ℕ → Bool
some_in [] = false
some_in (t ∷ rest) = true

-- A level is counted, and the mask has its bit when it has a task.
abbrev pub IsLevel : ℕ → ℕ → List ℕ → ℕ → Type 0
IsLevel n l queue count =
    (test_bit n l ≡ some_in queue) × (count ≡ length queue) × (length queue < 2 ^ 32 - 1)

pub record IsRunqueue (rq : Runqueue) : Type 0 where
  pub mask : rq.nonempty < 16
  pub level : (l : ℕ) → l < 4 → IsLevel rq.nonempty l (rq.queue l) (rq.count l)

-- All tasks of a run queue, in the order in which they are to run.
abbrev pub joined : (ℕ → List ℕ) → List ℕ
joined q = q 0 ++ (q 1 ++ (q 2 ++ q 3))

unfoldable pub in_order : Runqueue → List ℕ
in_order rq = joined rq.queue

some_in-append : (q : List ℕ) (t : ℕ) → some_in (q ++ (t ∷ [])) ≡ true
some_in-append [] t = refl
some_in-append (u ∷ q) t = refl

-- A level that is replaced or kept.
IsLevel-if :
    (b : Bool) (n l : ℕ) (q q' : List ℕ) (c c' : ℕ)
    → (b ≡ true → IsLevel n l q c)
    → (b ≡ false → IsLevel n l q' c')
    → IsLevel n l (if b then q else q') (if b then c else c')
IsLevel-if true n l q q' c c' one other = one refl
IsLevel-if false n l q q' c c' one other = other refl

pub push-IsRunqueue :
    (rq : Runqueue) (level t : ℕ)
    → IsRunqueue rq
    → level < 4
    → length (rq.queue level) < 2 ^ 32 - 2
    → IsRunqueue (push rq level t)
unfolding push
push-IsRunqueue rq level t v small room = record {
  mask = (set_bit_lem rq.nonempty level 0 v.mask small (omega arith)).1;
  level = λ k h.
      let bit = (set_bit_lem rq.nonempty level k v.mask small h).0 in
      let old = v.level level small in
      let kept = v.level k h in
      let size = length-append (rq.queue level) (t ∷ []) in
      IsLevel-if (k == level) (set_bit rq.nonempty level) k _ _ _ _
        (λ e. (
          bit ∙ ap (λ b. b || test_bit rq.nonempty k) e ∙ sym (some_in-append (rq.queue level) t),
          omega (arith, old.1, old.2, size),
          omega (arith, room, size),
        ))
        (λ e. (bit ∙ ap (λ b. b || test_bit rq.nonempty k) e ∙ kept.0, kept.1, kept.2));
}

-- The mask after a task left a level of which `rest` are left.
cleared :
    (rq : Runqueue) (level left : ℕ) (rest : List ℕ)
    → IsRunqueue rq
    → level < 4
    → left ≡ length rest
    → test_bit rq.nonempty level ≡ true
    → let n = if left == 0 then clear_bit rq.nonempty level else rq.nonempty in
      (n < 16)
      × ((k : ℕ)
          → k < 4
          → test_bit n k ≡ (if k == level then some_in rest else test_bit rq.nonempty k))
cleared rq level left [] v small e is_set = rw (if_true (left == 0) _ _ (ground (arith, e))) (
  (clear_bit_lem rq.nonempty level 0 v.mask small (omega arith)).1,
  λ k h. (clear_bit_lem rq.nonempty level k v.mask small h).0 ∙ ground arith,
)
cleared rq level left (u ∷ rest) v small e is_set =
    rw (if_false (left == 0) _ _ (ground (arith, e))) (
      v.mask,
      λ k h.
          if_intro (λ b. test_bit rq.nonempty k ≡ b) (k == level) true (test_bit rq.nonempty k)
            (λ s. ap (test_bit rq.nonempty) ((==_iff k level).0 s) ∙ is_set) (λ s. refl),
    )

some_in-suc : (q : List ℕ) (n : ℕ) → length q ≡ suc n → some_in q ≡ true
some_in-suc [] n e = absurd (omega arith)
some_in-suc (t ∷ q) n e = refl

-- A level loses one of its tasks.
pub without-IsRunqueue :
    (rq : Runqueue) (level : ℕ) (rest : List ℕ)
    → IsRunqueue rq
    → level < 4
    → length (rq.queue level) ≡ suc (length rest)
    → IsRunqueue (without rq level rest)
unfolding without
without-IsRunqueue rq level rest v small e =
    let old = v.level level small in
    let left : sub32 (rq.count level) 1 ≡ length rest = omega (arith, old.1, old.2, e) in
    let is_set : test_bit rq.nonempty level ≡ true =
      old.0 ∙ some_in-suc (rq.queue level) (length rest) e in
    let mask = cleared rq level (sub32 (rq.count level) 1) rest v small left is_set in
    record {
      mask = mask.0;
      level = λ k h.
          let bit = mask.1 k h in
          let kept = v.level k h in
          IsLevel-if (k == level) _ k _ _ _ _
            (λ s. (bit ∙ if_true (k == level) _ _ s, left, omega (arith, old.2, e)))
            (λ s. (bit ∙ if_false (k == level) _ _ s ∙ kept.0, kept.1, kept.2));
    }
