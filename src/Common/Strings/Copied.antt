-- ===== src/Common/Strings/Copied.antt =====
-- `strlcpy` of `common/types.c` copies what fits, ends it, and returns the length of the source.
use johnbeauty_os.Prelude.{
  ℕ, zero, suc, ◌+◌, ◌-◌, ◌≤◌, ◌<◌, ◌≡◌, ◌≢◌, ◌∙◌, ◌⊎◌, inl, inr, refl, ap, ◌&&◌, ◌==◌, ltb, leb,
  if◌then◌else◌, if_true, if_false, arith, min,
}
use mathlib.Core.Path.{subst}
use johnbeauty_os.Common.Memory.{Memory, put}
use johnbeauty_os.Common.Strings.{strlen, Copying, lcpy, end_copy, strlcpy}

-- A string of `k` bytes at `s`, and the 0 behind them.
pub record IsString (mem : Memory) (s k : ℕ) : Type 0 where
  pub text : (i : ℕ) → i < k → mem (s + i) ≢ 0
  pub ended : mem (s + k) ≡ 0

pub IsString-tail : (mem : Memory) (s k : ℕ) → IsString mem s (suc k) → IsString mem (s + 1) k
IsString-tail mem s k v = record {
  text = λ i h. let e : s + 1 + i ≡ s + suc i = omega arith in rw e (v.text (suc i) (omega arith));
  ended = let e : s + 1 + k ≡ s + suc k = omega arith in rw e v.ended;
}

-- A byte written outside a string leaves it.
IsString-put :
    (mem : Memory) (s k d byte : ℕ)
    → (d < s) ⊎ (s + k < d)
    → IsString mem s k
    → IsString (put mem d byte) s k
unfolding put
IsString-put mem s k d byte (inl h) v = record {
  text = λ i lt. rw (if_false (s + i == d) byte (mem (s + i)) (ground arith)) (v.text i lt);
  ended = if_false (s + k == d) byte (mem (s + k)) (ground arith) ∙ v.ended;
}
IsString-put mem s k d byte (inr h) v = record {
  text = λ i lt. rw (if_false (s + i == d) byte (mem (s + i)) (ground arith)) (v.text i lt);
  ended = if_false (s + k == d) byte (mem (s + k)) (ground arith) ∙ v.ended;
}

pub strlen_lem :
    (fuel : ℕ) (mem : Memory) (s k : ℕ) → IsString mem s k → k < fuel → strlen fuel mem s ≡ k
unfolding strlen
strlen_lem zero mem s k v h = absurd (omega arith)
strlen_lem (suc fuel) mem s zero v h =
    let here : mem s ≡ 0 = ap mem (omega arith) ∙ v.ended in
    if_true (mem s == 0) 0 (suc (strlen fuel mem (s + 1))) (ground (arith, here))
strlen_lem (suc fuel) mem s (suc k) v h =
    let e : s + 0 ≡ s = omega arith in
    let here : mem s ≢ 0 = subst (λ a. mem a ≢ 0) e (v.text 0 (omega arith)) in
    if_false (mem s == 0) 0 (suc (strlen fuel mem (s + 1))) (ground (arith, here))
    ∙ ap suc (strlen_lem fuel mem (s + 1) k (IsString-tail mem s k v) (omega arith))

-- The memory with the first `m` bytes of the source at `d`, and a 0 behind them.
abbrev pub ended_copy : Memory → ℕ → ℕ → ℕ → Memory
ended_copy mem d s m =
    λ x. if leb d x && ltb x (d + m) then mem (s + (x - d)) else if x == d + m then 0 else mem x

step_copy :
    (mem : Memory) (d s m x : ℕ)
    → (d + suc m < s) ⊎ (s + m < d)
    → ended_copy (put mem d (mem s)) (d + 1) (s + 1) m x ≡ ended_copy mem d s (suc m) x
unfolding put
step_copy mem d s m x (inl h) = grind arith
step_copy mem d s m x (inr h) = grind arith

put_end : (mem : Memory) (d s x : ℕ) → put mem d 0 x ≡ ended_copy mem d s 0 x
unfolding put
put_end mem d s x = grind arith

last_copy : (mem : Memory) (d s x : ℕ) → mem s ≡ 0 → put mem d (mem s) x ≡ ended_copy mem d s 0 x
unfolding put
last_copy mem d s x e = grind arith

end_copy_full :
    (fuel osrc dsize : ℕ) (c : Copying)
    → c.nleft ≡ 0
    → dsize ≢ 0
    → let ended = put c.mem c.dst 0 in
      end_copy fuel osrc dsize c ≡ (c.src + strlen fuel ended c.src + 1 - osrc - 1, ended)
unfolding end_copy
end_copy_full fuel osrc dsize c full some_room =
    if_true (c.nleft == 0) _ _ (ground (arith, full)) ∙ λ i.
    let ended = if_false (dsize == 0) c.mem (put c.mem c.dst 0) (ground (arith, some_room)) i in
    (c.src + strlen fuel ended c.src + 1 - osrc - 1, ended)

end_copy_done :
    (fuel osrc dsize : ℕ) (c : Copying)
    → c.nleft ≢ 0
    → end_copy fuel osrc dsize c ≡ (c.src - osrc - 1, c.mem)
unfolding end_copy
end_copy_done fuel osrc dsize c left = if_false (c.nleft == 0) _ _ (ground (arith, left))

abbrev Apart : ℕ → ℕ → ℕ → ℕ → Type 0
Apart d n s k = (d + n ≤ s) ⊎ (s + k < d)

Apart-put : (d n s k : ℕ) → Apart d (suc n) s k → (d < s) ⊎ (s + k < d)
Apart-put d n s k (inl h) = inl (omega arith)
Apart-put d n s k (inr h) = inr h

Apart-next : (d n s k : ℕ) → Apart d (suc (suc n)) s (suc k) → Apart (d + 1) (suc n) (s + 1) k
Apart-next d n s k (inl h) = inl (omega arith)
Apart-next d n s k (inr h) = inr (omega arith)

Apart-head : (d n s k : ℕ) → Apart d (suc (suc n)) s (suc k) → (d < s + 1) ⊎ (s + 1 + k < d)
Apart-head d n s k (inl h) = inl (omega arith)
Apart-head d n s k (inr h) = inr (omega arith)

Apart-step :
    (d n s k : ℕ) → Apart d (suc (suc n)) s (suc k) → (d + suc (min k n) < s) ⊎ (s + min k n < d)
Apart-step d n s k (inl h) = inl (omega arith)
Apart-step d n s k (inr h) = inr (omega arith)

-- The loop and the end of a copy into a room of some bytes.
end_copy_lem :
    (fuel : ℕ) (mem : Memory) (d s osrc k n dsize : ℕ)
    → IsString mem s k
    → k < fuel
    → osrc ≤ s
    → dsize ≢ 0
    → Apart d (suc n) s k
    → let (len, mem') = end_copy fuel osrc dsize (lcpy mem d s (suc n)) in
      (len ≡ s + k - osrc) × ((x : ℕ) → mem' x ≡ ended_copy mem d s (min k n) x)
unfolding lcpy
end_copy_lem fuel mem d s osrc k zero dsize v more le some_room apart =
    let ended = put mem d 0 in
    let whole = IsString-put mem s k d 0 (Apart-put d 0 s k apart) v in
    let len = strlen_lem fuel ended s k whole more in
    let none_left : min k 0 ≡ 0 = omega arith in
    rw (end_copy_full fuel osrc dsize (lcpy mem d s 1) refl some_room)
      (omega (arith, len, le), λ x. rw none_left (put_end mem d s x))
end_copy_lem fuel mem d s osrc zero (suc n) dsize v more le some_room apart =
    let here : mem s ≡ 0 = ap mem (omega arith) ∙ v.ended in
    let c : Copying = record { mem = put mem d (mem s); dst = d + 1; src = s + 1; nleft = suc n } in
    rw
      (
        if_true (mem s == 0) c (lcpy (put mem d (mem s)) (d + 1) (s + 1) (suc n))
            (ground (arith, here)),
        end_copy_done fuel osrc dsize c (omega arith),
      )
      (
        omega (arith, le),
        λ x. last_copy mem d s x here ∙ ap (λ m. ended_copy mem d s m x) (omega arith),
      )
end_copy_lem fuel mem d s osrc (suc k) (suc n) dsize v more le some_room apart =
    let e : s + 0 ≡ s = omega arith in
    let here : mem s ≢ 0 = subst (λ a. mem a ≢ 0) e (v.text 0 (omega arith)) in
    let mem' = put mem d (mem s) in
    let c : Copying = record { mem = mem'; dst = d + 1; src = s + 1; nleft = suc n } in
    let tail =
      IsString-put mem (s + 1) k d (mem s) (Apart-head d n s k apart) (IsString-tail mem s k v) in
    let next =
      end_copy_lem fuel mem' (d + 1) (s + 1) osrc k n dsize tail (omega arith) (omega arith)
        some_room (Apart-next d n s k apart) in
    rw (if_false (mem s == 0) c (lcpy mem' (d + 1) (s + 1) (suc n)) (ground (arith, here))) (
      next.0 ∙ omega arith,
      λ x.
          next.1 x
          ∙ step_copy mem d s (min k n) x (Apart-step d n s k apart)
          ∙ ap (λ m. ended_copy mem d s m x) (omega arith),
    )

-- `jlos_strlcpy` of a string into a room of some bytes that lies apart from it returns the length of
-- the string, and makes the room what of the string fits before a 0, and that 0; it changes nothing
-- else.
pub strlcpy-ended_copy :
    (fuel : ℕ) (mem : Memory) (dst src dsize k : ℕ)
    → IsString mem src k
    → k < fuel
    → dsize ≢ 0
    → (dst + dsize ≤ src) ⊎ (src + k < dst)
    → let (len, mem') = strlcpy fuel mem dst src dsize in
      (len ≡ k) × ((x : ℕ) → mem' x ≡ ended_copy mem dst src (min k (dsize - 1)) x)
unfolding strlcpy
strlcpy-ended_copy fuel mem dst src zero k v more some_room apart = absurd (some_room refl)
strlcpy-ended_copy fuel mem dst src (suc n) k v more some_room apart =
    let copy = end_copy_lem fuel mem dst src src k n (suc n) v more (omega arith) some_room apart in
    (
      copy.0 ∙ omega arith,
      λ x. copy.1 x ∙ ap (λ m. ended_copy mem dst src (min k m) x) (omega arith),
    )
