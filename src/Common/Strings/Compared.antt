-- ===== src/Common/Strings/Compared.antt =====
-- `strcmp` of `common/types.c` finds two strings equal just when they are.
use mathlib.Core.Path.{subst}
use johnbeauty_os.Prelude.{
  ℕ, zero, suc, ◌+◌, ◌<◌, ◌≡◌, ◌≢◌, ◌∙◌, ◌↔◌, refl, sym, ap, true, false, not, ◌&&◌, ◌==◌, if_true,
  if_false, arith, Bool-cases, inl, inr, ==_iff,
}
use johnbeauty_os.Common.Memory.{Memory}
use johnbeauty_os.Common.Strings.{strcmp}
use johnbeauty_os.Common.Strings.Copied.{IsString, IsString-tail}

-- Two strings of the same bytes.
abbrev pub Same : Memory → ℕ → ℕ → ℕ → ℕ → Type 0
Same mem a b k j = (k ≡ j) × ((i : ℕ) → i < k → mem (a + i) ≡ mem (b + i))

first_byte : (mem : Memory) (a k : ℕ) → IsString mem a (suc k) → mem a ≢ 0
first_byte mem a k v =
    let e : a + 0 ≡ a = omega arith in subst (λ p. mem p ≢ 0) e (v.text 0 (omega arith))

no_byte : (mem : Memory) (a : ℕ) → IsString mem a 0 → mem a ≡ 0
no_byte mem a v = ap mem (omega arith) ∙ v.ended

stops :
    (fuel : ℕ) (mem : Memory) (a b : ℕ)
    → (not (mem a == 0) && mem a == mem b) ≡ false
    → strcmp (suc fuel) mem a b ≡ (mem a, mem b)
unfolding strcmp
stops fuel mem a b h =
    if_false (not (mem a == 0) && mem a == mem b) (strcmp fuel mem (a + 1) (b + 1)) (mem a, mem b) h

goes_on :
    (fuel : ℕ) (mem : Memory) (a b : ℕ)
    → (not (mem a == 0) && mem a == mem b) ≡ true
    → strcmp (suc fuel) mem a b ≡ strcmp fuel mem (a + 1) (b + 1)
unfolding strcmp
goes_on fuel mem a b h =
    if_true (not (mem a == 0) && mem a == mem b) (strcmp fuel mem (a + 1) (b + 1)) (mem a, mem b) h

Same-next :
    (mem : Memory) (a b k j : ℕ)
    → mem a ≡ mem b
    → Same mem (a + 1) (b + 1) k j
    → Same mem a b (suc k) (suc j)
Same-next mem a b k j e (len, all) = (ap suc len, at)
  where
    at : (i : ℕ) → i < suc k → mem (a + i) ≡ mem (b + i)
    at zero h = ap mem (omega arith) ∙ e ∙ ap mem (omega arith)
    at (suc i) h = ap mem (omega arith) ∙ all i (omega arith) ∙ ap mem (omega arith)

Same-rest :
    (mem : Memory) (a b k j : ℕ)
    → Same mem a b (suc k) (suc j)
    → (mem a ≡ mem b) × Same mem (a + 1) (b + 1) k j
Same-rest mem a b k j (len, all) = (
  ap mem (omega arith) ∙ all 0 (omega arith) ∙ ap mem (omega arith),
  (omega arith, λ i h. ap mem (omega arith) ∙ all (suc i) (omega arith) ∙ ap mem (omega arith)),
)

-- The bytes that `jlos_strcmp` of two strings subtracts are equal just when the strings have the same
-- length and the same bytes.
strcmp-Same :
    (fuel : ℕ) (mem : Memory) (a b k j : ℕ)
    → IsString mem a k
    → IsString mem b j
    → k < fuel
    → ((strcmp fuel mem a b).0 ≡ (strcmp fuel mem a b).1) ↔ Same mem a b k j
strcmp-Same zero mem a b k j va vb h = absurd (omega arith)
strcmp-Same (suc fuel) mem a b zero zero va vb h =
    let here = no_byte mem a va in
    let there = no_byte mem b vb in
    rw (stops fuel mem a b (ground (arith, here)))
      (λ e. (refl, λ i lt. absurd (omega arith)), λ s. here ∙ sym there)
strcmp-Same (suc fuel) mem a b zero (suc j) va vb h =
    let here = no_byte mem a va in
    let there = first_byte mem b j vb in
    rw (stops fuel mem a b (ground (arith, here)))
      (λ e. absurd (there (sym e ∙ here)), λ s. absurd (omega (arith, s.0)))
strcmp-Same (suc fuel) mem a b (suc k) zero va vb h =
    let here = first_byte mem a k va in
    let there = no_byte mem b vb in
    rw (stops fuel mem a b (ground (arith, here, there)))
      (λ e. absurd (here (e ∙ there)), λ s. absurd (omega (arith, s.0)))
strcmp-Same (suc fuel) mem a b (suc k) (suc j) va vb h = elim (Bool-cases (mem a == mem b)) [
  | inl e ↦
      let here = first_byte mem a k va in
      let next =
        strcmp-Same fuel mem (a + 1) (b + 1) k j (IsString-tail mem a k va)
          (IsString-tail mem b j vb) (omega arith) in
      let same = (==_iff (mem a) (mem b)).0 e in
      rw (goes_on fuel mem a b (ground (arith, here, e)))
        (λ q. Same-next mem a b k j same (next.0 q), λ s. next.1 (Same-rest mem a b k j s).1)
  | inr e ↦ rw (stops fuel mem a b (ground (arith, e))) (
    λ q. absurd (ground (arith, e, q)),
    λ s. absurd (ground (arith, e, (Same-rest mem a b k j s).0)),
  )
]
