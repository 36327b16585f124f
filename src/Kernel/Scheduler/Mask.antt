-- ===== src/Kernel/Scheduler/Mask.antt =====
-- The mask of the levels in use of `kernel/multitask.c`: its bits after a set and a clear, and the
-- lowest bit set, for the four levels.
use johnbeauty_os.Prelude.{
  ℕ, zero, suc, ◌+◌, ◌*◌, ◌/◌, ◌%◌, ◌<◌, ◌≡◌, ◌≢◌, ◌∙◌, refl, sym, Bool, true, false, not, ◌&&◌,
  ◌||◌, ◌==◌, ltb, arith, ltb→lt,
}
use johnbeauty_os.Prelude.Tables.{holds_below, test_of_below}
use johnbeauty_os.Kernel.Scheduler.{test_bit, set_bit, clear_bit, ctz, ctz_from}

same : Bool → Bool → Bool
same true b = b
same false b = not b

same_eq : (a b : Bool) → same a b ≡ true → a ≡ b
unfolding same
same_eq true b h = sym h
same_eq false true h = h
same_eq false false h = refl

-- The number of a mask below 16 and two levels below 4.
code : ℕ → ℕ → ℕ → ℕ
code n l k = n * 16 + l * 4 + k

bits_table :
    (n l k : ℕ)
    → n < 16
    → l < 4
    → k < 4
    → (code n l k < 256) × (code n l k / 16 ≡ n) × (code n l k % 16 / 4 ≡ l) × (code n l k % 4 ≡ k)
unfolding code
bits_table n l k a b c = (omega arith, omega arith, omega arith, omega arith)

-- A test of a mask and two levels that evaluates to true on all of them.
holds_at : (ℕ → ℕ → ℕ → Bool) → ℕ → Bool
holds_at test x = test (x / 16) (x % 16 / 4) (x % 4)

decoded :
    (test : ℕ → ℕ → ℕ → Bool) (n l k : ℕ)
    → holds_below (holds_at test) 256 ≡ true
    → n < 16
    → l < 4
    → k < 4
    → test n l k ≡ true
unfolding holds_at
decoded test n l k table a b c =
    let (small, is_n, is_l, is_k) = bits_table n l k a b c in
    sym (λ i. test (is_n i) (is_l i) (is_k i))
    ∙ test_of_below (holds_at test) 256 (code n l k) table small

set_test : ℕ → ℕ → ℕ → Bool
unfolding same
set_test n l k = same (test_bit (set_bit n l) k) (k == l || test_bit n k) && ltb (set_bit n l) 16

clear_test : ℕ → ℕ → ℕ → Bool
unfolding same
clear_test n l k =
    same (test_bit (clear_bit n l) k) (not (k == l) && test_bit n k) && ltb (clear_bit n l) 16

lowest_test : ℕ → ℕ → ℕ → Bool
lowest_test n l k =
    n == 0 || (ltb (ctz n) 4 && test_bit n (ctz n) && not (ltb k (ctz n) && test_bit n k))

zero_test : ℕ → ℕ → ℕ → Bool
unfolding same
zero_test n l k = same (n == 0) (not (test_bit n 0 || test_bit n 1 || test_bit n 2 || test_bit n 3))

set_table : holds_below (holds_at set_test) 256 ≡ true
unfolding holds_below holds_at set_test same
set_table = refl

clear_table : holds_below (holds_at clear_test) 256 ≡ true
unfolding holds_below holds_at clear_test same
clear_table = refl

lowest_table : holds_below (holds_at lowest_test) 256 ≡ true
unfolding holds_below holds_at lowest_test ctz_from
lowest_table = refl

zero_table : holds_below (holds_at zero_test) 256 ≡ true
unfolding holds_below holds_at zero_test same
zero_table = refl

and_true : (a b : Bool) → (a && b) ≡ true → (a ≡ true) × (b ≡ true)
and_true true b h = (refl, h)
and_true false b h = (h, absurd (ground (arith, h)))

pub set_bit_lem :
    (n l k : ℕ)
    → n < 16
    → l < 4
    → k < 4
    → (test_bit (set_bit n l) k ≡ (k == l || test_bit n k)) × (set_bit n l < 16)
unfolding set_test
set_bit_lem n l k a b c =
    let parts = and_true _ _ (decoded set_test n l k set_table a b c) in
    (same_eq _ _ parts.0, ground (arith, parts.1))

pub clear_bit_lem :
    (n l k : ℕ)
    → n < 16
    → l < 4
    → k < 4
    → (test_bit (clear_bit n l) k ≡ (not (k == l) && test_bit n k)) × (clear_bit n l < 16)
unfolding clear_test
clear_bit_lem n l k a b c =
    let parts = and_true _ _ (decoded clear_test n l k clear_table a b c) in
    (same_eq _ _ parts.0, ground (arith, parts.1))

or_true : (a b : Bool) → (a || b) ≡ true → a ≡ false → b ≡ true
or_true true b h e = absurd (ground (arith, e))
or_true false b h e = h

below : (k c : ℕ) (t : Bool) → not (ltb k c && t) ≡ true → k < c → t ≡ false
below k c t h lt = ground arith

-- The lowest bit of a mask that is not 0.
pub ctz_lem :
    (n k : ℕ)
    → n < 16
    → k < 4
    → n ≢ 0
    → (ctz n < 4) × (test_bit n (ctz n) ≡ true) × (k < ctz n → test_bit n k ≡ false)
unfolding lowest_test
ctz_lem n k a c ne =
    let whole =
      or_true (n == 0) _ (decoded lowest_test n 0 k lowest_table a (omega arith) c)
        (ground (arith, ne)) in
    let (front, low) = and_true _ _ whole in
    let (small, is_set) = and_true _ _ front in
    (ltb→lt _ _ small, is_set, below k (ctz n) (test_bit n k) low)

pub mask_zero :
    (n : ℕ) → n < 16 → (n == 0) ≡ not (test_bit n 0 || test_bit n 1 || test_bit n 2 || test_bit n 3)
unfolding zero_test
mask_zero n a = same_eq _ _ (decoded zero_test n 0 0 zero_table a (omega arith) (omega arith))

pub zero_bit : (l : ℕ) → l < 4 → test_bit 0 l ≡ false
zero_bit zero h = refl
zero_bit (suc zero) h = refl
zero_bit (suc (suc zero)) h = refl
zero_bit (suc (suc (suc zero))) h = refl
zero_bit (suc (suc (suc (suc l)))) h = absurd (omega arith)
