-- ===== src/Prelude/Digits.antt =====
-- The binary digits of a number, and what `bit_and` and `bit_or` do to each of them.
use Prim.Native.Nat.{
  ℕ, zero, suc, ◌+◌, ◌-◌, ◌*◌, ◌/◌, ◌%◌, ◌^◌, ◌≤◌, ◌<◌, min, max, bit_and, bit_or, digits,
  bit_and-bitwise, bit_or-bitwise,
}
use mathlib.Core.Path.{◌≡◌, ◌∙◌, refl}
use native.Mathlib.Omega.{arith}
use native.Mathlib.Nat.{pow-suc}
use johnbeauty_os.Prelude.Bits.{pow-pos}
use johnbeauty_os.Prelude.Tests.{◌==◌, if◌then◌else◌}

-- The digit of weight `2 ^ k`.
unfoldable pub digit : ℕ → ℕ → ℕ
digit n zero = n % 2
digit n (suc k) = digit (n / 2) k

pub digit_bound : (n k : ℕ) → digit n k < 2
unfolding digit
digit_bound n zero = omega arith
digit_bound n (suc k) = digit_bound (n / 2) k

pub digit_zero : (k : ℕ) → digit 0 k ≡ 0
unfolding digit
digit_zero zero = refl
digit_zero (suc k) = digit_zero k

-- An operation on digits that are 0 or 1, applied to all of them at once.
digit-digits :
    (z : ℕ → ℕ) (f : ℕ → ℕ → ℕ) (rounds a b k : ℕ)
    → ((n j : ℕ) → digit (z n) j ≡ f 0 (digit n j))
    → ((x y : ℕ) → x < 2 → y < 2 → f x y < 2)
    → a ≤ rounds
    → digit (digits z f rounds a b) k ≡ f (digit a k) (digit b k)
unfolding digit
digit-digits z f zero zero b k hz hf h = rw (digit_zero k) (hz b k)
digit-digits z f (suc rounds) zero b k hz hf h = rw (digit_zero k) (hz b k)
digit-digits z f zero (suc a) b k hz hf h = absurd (omega arith)
digit-digits z f (suc rounds) (suc a) b zero hz hf h =
    omega (arith, hf (suc a % 2) (b % 2) (omega arith) (omega arith))
digit-digits z f (suc rounds) (suc a) b (suc k) hz hf h =
    let rest = digits z f rounds (suc a / 2) (b / 2) in
    let half : (rest * 2 + f (suc a % 2) (b % 2)) / 2 ≡ rest =
      omega (arith, hf (suc a % 2) (b % 2) (omega arith) (omega arith)) in
    rw half (digit-digits z f rounds (suc a / 2) (b / 2) k hz hf (omega arith))

pub digit-bit_and : (a b k : ℕ) → digit (bit_and a b) k ≡ min (digit a k) (digit b k)
digit-bit_and a b k = rw (bit_and-bitwise a b) (
    digit-digits (λ _. 0) min a a b k (λ n j. digit_zero j ∙ omega arith) (λ x y h g. grind arith)
      (omega arith))

pub digit-bit_or : (a b k : ℕ) → digit (bit_or a b) k ≡ max (digit a k) (digit b k)
digit-bit_or a b k =
    rw (bit_or-bitwise a b) (
      digit-digits (λ n. n) max a a b k (λ n j. omega arith) (λ x y h g. grind arith) (omega arith))

pub digit-pow : (l k : ℕ) → digit (2 ^ l) k ≡ (if k == l then 1 else 0)
unfolding digit
digit-pow zero zero = refl
digit-pow zero (suc k) = ground (arith, digit_zero k)
digit-pow (suc l) zero = grind (arith, pow-suc 2 l)
digit-pow (suc l) (suc k) =
    let half : 2 ^ suc l / 2 ≡ 2 ^ l = omega (arith, pow-suc 2 l) in
    rw half (grind (arith, digit-pow l k))

pub digit_ones : (w k : ℕ) → k < w → digit (2 ^ w - 1) k ≡ 1
unfolding digit
digit_ones zero k h = absurd (omega arith)
digit_ones (suc w) zero h = omega (arith, pow-suc 2 w, pow-pos w)
digit_ones (suc w) (suc k) h =
    let half : (2 ^ suc w - 1) / 2 ≡ 2 ^ w - 1 = omega (arith, pow-suc 2 w, pow-pos w) in
    rw half (digit_ones w k (omega arith))

pub pow_less : (l w : ℕ) → l < w → 2 ^ l < 2 ^ w
pow_less l zero h = absurd (omega arith)
pow_less zero (suc w) h = omega (arith, pow-suc 2 w, pow-pos w)
pow_less (suc l) (suc w) h = omega (arith, pow-suc 2 w, pow-suc 2 l, pow_less l w (omega arith))

-- All digits below `w` less one of them.
pub digit_other :
    (w l k : ℕ) → l < w → k < w → digit (2 ^ w - 1 - 2 ^ l) k ≡ (if k == l then 0 else 1)
unfolding digit
digit_other zero l k h g = absurd (omega arith)
digit_other (suc w) zero zero h g = omega (arith, pow-suc 2 w, pow-pos w)
digit_other (suc w) zero (suc k) h g =
    let half : (2 ^ suc w - 1 - 1) / 2 ≡ 2 ^ w - 1 = omega (arith, pow-suc 2 w, pow-pos w) in
    rw half (ground (arith, digit_ones w k (omega arith)))
digit_other (suc w) (suc l) zero h g =
    grind (arith, pow-suc 2 w, pow-suc 2 l, pow_less l w (omega arith))
digit_other (suc w) (suc l) (suc k) h g =
    let half : (2 ^ suc w - 1 - 2 ^ suc l) / 2 ≡ 2 ^ w - 1 - 2 ^ l =
      omega (arith, pow-suc 2 w, pow-suc 2 l, pow_less l w (omega arith)) in
    rw half (grind (arith, digit_other w l k (omega arith) (omega arith)))

-- All digits below `w` the other way round.
pub digit_inverse : (w n k : ℕ) → n < 2 ^ w → k < w → digit (2 ^ w - 1 - n) k ≡ 1 - digit n k
unfolding digit
digit_inverse zero n k h g = absurd (omega arith)
digit_inverse (suc w) n zero h g = omega (arith, pow-suc 2 w)
digit_inverse (suc w) n (suc k) h g =
    let half : (2 ^ suc w - 1 - n) / 2 ≡ 2 ^ w - 1 - n / 2 = omega (arith, pow-suc 2 w) in
    rw half (digit_inverse w (n / 2) k (omega (arith, pow-suc 2 w)) (omega arith))

-- An operation that keeps 0 and 1 keeps a number of `w` digits.
digits_bound :
    (z : ℕ → ℕ) (f : ℕ → ℕ → ℕ) (w rounds a b : ℕ)
    → ((n : ℕ) → z n ≤ n)
    → ((x y : ℕ) → x < 2 → y < 2 → f x y < 2)
    → a < 2 ^ w
    → b < 2 ^ w
    → digits z f rounds a b < 2 ^ w
digits_bound z f w zero a b hz hf h g = omega (arith, hz b)
digits_bound z f w (suc rounds) zero b hz hf h g = omega (arith, hz b)
digits_bound z f zero (suc rounds) (suc a) b hz hf h g = absurd (omega arith)
digits_bound z f (suc w) (suc rounds) (suc a) b hz hf h g = omega (
  arith,
  pow-suc 2 w,
  hf (suc a % 2) (b % 2) (omega arith) (omega arith),
  digits_bound z f w rounds (suc a / 2) (b / 2) hz hf (omega (arith, pow-suc 2 w))
      (omega (arith, pow-suc 2 w)),
)

pub bit_or_bound : (w a b : ℕ) → a < 2 ^ w → b < 2 ^ w → bit_or a b < 2 ^ w
bit_or_bound w a b h g =
    rw (bit_or-bitwise a b)
      (digits_bound (λ n. n) max w a a b (λ n. omega arith) (λ x y c d. grind arith) h g)

pub bit_and_bound : (w a b : ℕ) → a < 2 ^ w → b < 2 ^ w → bit_and a b < 2 ^ w
bit_and_bound w a b h g =
    rw (bit_and-bitwise a b)
      (digits_bound (λ _. 0) min w a a b (λ n. omega arith) (λ x y c d. grind arith) h g)
