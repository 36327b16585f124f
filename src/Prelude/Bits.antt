-- ===== src/Prelude/Bits.antt =====
-- Laws of `bit_and` at variables: a mask of low ones is a remainder by a power of two.
use Prim.Native.Nat.{
  ℕ, zero, suc, ◌+◌, ◌-◌, ◌*◌, ◌/◌, ◌%◌, ◌^◌, ◌≤◌, ◌<◌, min, bit_and, digits, bit_and-bitwise,
}
use mathlib.Core.Path.{◌≡◌, ◌∙◌, refl}
use native.Mathlib.Omega.{arith}
use native.Mathlib.Nat.{pow-suc, mul_assoc, mod-mod_of_dvd}

pub pow-pos : (k : ℕ) → 0 < 2 ^ k
pow-pos zero = omega arith
pow-pos (suc k) = omega (arith, pow-pos k, pow-suc 2 k)

-- The lowest digit of a remainder by an even number.
mod_double : (a p : ℕ) → 0 < p → a / 2 % p * 2 + a % 2 ≡ a % (p * 2)
mod_double a p h = grind arith

-- The mask of `k + 1` ones: its lowest digit is 1, and the mask of `k` ones is above it.
ones_above : (k : ℕ) → ((2 ^ suc k - 1) / 2 ≡ 2 ^ k - 1) × ((2 ^ suc k - 1) % 2 ≡ 1)
ones_above k = (omega (arith, pow-suc 2 k, pow-pos k), omega (arith, pow-suc 2 k, pow-pos k))

-- The digits of a number under a mask of ones, with as many rounds as the number allows.
digits_under_mask :
    (k rounds a : ℕ) → a ≤ rounds → digits (λ _. zero) min rounds a (2 ^ k - 1) ≡ a % 2 ^ k
digits_under_mask k zero zero enough = omega (arith, pow-pos k)
digits_under_mask k (suc rounds) zero enough = omega (arith, pow-pos k)
digits_under_mask k zero (suc a) enough = absurd (omega arith)
digits_under_mask zero (suc rounds) (suc a) enough =
    omega (arith, digits_under_mask zero rounds (suc a / 2) (omega arith))
digits_under_mask (suc k) (suc rounds) (suc a) enough =
    rw
      (
        (ones_above k).0,
        (ones_above k).1,
        digits_under_mask k rounds (suc a / 2) (omega arith),
        pow-suc 2 k,
      )
      (omega (arith, mod_double (suc a) (2 ^ k) (pow-pos k)))

pub bit_and_mask : (k a : ℕ) → bit_and a (2 ^ k - 1) ≡ a % 2 ^ k
bit_and_mask k a = bit_and-bitwise a (2 ^ k - 1) ∙ digits_under_mask k a a (omega arith)

pub bit_and-zero : (a : ℕ) → bit_and a 0 ≡ 0
bit_and-zero a = omega (arith, bit_and_mask 0 a)

pow_split : (m k n : ℕ) → n ≡ m + k → 2 ^ n ≡ 2 ^ k * 2 ^ m
pow_split zero k n e = let same : n ≡ k = omega arith in rw same (omega arith)
pow_split (suc m) k n e =
    let next : n ≡ suc (m + k) = omega arith in
    rw (next, pow-suc 2 (m + k), pow_split m k (m + k) refl, pow-suc 2 m)
      (mul_assoc (2 ^ k) (2 ^ m) 2)

-- A wrap at a higher power of two is not seen by a remainder by a lower one.
pub mod_pow_mod : (k n a : ℕ) → k ≤ n → a % 2 ^ n % 2 ^ k ≡ a % 2 ^ k
mod_pow_mod k n a h =
    mod-mod_of_dvd (2 ^ k) a ∣ (2 ^ (n - k), pow_split (n - k) k n (omega arith)) ∣₁
