-- ===== src/Prelude/Align.antt =====
-- Multiples of a power of two, and what `bit_xor` and `bit_or` with that power do to a number.
use Prim.Native.Nat.{
  ℕ, zero, suc, ◌+◌, ◌-◌, ◌*◌, ◌/◌, ◌%◌, ◌^◌, ◌≤◌, ◌<◌, max, differ, bit_and, bit_or, bit_xor,
  digits, bit_or-bitwise, bit_xor-bitwise,
}
use mathlib.Core.Path.{◌≡◌, ◌∙◌, refl, sym, ap}
use mathlib.Core.Logic.{◌⊎◌, inl, inr}
use native.Mathlib.Omega.{arith}
use native.Mathlib.Nat.{pow-suc, mul_assoc, mul_comm, suc-mul, mod-eq-zero_of_dvd, mod-add-div'}
use native.Mathlib.Decide.{ℕ_discrete}
use johnbeauty_os.Prelude.Bits.{bit_and_mask}
use johnbeauty_os.Prelude.Digits.{digit, digit_zero}

-- `n` is a multiple of `2 ^ k`.
abbrev pub Aligned : ℕ → ℕ → Type 0
Aligned n k = (q : ℕ) × (n ≡ q * 2 ^ k)

digit-le : (a k : ℕ) → digit a k ≡ 1 → 2 ^ k ≤ a
unfolding digit
digit-le a zero h = omega arith
digit-le a (suc k) h = omega (arith, pow-suc 2 k, digit-le (a / 2) k h)

double : (q k : ℕ) → q * 2 ^ suc k ≡ q * 2 ^ k * 2
double q k = rw (pow-suc 2 k) (omega (arith, mul_assoc q (2 ^ k) 2))

digit-multiple : (q k : ℕ) → digit (q * 2 ^ k) k ≡ q % 2
unfolding digit
digit-multiple q zero = omega arith
digit-multiple q (suc k) =
    let half : q * 2 ^ suc k / 2 ≡ q * 2 ^ k = omega (arith, double q k) in
    rw half (digit-multiple q k)

half_even : (q k : ℕ) → q % 2 ≡ 0 → q * 2 ^ k ≡ q / 2 * 2 ^ suc k
half_even q k e =
    let whole : q ≡ q / 2 * 2 = omega arith in
    rw (pow-suc 2 k)
      (ap (λ x. x * 2 ^ k) whole ∙ mul_assoc (q / 2) 2 (2 ^ k) ∙ ap (λ x. q / 2 * x) (omega arith))

half_odd : (q k : ℕ) → q % 2 ≡ 1 → q * 2 ^ k ≡ q / 2 * 2 ^ suc k + 2 ^ k
half_odd q k e =
    let whole : q ≡ suc (q / 2 * 2) = omega arith in
    ap (λ x. x * 2 ^ k) whole
    ∙ suc-mul (q / 2 * 2) (2 ^ k)
    ∙ ap (λ x. x + 2 ^ k)
        (half_even (q / 2 * 2) k (omega arith) ∙ ap (λ x. x * 2 ^ suc k) (omega arith))

differ_zero : (x : ℕ) → x < 2 → differ x 0 ≡ x
differ_zero zero h = refl
differ_zero (suc x) h = refl

-- Two operations that keep a digit beside a 0.
keeps :
    (f : ℕ → ℕ → ℕ) (rounds a : ℕ)
    → ((x : ℕ) → x < 2 → f x 0 ≡ x)
    → a ≤ rounds
    → digits (λ b. b) f rounds a 0 ≡ a
keeps f zero zero hf h = refl
keeps f (suc rounds) zero hf h = refl
keeps f zero (suc a) hf h = absurd (omega arith)
keeps f (suc rounds) (suc a) hf h =
    omega (arith, keeps f rounds (suc a / 2) hf (omega arith), hf (suc a % 2) (omega arith))

-- The digit that is 0 is made 1, and nothing else changes.
raised :
    (f : ℕ → ℕ → ℕ) (k rounds a : ℕ)
    → ((x : ℕ) → x < 2 → f x 0 ≡ x)
    → f 0 1 ≡ 1
    → a ≤ rounds
    → digit a k ≡ 0
    → digits (λ b. b) f rounds a (2 ^ k) ≡ a + 2 ^ k
unfolding digit
raised f k zero zero hf one h e = omega arith
raised f k (suc rounds) zero hf one h e = omega arith
raised f k zero (suc a) hf one h e = absurd (omega arith)
raised f zero (suc rounds) (suc a) hf one h e =
    rw e (omega (arith, one, keeps f rounds (suc a / 2) hf (omega arith)))
raised f (suc k) (suc rounds) (suc a) hf one h e =
    let half : 2 ^ suc k / 2 ≡ 2 ^ k = omega (arith, pow-suc 2 k) in
    let low : 2 ^ suc k % 2 ≡ 0 = omega (arith, pow-suc 2 k) in
    rw (half, low)
      (omega (
        arith,
        pow-suc 2 k,
        raised f k rounds (suc a / 2) hf one (omega arith) e,
        hf (suc a % 2) (omega arith),
      ))

lowered :
    (k rounds a : ℕ)
    → a ≤ rounds
    → digit a k ≡ 1
    → digits (λ b. b) differ rounds a (2 ^ k) + 2 ^ k ≡ a
unfolding digit
lowered k rounds zero h e = absurd (omega (arith, digit_zero k))
lowered k zero (suc a) h e = absurd (omega arith)
lowered zero (suc rounds) (suc a) h e =
    rw e (omega (arith, keeps differ rounds (suc a / 2) differ_zero (omega arith)))
lowered (suc k) (suc rounds) (suc a) h e =
    let half : 2 ^ suc k / 2 ≡ 2 ^ k = omega (arith, pow-suc 2 k) in
    let low : 2 ^ suc k % 2 ≡ 0 = omega (arith, pow-suc 2 k) in
    rw (half, low)
      (omega (
        arith,
        pow-suc 2 k,
        lowered k rounds (suc a / 2) (omega arith) e,
        differ_zero (suc a % 2) (omega arith),
      ))

-- The other half of the block of twice the size.
pub bit_xor-Aligned :
    (n k : ℕ)
    → Aligned n k
    → ((bit_xor n (2 ^ k) ≡ n + 2 ^ k) × Aligned n (suc k))
      ⊎ ((bit_xor n (2 ^ k) + 2 ^ k ≡ n) × Aligned (bit_xor n (2 ^ k)) (suc k))
bit_xor-Aligned n k (q, e) =
    let digit_q = ap (λ m. digit m k) e ∙ digit-multiple q k in
    elim (ℕ_discrete (q % 2) 0) [
      | yes even ↦ inl (
        rw (bit_xor-bitwise n (2 ^ k))
            (raised differ k n n differ_zero refl (omega arith) (digit_q ∙ even)),
        (q / 2, e ∙ half_even q k even),
      )
      | no ne ↦
          let odd : q % 2 ≡ 1 = omega arith in
          let low : bit_xor n (2 ^ k) + 2 ^ k ≡ n =
            rw (bit_xor-bitwise n (2 ^ k)) (lowered k n n (omega arith) (digit_q ∙ odd)) in
          inr (low, (q / 2, omega (arith, e, half_odd q k odd)))
    ]

two_halves : (q k : ℕ) → q * 2 ^ suc k ≡ q * 2 * 2 ^ k
two_halves q k = sym (half_even (q * 2) k (omega arith) ∙ ap (λ x. x * 2 ^ suc k) (omega arith))

pub bit_or-Aligned : (n k : ℕ) → Aligned n (suc k) → bit_or n (2 ^ k) ≡ n + 2 ^ k
bit_or-Aligned n k (q, e) =
    let even : digit n k ≡ 0 =
      ap (λ m. digit m k) (e ∙ two_halves q k) ∙ digit-multiple (q * 2) k ∙ omega arith in
    rw (bit_or-bitwise n (2 ^ k)) (raised max k n n (λ x h. grind arith) refl (omega arith) even)

-- The other half of a block, from its first.
pub bit_xor-first_half : (n k : ℕ) → Aligned n (suc k) → bit_xor n (2 ^ k) ≡ n + 2 ^ k
bit_xor-first_half n k (q, e) =
    let even : digit n k ≡ 0 =
      ap (λ m. digit m k) (e ∙ two_halves q k) ∙ digit-multiple (q * 2) k ∙ omega arith in
    rw (bit_xor-bitwise n (2 ^ k))
      (raised differ k n n (λ x h. grind arith) refl (omega arith) even)

pub Aligned-bit_and : (n k : ℕ) → Aligned n k → bit_and n (2 ^ k - 1) ≡ 0
Aligned-bit_and n k (q, e) =
    bit_and_mask k n ∙ ap (λ m. m % 2 ^ k) e ∙ mod-eq-zero_of_dvd _ ∣ (q, mul_comm q (2 ^ k)) ∣₁

-- Half of a block is a block.
pub Aligned-down : (n k : ℕ) → Aligned n (suc k) → Aligned n k
Aligned-down n k (q, e) = (q * 2, e ∙ two_halves q k)

pub Aligned-up_half : (n k : ℕ) → Aligned n (suc k) → Aligned (n + 2 ^ k) k
Aligned-up_half n k (q, e) =
    (suc (q * 2), ap (λ x. x + 2 ^ k) (e ∙ two_halves q k) ∙ sym (suc-mul (q * 2) (2 ^ k)))

pub Aligned-0 : (n : ℕ) → Aligned n 0
Aligned-0 n = (n, omega arith)

pub Aligned-of_bit_and : (n k : ℕ) → bit_and n (2 ^ k - 1) ≡ 0 → Aligned n k
Aligned-of_bit_and n k h =
    (n / 2 ^ k, sym (mod-add-div' n (2 ^ k)) ∙ omega (arith, sym (bit_and_mask k n) ∙ h))
