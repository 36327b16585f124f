-- ===== src/Net/Wire.antt =====
-- Byte order: `JLOS_SWAP_ENDIAN_16` and `_32` of `net/etherframe.h`, and the loads and stores of a
-- packed header on the little-endian targets.
use johnbeauty_os.Prelude.{ℕ, ◌+◌, ◌*◌, ◌/◌, ◌%◌, ◌^◌, ◌<◌, ◌≡◌, List, ◌∷◌, arith, get_or}

-- Masks and shifts by whole bytes, as quotients and remainders.
unfoldable pub swap16 : ℕ → ℕ
swap16 x = x % 2 ^ 8 * 2 ^ 8 + x / 2 ^ 8 % 2 ^ 8

unfoldable pub swap32 : ℕ → ℕ
swap32 x =
    x / 2 ^ 24 % 2 ^ 8
    + x / 2 ^ 16 % 2 ^ 8 * 2 ^ 8
    + x / 2 ^ 8 % 2 ^ 8 * 2 ^ 16
    + x % 2 ^ 8 * 2 ^ 24

pub swap16-swap16 : (x : ℕ) → x < 2 ^ 16 → swap16 (swap16 x) ≡ x
unfolding swap16
swap16-swap16 x h = omega arith

pub swap32-swap32 : (x : ℕ) → x < 2 ^ 32 → swap32 (swap32 x) ≡ x
unfolding swap32
swap32-swap32 x h = omega arith

pub swap16-lt : (x : ℕ) → swap16 x < 2 ^ 16
unfolding swap16
swap16-lt x = omega arith

pub swap32-lt : (x : ℕ) → swap32 x < 2 ^ 32
unfolding swap32
swap32-lt x = omega arith

-- A `uint16_t` and a `uint32_t` field read at a byte offset.
abbrev pub load16 : List ℕ → ℕ → ℕ
load16 bs i = get_or bs i 0 + get_or bs (i + 1) 0 * 2 ^ 8

abbrev pub load32 : List ℕ → ℕ → ℕ
load32 bs i =
    get_or bs i 0
    + get_or bs (i + 1) 0 * 2 ^ 8
    + get_or bs (i + 2) 0 * 2 ^ 16
    + get_or bs (i + 3) 0 * 2 ^ 24

-- A field stored in front of the bytes that follow it.
abbrev pub store16 : ℕ → List ℕ → List ℕ
store16 n bs = n % 2 ^ 8 ∷ n / 2 ^ 8 % 2 ^ 8 ∷ bs

abbrev pub store32 : ℕ → List ℕ → List ℕ
store32 n bs = n % 2 ^ 8 ∷ n / 2 ^ 8 % 2 ^ 8 ∷ n / 2 ^ 16 % 2 ^ 8 ∷ n / 2 ^ 24 % 2 ^ 8 ∷ bs

pub load16-store16 : (n : ℕ) (bs : List ℕ) → n < 2 ^ 16 → load16 (store16 n bs) 0 ≡ n
load16-store16 n bs h = omega arith

pub load32-store32 : (n : ℕ) (bs : List ℕ) → n < 2 ^ 32 → load32 (store32 n bs) 0 ≡ n
load32-store32 n bs h = omega arith
