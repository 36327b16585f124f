-- ===== src/Common/Memory.antt =====
-- The memory functions of `common/types.c` on a memory of bytes at addresses. A word moves four bytes at
-- once: they are all read before they are written. These are the C versions, which x86 of 32 bits and
-- arm64 put assembly in the place of.
mod Copies
mod Fills
mod Tests
use johnbeauty_os.Prelude.{
  ℕ, zero, suc, ◌+◌, ◌-◌, ◌*◌, ◌/◌, ◌%◌, ◌^◌, Bool, true, false, not, ◌&&◌, List, [], ◌∷◌, ◌==◌,
  ltb, leb, if◌then◌else◌, Option, none, some,
}
use Prim.Native.Nat.{bit_or}

abbrev pub Memory : Type 0
Memory = ℕ → ℕ

unfoldable pub put : Memory → ℕ → ℕ → Memory
put mem a byte = λ x. if x == a then byte else mem x

-- A loop's memory, pointers and count.
pub record Cursor : Type 0 where
  pub mem : Memory
  pub dst : ℕ
  pub src : ℕ
  pub size : ℕ

unfoldable pub put4 : Memory → ℕ → ℕ → ℕ → ℕ → ℕ → Memory
unfolding put
put4 mem a b0 b1 b2 b3 = put (put (put (put mem a b0) (a + 1) b1) (a + 2) b2) (a + 3) b3

-- The bytes up to an aligned destination, the words, and the bytes left.
unfoldable pub copy_head : Memory → ℕ → ℕ → ℕ → Cursor
copy_head mem d s zero = record { mem = mem; dst = d; src = s; size = 0 }
copy_head mem d s (suc n) =
    let next = copy_head (put mem d (mem s)) (d + 1) (s + 1) n in
    if d % 4 == 0 then record { mem = mem; dst = d; src = s; size = suc n } else next

unfoldable pub copy_words : Memory → ℕ → ℕ → ℕ → Cursor
copy_words mem d s (suc (suc (suc (suc n)))) =
    copy_words (put4 mem d (mem s) (mem (s + 1)) (mem (s + 2)) (mem (s + 3))) (d + 4) (s + 4) n
copy_words mem d s n = record { mem = mem; dst = d; src = s; size = n }

unfoldable pub copy_tail : Memory → ℕ → ℕ → ℕ → Memory
copy_tail mem d s zero = mem
copy_tail mem d s (suc n) = copy_tail (put mem d (mem s)) (d + 1) (s + 1) n

unfoldable pub memcpy : Memory → ℕ → ℕ → ℕ → Memory
memcpy mem dst src size =
    let head = copy_head mem dst src size in
    let words = copy_words head.mem head.dst head.src head.size in
    copy_tail words.mem words.dst words.src words.size

-- The loop from the end: `n` bytes are left.
unfoldable pub copy_back : Memory → ℕ → ℕ → ℕ → Memory
copy_back mem d s zero = mem
copy_back mem d s (suc n) = copy_back (put mem (d + n) (mem (s + n))) d s n

unfoldable pub memmove : Memory → ℕ → ℕ → ℕ → Memory
memmove mem dst src n =
    if ltb dst src
    then memcpy mem dst src n
    else if ltb src dst
    then copy_back mem dst src n
    else mem

-- `memset`: a byte, and the word of four of them, whose bytes are stored lowest first.
unfoldable pub val32 : ℕ → ℕ
val32 value = bit_or (bit_or (bit_or value (value * 2 ^ 8)) (value * 2 ^ 16)) (value * 2 ^ 24)

unfoldable pub put_word : Memory → ℕ → ℕ → Memory
put_word mem a w = put4 mem a (w % 256) (w / 2 ^ 8 % 256) (w / 2 ^ 16 % 256) (w / 2 ^ 24 % 256)

unfoldable pub fill_head : Memory → ℕ → ℕ → ℕ → Cursor
fill_head mem p value zero = record { mem = mem; dst = p; src = p; size = 0 }
fill_head mem p value (suc n) =
    let next = fill_head (put mem p value) (p + 1) value n in
    if p % 4 == 0 then record { mem = mem; dst = p; src = p; size = suc n } else next

unfoldable pub fill_words : Memory → ℕ → ℕ → ℕ → Cursor
fill_words mem p w (suc (suc (suc (suc n)))) = fill_words (put_word mem p w) (p + 4) w n
fill_words mem p w n = record { mem = mem; dst = p; src = p; size = n }

unfoldable pub fill_tail : Memory → ℕ → ℕ → ℕ → Memory
fill_tail mem p value zero = mem
fill_tail mem p value (suc n) = fill_tail (put mem p value) (p + 1) value n

unfoldable pub memset : Memory → ℕ → ℕ → ℕ → Memory
memset mem ptr value size =
    let head = fill_head mem ptr value size in
    let words = fill_words head.mem head.dst (val32 value) head.size in
    fill_tail words.mem words.dst value words.size

-- `memcmp`: the difference of the first bytes that differ, as the two bytes, or none.
unfoldable pub memcmp : Memory → ℕ → ℕ → ℕ → Option (ℕ × ℕ)
memcmp mem a b zero = none
memcmp mem a b (suc n) =
    let rest = memcmp mem (a + 1) (b + 1) n in
    if not (mem a == mem b) then some (mem a, mem b) else rest
