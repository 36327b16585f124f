-- ===== src/Common/Memory/Copies.antt =====
-- `memcpy` and `memmove` of `common/types.c` against a copy of all bytes at once.
use johnbeauty_os.Prelude.{
  ℕ, zero, suc, ◌+◌, ◌-◌, ◌%◌, ◌≤◌, ◌<◌, ◌≡◌, ◌∙◌, ◌⊎◌, inl, inr, refl, ◌&&◌, ◌==◌, ltb, leb,
  if◌then◌else◌, if_intro, arith,
}
use johnbeauty_os.Common.Memory.{
  Memory, put, put4, Cursor, copy_head, copy_words, copy_tail, memcpy, copy_back, memmove,
}

-- The memory in which the `n` bytes at `d` are those that stood at `s`.
abbrev pub copied : Memory → ℕ → ℕ → ℕ → Memory
copied mem d s n = λ x. if leb d x && ltb x (d + n) then mem (s + (x - d)) else mem x

-- A copy from the front reads no byte that it wrote.
abbrev pub IsForward : ℕ → ℕ → ℕ → Type 0
IsForward d s n = (d ≤ s) ⊎ (s + n ≤ d)

byte_copied :
    (mem : Memory) (d s n x : ℕ)
    → IsForward d s (suc n)
    → copied (put mem d (mem s)) (d + 1) (s + 1) n x ≡ copied mem d s (suc n) x
unfolding put
byte_copied mem d s n x (inl f) = grind arith
byte_copied mem d s n x (inr f) = grind arith

word_copied :
    (mem : Memory) (d s n x : ℕ)
    → IsForward d s (suc (suc (suc (suc n))))
    → copied (put4 mem d (mem s) (mem (s + 1)) (mem (s + 2)) (mem (s + 3))) (d + 4) (s + 4) n x
      ≡ copied mem d s (suc (suc (suc (suc n)))) x
unfolding put4 put
word_copied mem d s n x (inl f) = grind arith
word_copied mem d s n x (inr f) = grind arith

IsForward-step : (d s m n k : ℕ) → m ≡ k + n → IsForward d s m → IsForward (d + k) (s + k) n
IsForward-step d s m n k e (inl f) = inl (omega arith)
IsForward-step d s m n k e (inr f) = inr (omega arith)

-- What is left to copy makes the same memory after each loop, and is still read from the front.
abbrev Keeps : Memory → ℕ → ℕ → ℕ → Cursor → Type 0
Keeps mem d s n c =
    IsForward c.dst c.src c.size
    × ((x : ℕ) → copied c.mem c.dst c.src c.size x ≡ copied mem d s n x)

copy_head-Keeps :
    (mem : Memory) (d s n : ℕ) → IsForward d s n → Keeps mem d s n (copy_head mem d s n)
unfolding copy_head
copy_head-Keeps mem d s zero f = (f, λ x. refl)
copy_head-Keeps mem d s (suc n) f =
    let next =
      copy_head-Keeps (put mem d (mem s)) (d + 1) (s + 1) n
        (IsForward-step d s (suc n) n 1 (omega arith) f) in
    if_intro (Keeps mem d s (suc n)) (d % 4 == 0) _ _ (λ e. (f, λ x. refl))
      (λ e. (next.0, λ x. next.1 x ∙ byte_copied mem d s n x f))

copy_words-Keeps :
    (mem : Memory) (d s n : ℕ) → IsForward d s n → Keeps mem d s n (copy_words mem d s n)
unfolding copy_words
copy_words-Keeps mem d s zero f = (f, λ x. refl)
copy_words-Keeps mem d s (suc zero) f = (f, λ x. refl)
copy_words-Keeps mem d s (suc (suc zero)) f = (f, λ x. refl)
copy_words-Keeps mem d s (suc (suc (suc zero))) f = (f, λ x. refl)
copy_words-Keeps mem d s (suc (suc (suc (suc n)))) f =
    let mem' = put4 mem d (mem s) (mem (s + 1)) (mem (s + 2)) (mem (s + 3)) in
    let next =
      copy_words-Keeps mem' (d + 4) (s + 4) n
        (IsForward-step d s (suc (suc (suc (suc n)))) n 4 (omega arith) f) in
    (next.0, λ x. next.1 x ∙ word_copied mem d s n x f)

copy_tail_lem :
    (mem : Memory) (d s n x : ℕ) → IsForward d s n → copy_tail mem d s n x ≡ copied mem d s n x
unfolding copy_tail
copy_tail_lem mem d s zero x f = grind arith
copy_tail_lem mem d s (suc n) x f =
    copy_tail_lem (put mem d (mem s)) (d + 1) (s + 1) n x
      (IsForward-step d s (suc n) n 1 (omega arith) f)
    ∙ byte_copied mem d s n x f

-- `jlos_memcpy` with its loops of bytes and words makes the destination what the source was, and
-- changes nothing else, for any alignment, where the blocks are apart or the destination is not above
-- the source.
pub memcpy-copied :
    (mem : Memory) (dst src size x : ℕ)
    → IsForward dst src size
    → memcpy mem dst src size x ≡ copied mem dst src size x
unfolding memcpy
memcpy-copied mem dst src size x f =
    let head = copy_head-Keeps mem dst src size f in
    let c = copy_head mem dst src size in
    let words = copy_words-Keeps c.mem c.dst c.src c.size head.0 in
    let w = copy_words c.mem c.dst c.src c.size in
    copy_tail_lem w.mem w.dst w.src w.size x words.0 ∙ words.1 x ∙ head.1 x

back_copied :
    (mem : Memory) (d s n x : ℕ)
    → s < d
    → copied (put mem (d + n) (mem (s + n))) d s n x ≡ copied mem d s (suc n) x
unfolding put
back_copied mem d s n x lt = grind arith

copy_back_lem : (mem : Memory) (d s n x : ℕ) → s < d → copy_back mem d s n x ≡ copied mem d s n x
unfolding copy_back
copy_back_lem mem d s zero x lt = grind arith
copy_back_lem mem d s (suc n) x lt =
    copy_back_lem (put mem (d + n) (mem (s + n))) d s n x lt ∙ back_copied mem d s n x lt

-- `jlos_memmove` makes the destination what the source was, and changes nothing else, however the
-- blocks overlap.
pub memmove-copied :
    (mem : Memory) (dst src n x : ℕ) → memmove mem dst src n x ≡ copied mem dst src n x
unfolding memmove
memmove-copied mem dst src n x =
    let P : Memory → Type 0 = λ m. m x ≡ copied mem dst src n x in
    if_intro P (ltb dst src) _ _ (λ e. memcpy-copied mem dst src n x (inl (ground arith)))
      (λ e.
        if_intro P (ltb src dst) _ _ (λ e2. copy_back_lem mem dst src n x (ground arith))
          (λ e2. grind arith))
