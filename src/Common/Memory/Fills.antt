-- ===== src/Common/Memory/Fills.antt =====
-- `memset` of `common/types.c` against a fill of all bytes at once.
use johnbeauty_os.Prelude.{
  ℕ, zero, suc, ◌+◌, ◌%◌, ◌/◌, ◌^◌, ◌<◌, ◌≡◌, ◌∙◌, refl, Bool, true, ◌&&◌, ◌==◌, ltb, leb,
  if◌then◌else◌, if_intro, arith,
}
use johnbeauty_os.Prelude.Tables.{holds_below, test_of_below}
use johnbeauty_os.Common.Memory.{
  Memory, put, put4, put_word, val32, Cursor, fill_head, fill_words, fill_tail, memset,
}

abbrev pub filled : Memory → ℕ → ℕ → ℕ → Memory
filled mem p value n = λ x. if leb p x && ltb x (p + n) then value else mem x

byte_filled :
    (mem : Memory) (p value n x : ℕ)
    → filled (put mem p value) (p + 1) value n x ≡ filled mem p value (suc n) x
unfolding put
byte_filled mem p value n x = grind arith

-- Each byte of the word is the value.
word_test : ℕ → Bool
word_test v =
    let w = val32 v in
    w % 256 == v && w / 2 ^ 8 % 256 == v && w / 2 ^ 16 % 256 == v && w / 2 ^ 24 % 256 == v

word_table : holds_below word_test 256 ≡ true
unfolding holds_below word_test val32
word_table = refl

word_bytes :
    (v : ℕ)
    → v < 256
    → let w = val32 v in
      (w % 256 ≡ v) × (w / 2 ^ 8 % 256 ≡ v) × (w / 2 ^ 16 % 256 ≡ v) × (w / 2 ^ 24 % 256 ≡ v)
unfolding word_test
word_bytes v h =
    let t = test_of_below word_test 256 v word_table h in
    (ground (arith, t), ground (arith, t), ground (arith, t), ground (arith, t))

word_filled :
    (mem : Memory) (p value n x : ℕ)
    → value < 256
    → filled (put_word mem p (val32 value)) (p + 4) value n x
      ≡ filled mem p value (suc (suc (suc (suc n)))) x
unfolding put_word put4 put
word_filled mem p value n x small = grind (arith, word_bytes value small)

module _ (value : ℕ) where
  abbrev Keeps : Memory → ℕ → ℕ → Cursor → Type 0
  Keeps mem p n c = (x : ℕ) → filled c.mem c.dst value c.size x ≡ filled mem p value n x

  fill_head-Keeps : (mem : Memory) (p n : ℕ) → Keeps mem p n (fill_head mem p value n)
  unfolding fill_head
  fill_head-Keeps mem p zero = λ x. refl
  fill_head-Keeps mem p (suc n) =
      let next = fill_head-Keeps (put mem p value) (p + 1) n in
      if_intro (Keeps mem p (suc n)) (p % 4 == 0) _ _ (λ e x. refl)
        (λ e x. next x ∙ byte_filled mem p value n x)

  fill_words-Keeps :
      (mem : Memory) (p n : ℕ) → value < 256 → Keeps mem p n (fill_words mem p (val32 value) n)
  unfolding fill_words
  fill_words-Keeps mem p zero small = λ x. refl
  fill_words-Keeps mem p (suc zero) small = λ x. refl
  fill_words-Keeps mem p (suc (suc zero)) small = λ x. refl
  fill_words-Keeps mem p (suc (suc (suc zero))) small = λ x. refl
  fill_words-Keeps mem p (suc (suc (suc (suc n)))) small = λ x.
      fill_words-Keeps (put_word mem p (val32 value)) (p + 4) n small x
      ∙ word_filled mem p value n x small

  fill_tail_lem : (mem : Memory) (p n x : ℕ) → fill_tail mem p value n x ≡ filled mem p value n x
  unfolding fill_tail
  fill_tail_lem mem p zero x = grind arith
  fill_tail_lem mem p (suc n) x =
      fill_tail_lem (put mem p value) (p + 1) n x ∙ byte_filled mem p value n x

  -- `jlos_memset` of a byte with its loops of bytes and words fills the block, and changes nothing else,
  -- for any alignment.
  memset-filled :
      (mem : Memory) (ptr size x : ℕ)
      → value < 256
      → memset mem ptr value size x ≡ filled mem ptr value size x
  unfolding memset
  memset-filled mem ptr size x small =
      let c = fill_head mem ptr value size in
      let w = fill_words c.mem c.dst (val32 value) c.size in
      fill_tail_lem w.mem w.dst w.size x
      ∙ fill_words-Keeps c.mem c.dst c.size small x
      ∙ fill_head-Keeps mem ptr size x
