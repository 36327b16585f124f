-- ===== src/Dsa/Ringbuf/Moves.antt =====
-- The ring after a write or a read of `n` bytes: still valid, and which bytes it then holds.
use native.Mathlib.Nat.{mod-add-mod, add-mod_right, mod-lt, pow-le-pow_right}
use Prim.Native.Nat.{bit_and}
use johnbeauty_os.Prelude.{
  ℕ, ◌+◌, ◌-◌, ◌%◌, ◌^◌, ◌≤◌, ◌<◌, ◌≡◌, ◌∙◌, refl, sym, ap, ap₂, List, ◌++◌, arith, length, get_or,
  tabulate, tabulate_ext, tabulate-append, tabulate_all, length-tabulate, take-tabulate,
  drop-tabulate, get_or-take, length-take, take, drop, add32,
}
use johnbeauty_os.Prelude.Bits.{bit_and_mask, mod_pow_mod, pow-pos}
use johnbeauty_os.Dsa.Ringbuf.{Ringbuf, count, free, put, fetch}
use johnbeauty_os.Dsa.Ringbuf.Index.{IsValid, contents, length-put, put_in, put_out, fetch_lem}

pub pow_small : (k : ℕ) → k ≤ 31 → 2 ^ k ≤ 2 ^ 31
pow_small k h = pow-le-pow_right (omega arith) h

pub length-contents : (rf : Ringbuf) → length (contents rf) ≡ count rf
unfolding contents
length-contents rf = length-tabulate (count rf) _

contents_at :
    (rf : Ringbuf) (s c : ℕ)
    → rf.size ≡ s
    → count rf ≡ c
    → contents rf ≡ tabulate c (λ i. get_or rf.buffer ((rf.out_pos + i) % s) 0)
unfolding contents
contents_at rf s c es ec =
    ap₂ (λ s c. tabulate c (λ i. get_or rf.buffer ((rf.out_pos + i) % s) 0)) es ec

module _ (k : ℕ) (rf : Ringbuf) (v : IsValid k rf) where
  in_round : rf.in_pos % 2 ^ k ≡ (rf.out_pos + count rf) % 2 ^ k
  unfolding count
  in_round =
      let wrap : rf.in_pos ≡ (rf.out_pos + count rf) % 2 ^ 32 = omega arith in
      ap (λ t. t % 2 ^ k) wrap ∙ mod_pow_mod k 32 (rf.out_pos + count rf) (omega arith)

  pub write_offset : bit_and rf.in_pos rf.mask ≡ (rf.out_pos + count rf) % 2 ^ k
  write_offset = ap (λ t. bit_and rf.in_pos t) v.mask_eq ∙ bit_and_mask k rf.in_pos ∙ in_round

  pub read_offset : bit_and rf.out_pos rf.mask ≡ rf.out_pos % 2 ^ k
  read_offset = ap (λ t. bit_and rf.out_pos t) v.mask_eq ∙ bit_and_mask k rf.out_pos

  -- The data area of the ring starts where the held bytes end.
  after_held :
      (i : ℕ)
      → ((rf.out_pos + count rf) % 2 ^ k + i) % 2 ^ k ≡ (rf.out_pos + (count rf + i)) % 2 ^ k
  after_held i = mod-add-mod (rf.out_pos + count rf) (2 ^ k) i ∙ ap (λ t. t % 2 ^ k) (omega arith)

  -- The held bytes stand past the free area, going on round the ring.
  held_place :
      (i : ℕ)
      → i < count rf
      → ((rf.out_pos + count rf) % 2 ^ k + (2 ^ k - count rf + i)) % 2 ^ k
        ≡ (rf.out_pos + i) % 2 ^ k
  held_place i h =
      mod-add-mod (rf.out_pos + count rf) (2 ^ k) (2 ^ k - count rf + i)
      ∙ ap (λ t. t % 2 ^ k) (let w = v.within in omega arith)
      ∙ add-mod_right (rf.out_pos + i) (2 ^ k)

  pub free_lem : free rf ≡ 2 ^ k - count rf
  unfolding free
  free_lem = omega (arith, v.size_eq, v.within, pow_small k v.small)

  -- What `put` leaves in the array is the held bytes, then the first `n` bytes of the data.
  put-contents :
      (xs : List ℕ) (n : ℕ)
      → n ≤ 2 ^ k - count rf
      → n ≤ length xs
      → tabulate (count rf + n) (λ i.
        get_or
          (put rf.buffer (2 ^ k) ((rf.out_pos + count rf) % 2 ^ k) xs n)
          ((rf.out_pos + i) % 2 ^ k)
          0)
        ≡ tabulate (count rf) (λ i. get_or rf.buffer ((rf.out_pos + i) % 2 ^ k) 0) ++ take n xs
  put-contents xs n hn hx =
      tabulate-append (count rf) n _
      ∙ ap₂ ◌++◌
          (tabulate_ext (count rf) _ _ (λ i hi. rw (← held_place i hi) (
            put_out rf.buffer (2 ^ k) off v.storage small inside xs n (2 ^ k - count rf + i)
              (omega arith) (omega (arith, v.within)))))
          (tabulate_ext n _ (λ i. get_or (take n xs) i 0)
              (λ i hi. rw (← after_held i) (
                put_in rf.buffer (2 ^ k) off v.storage small inside xs n i (omega arith) hx hi
                ∙ sym (get_or-take n xs i 0 hi)))
            ∙ tabulate_all n (take n xs) 0 (omega (arith, length-take n xs)))
    where
      off : ℕ
      off = (rf.out_pos + count rf) % 2 ^ k

      small : 2 ^ k < 2 ^ 32
      small = omega (arith, pow_small k v.small)

      inside : off < 2 ^ k
      inside = mod-lt _ (pow-pos k)

  -- What a ring holds after a write of `n` bytes that fit.
  module _ (xs : List ℕ) (n : ℕ) (hn : n ≤ 2 ^ k - count rf) (hx : n ≤ length xs) where
    unfoldable pub written : Ringbuf
    written = record rf {
      buffer = put rf.buffer (2 ^ k) ((rf.out_pos + count rf) % 2 ^ k) xs n;
      in_pos = add32 rf.in_pos n;
    }

    count-written : count written ≡ count rf + n
    unfolding count written
    count-written = omega (arith, v.in_word, v.out_word, v.within, pow_small k v.small)

    pub written-IsValid : IsValid k written
    unfolding written
    written-IsValid = record {
      small = v.small;
      size_eq = v.size_eq;
      mask_eq = v.mask_eq;
      storage =
          length-put rf.buffer (2 ^ k) _ v.storage (omega (arith, pow_small k v.small))
            (mod-lt _ (pow-pos k)) xs n;
      in_word = omega arith;
      out_word = v.out_word;
      within = rw count-written (omega (arith, v.within));
    }

    pub contents-written : contents written ≡ contents rf ++ take n xs
    unfolding written
    contents-written =
        contents_at written (2 ^ k) (count rf + n) v.size_eq count-written
        ∙ put-contents xs n hn hx
        ∙ ap (λ t. t ++ take n xs) (sym (contents_at rf (2 ^ k) (count rf) v.size_eq refl))

  -- What a ring holds after `n` held bytes are read.
  module _ (n : ℕ) (hn : n ≤ count rf) where
    unfoldable pub drained : Ringbuf
    drained = record rf { out_pos = add32 rf.out_pos n }

    count-drained : count drained ≡ count rf - n
    unfolding count drained
    count-drained = omega (arith, v.in_word, v.out_word, v.within, pow_small k v.small)

    pub drained-IsValid : IsValid k drained
    unfolding drained
    drained-IsValid = record {
      small = v.small;
      size_eq = v.size_eq;
      mask_eq = v.mask_eq;
      storage = v.storage;
      in_word = v.in_word;
      out_word = omega arith;
      within = rw count-drained (omega (arith, v.within));
    }

    drained_place : (i : ℕ) → (add32 rf.out_pos n + i) % 2 ^ k ≡ (rf.out_pos + (n + i)) % 2 ^ k
    drained_place i =
        sym (mod-add-mod (add32 rf.out_pos n) (2 ^ k) i)
        ∙ ap (λ t. (t + i) % 2 ^ k) (mod_pow_mod k 32 (rf.out_pos + n) (omega (arith, v.small)))
        ∙ mod-add-mod (rf.out_pos + n) (2 ^ k) i
        ∙ ap (λ t. t % 2 ^ k) (omega arith)

    pub contents-drained : contents drained ≡ drop n (contents rf)
    unfolding drained
    contents-drained =
        contents_at drained (2 ^ k) (count rf - n) v.size_eq count-drained
        ∙ tabulate_ext (count rf - n) _ (λ i. get_or rf.buffer ((rf.out_pos + (n + i)) % 2 ^ k) 0)
            (λ i hi. ap (λ t. get_or rf.buffer t 0) (drained_place i))
        ∙ sym (drop-tabulate n (count rf - n) (λ i. get_or rf.buffer ((rf.out_pos + i) % 2 ^ k) 0))
        ∙ ap (drop n) (sym (contents_at rf (2 ^ k) (n + (count rf - n)) v.size_eq (omega arith)))

    pub fetched : fetch rf.buffer (2 ^ k) (rf.out_pos % 2 ^ k) n ≡ take n (contents rf)
    fetched =
        fetch_lem rf.buffer (2 ^ k) (rf.out_pos % 2 ^ k) v.storage
          (omega (arith, pow_small k v.small)) (mod-lt _ (pow-pos k)) n (omega (arith, v.within))
        ∙ tabulate_ext n _ (λ i. get_or rf.buffer ((rf.out_pos + i) % 2 ^ k) 0)
            (λ i hi. ap (λ t. get_or rf.buffer t 0) (mod-add-mod rf.out_pos (2 ^ k) i))
        ∙ sym (take-tabulate n (count rf) (λ i. get_or rf.buffer ((rf.out_pos + i) % 2 ^ k) 0) hn)
        ∙ ap (take n) (sym (contents_at rf (2 ^ k) (count rf) v.size_eq refl))
