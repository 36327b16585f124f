-- ===== src/Dsa/Ringbuf/Index.antt =====
-- The representation invariant of the ring, and where its indices point.
use native.Mathlib.Nat.{mod-eq_of_lt, mod-eq-sub-mod}
use johnbeauty_os.Prelude.{
  ◌∙◌, true, false, sym, tabulate-get_or, tabulate_ext, length-append, ap, get_or-append_left,
  get_or-append_right, ℕ, ◌+◌, ◌-◌, ◌%◌, ◌^◌, ◌≤◌, ◌<◌, ◌≡◌, ◌⊎◌, List, ◌++◌, arith, length, get_or,
  tabulate, take, drop, copy_to, length-copy_to, get_or-copy_to_in, get_or-copy_to_out, get_or-take,
  get_or-drop, length-take, length-drop, sub32, dec_lt, Bool-cases, inl, inr, ltb,
}
use johnbeauty_os.Dsa.Ringbuf.{Ringbuf, count, put, fetch}

-- A ring of `2 ^ k` bytes over an array of that length. `count` never exceeds the size.
pub record IsValid (k : ℕ) (rf : Ringbuf) : Type 0 where
  pub small : k ≤ 31
  pub size_eq : rf.size ≡ 2 ^ k
  pub mask_eq : rf.mask ≡ 2 ^ k - 1
  pub storage : length rf.buffer ≡ 2 ^ k
  pub in_word : rf.in_pos < 2 ^ 32
  pub out_word : rf.out_pos < 2 ^ 32
  pub within : count rf ≤ 2 ^ k

-- The bytes that the ring holds, oldest first.
unfoldable pub contents : Ringbuf → List ℕ
contents rf = tabulate (count rf) (λ i. get_or rf.buffer ((rf.out_pos + i) % rf.size) 0)

-- Going round the ring of `s` places from offset `off`.
pub round :
    (off s i : ℕ)
    → off < s
    → i < s
    → ((off + i < s) × ((off + i) % s ≡ off + i)) ⊎ ((s ≤ off + i) × ((off + i) % s ≡ off + i - s))
round off s i h p = elim (dec_lt (off + i) s) [
  | yes q ↦ inl (q, mod-eq_of_lt q)
  | no q ↦ inr (
    omega arith,
    omega (
      arith,
      mod-eq-sub-mod {n = off + i} {m = s} (omega arith),
      mod-eq_of_lt {n = off + i - s} {m = s} (omega arith),
    ),
  )
]

-- `put` and `fetch` on a ring of `s` places, from offset `off`.
module _ (buf : List ℕ) (s off : ℕ) (filled : length buf ≡ s) (word : s < 2 ^ 32)
    (inside : off < s) where
  to_end : sub32 s off ≡ s - off
  to_end = omega arith

  pub length-put : (xs : List ℕ) (n : ℕ) → length (put buf s off xs n) ≡ s
  unfolding put
  length-put xs n = elim (Bool-cases (ltb (sub32 s off) n)) [
    | inl split ↦ rw (split, length-copy_to, length-copy_to) filled
    | inr whole ↦ rw (whole, length-copy_to) filled
  ]

  -- The two copies of `put` and the two blocks of `fetch`, when `n` bytes go past the end.
  split_put : List ℕ → ℕ → List ℕ
  split_put xs n =
      copy_to (copy_to buf off (take (s - off) xs)) 0 (take (n - (s - off)) (drop (s - off) xs))

  split_put-low :
      (xs : List ℕ) (n j : ℕ)
      → n ≤ s
      → off ≤ j
      → j < s
      → get_or (split_put xs n) j 0 ≡ get_or (copy_to buf off (take (s - off) xs)) j 0
  unfolding split_put
  split_put-low xs n j hn lo hi =
      get_or-copy_to_out (copy_to buf off (take (s - off) xs)) 0
        (take (n - (s - off)) (drop (s - off) xs)) j 0
        (inr (omega (arith, length-take (n - (s - off)) (drop (s - off) xs))))

  split_put-high :
      (xs : List ℕ) (n i : ℕ)
      → n ≤ s
      → n ≤ length xs
      → i < n
      → s ≤ off + i
      → get_or (split_put xs n) (off + i - s) 0 ≡ get_or xs i 0
  unfolding split_put
  split_put-high xs n i hn hx hi far =
      let back : off + i - s ≡ 0 + (i - (s - off)) = omega arith in
      let forth : s - off + (i - (s - off)) ≡ i = omega arith in
      rw back (
        get_or-copy_to_in (copy_to buf off (take (s - off) xs)) 0
          (take (n - (s - off)) (drop (s - off) xs)) (i - (s - off)) 0
          (omega (arith, length-take (n - (s - off)) (drop (s - off) xs), length-drop (s - off) xs))
          (omega (
            arith,
            length-take (n - (s - off)) (drop (s - off) xs),
            length-copy_to buf off (take (s - off) xs),
          ))
        ∙ get_or-take (n - (s - off)) (drop (s - off) xs) (i - (s - off)) 0 (omega arith)
        ∙ get_or-drop (s - off) xs (i - (s - off)) 0
        ∙ ap (λ t. get_or xs t 0) forth)

  -- One copy at the offset, of the first `n` bytes.
  copy-in :
      (xs : List ℕ) (n i : ℕ)
      → off + n ≤ s
      → i < n
      → i < length xs
      → get_or (copy_to buf off (take n xs)) (off + i) 0 ≡ get_or xs i 0
  copy-in xs n i fits hi hx =
      get_or-copy_to_in buf off (take n xs) i 0 (omega (arith, length-take n xs))
        (omega (arith, length-take n xs))
      ∙ get_or-take n xs i 0 hi

  -- The `i`-th byte of the data goes to the place `i` steps round from the offset.
  pub put_in :
      (xs : List ℕ) (n i : ℕ)
      → n ≤ s
      → n ≤ length xs
      → i < n
      → get_or (put buf s off xs n) ((off + i) % s) 0 ≡ get_or xs i 0
  unfolding put split_put
  put_in xs n i hn hx hi = elim (Bool-cases (ltb (sub32 s off) n)) [
    | inl split ↦ elim (round off s i inside (omega arith)) [
      | inl (low, e) ↦
          rw (split, e, to_end)
            (split_put-low xs n (off + i) hn (omega arith) low
              ∙ copy-in xs (s - off) i (omega arith) (omega arith) (omega arith))
      | inr (high, e) ↦ rw (split, e, to_end) (split_put-high xs n i hn hx hi high)
    ]
    | inr whole ↦
        let low : off + n ≤ s = ground arith in
        rw (whole, mod-eq_of_lt {n = off + i} {m = s} (omega arith))
          (copy-in xs n i low hi (omega arith))
  ]

  -- The places past the data keep their bytes.
  pub put_out :
      (xs : List ℕ) (n i : ℕ)
      → n ≤ i
      → i < s
      → get_or (put buf s off xs n) ((off + i) % s) 0 ≡ get_or buf ((off + i) % s) 0
  unfolding put split_put
  put_out xs n i hn hi = elim (Bool-cases (ltb (sub32 s off) n)) [
    | inl split ↦ elim (round off s i inside hi) [
      | inl (low, e) ↦ absurd (let past : s - off < n = ground arith in omega arith)
      | inr (high, e) ↦
          rw (split, e, to_end)
            (get_or-copy_to_out (copy_to buf off (take (s - off) xs)) 0
                (take (n - (s - off)) (drop (s - off) xs)) (off + i - s) 0
                (inr (
                  let past : s - off < n = ground arith in
                  omega (arith, length-take (n - (s - off)) (drop (s - off) xs))))
              ∙ get_or-copy_to_out buf off (take (s - off) xs) (off + i - s) 0 (inl (omega arith)))
    ]
    | inr whole ↦
        let low : off + n ≤ s = ground arith in
        rw whole (
          get_or-copy_to_out buf off (take n xs) ((off + i) % s) 0 (elim (round off s i inside hi) [
            | inl (near, e) ↦ inr (omega (arith, length-take n xs))
            | inr (high, e) ↦ inl (omega arith)
          ]))
  ]

  fetch-split :
      (n : ℕ)
      → ltb (sub32 s off) n ≡ true
      → fetch buf s off n ≡ take (s - off) (drop off buf) ++ take (n - (s - off)) buf
  unfolding fetch
  fetch-split n split = rw (split, to_end)

  fetch-whole : (n : ℕ) → ltb (sub32 s off) n ≡ false → fetch buf s off n ≡ take n (drop off buf)
  unfolding fetch
  fetch-whole n whole = rw whole

  length-fetch : (n : ℕ) → n ≤ s → length (fetch buf s off n) ≡ n
  length-fetch n hn = elim (Bool-cases (ltb (sub32 s off) n)) [
    | inl split ↦
        rw (fetch-split n split, length-append)
          (let past : s - off < n = ground arith in
            omega (
              arith,
              length-take (s - off) (drop off buf),
              length-drop off buf,
              length-take (n - (s - off)) buf,
            ))
    | inr whole ↦ rw (fetch-whole n whole) (
        let low : off + n ≤ s = ground arith in
        omega (arith, length-take n (drop off buf), length-drop off buf))
  ]

  fetch_at :
      (n i : ℕ) → n ≤ s → i < n → get_or (fetch buf s off n) i 0 ≡ get_or buf ((off + i) % s) 0
  fetch_at n i hn hi = elim (Bool-cases (ltb (sub32 s off) n)) [
    | inl split ↦ elim (round off s i inside (omega arith)) [
      | inl (low, e) ↦
          rw (fetch-split n split, e)
            (get_or-append_left (take (s - off) (drop off buf)) (take (n - (s - off)) buf) i 0
                (omega (arith, length-take (s - off) (drop off buf), length-drop off buf))
              ∙ get_or-take (s - off) (drop off buf) i 0 (omega arith)
              ∙ get_or-drop off buf i 0)
      | inr (high, e) ↦
          let past : i ≡ length (take (s - off) (drop off buf)) + (off + i - s) =
            omega (arith, length-take (s - off) (drop off buf), length-drop off buf) in
          rw (fetch-split n split, e)
            (ap (λ t. get_or (take (s - off) (drop off buf) ++ take (n - (s - off)) buf) t 0) past
              ∙ get_or-append_right (take (s - off) (drop off buf)) (take (n - (s - off)) buf)
                  (off + i - s) 0
              ∙ get_or-take (n - (s - off)) buf (off + i - s) 0 (omega arith))
    ]
    | inr whole ↦
        let low : off + n ≤ s = ground arith in
        rw (fetch-whole n whole, mod-eq_of_lt {n = off + i} {m = s} (omega arith))
          (get_or-take n (drop off buf) i 0 hi ∙ get_or-drop off buf i 0)
  ]

  -- The bytes fetched are those that stand round the ring from the offset on.
  pub fetch_lem :
      (n : ℕ) → n ≤ s → fetch buf s off n ≡ tabulate n (λ i. get_or buf ((off + i) % s) 0)
  fetch_lem n hn =
      sym (tabulate-get_or (fetch buf s off n) 0)
      ∙ rw (length-fetch n hn) (tabulate_ext n _ _ (λ i hi. fetch_at n i hn hi))
