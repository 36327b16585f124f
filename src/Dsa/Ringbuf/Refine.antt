-- ===== src/Dsa/Ringbuf/Refine.antt =====
-- A valid ring behaves as the queue of the bytes that it holds, on every sequence of calls.
use johnbeauty_os.Prelude.{
  ℕ, ◌+◌, ◌-◌, ◌%◌, ◌^◌, ◌≤◌, ◌≡◌, ◌∙◌, refl, sym, ap, ap₂, List, [], ◌∷◌, ◌++◌, arith, length,
  take, drop, add32, min, ltb, if◌then◌else◌, nil_of_length, true, ◌↔◌, tabulate,
}
use johnbeauty_os.Prelude.Bits.{pow-pos}
use johnbeauty_os.Dsa.Ringbuf.{
  Ringbuf, count, free, is_empty, is_full, put, fetch, write, read, peek, reset, init,
}
use johnbeauty_os.Dsa.Ringbuf.Index.{IsValid, contents}
use johnbeauty_os.Dsa.Ringbuf.Moves.{
  pow_small, length-contents, write_offset, read_offset, free_lem, written, written-IsValid,
  contents-written, drained, drained-IsValid, contents-drained, fetched,
}
use johnbeauty_os.Dsa.Ringbuf.Queue
use johnbeauty_os.Dsa.Ringbuf.Queue.{Op, put_op, get_op, look_op, reset_op, Reply}

module _ (k : ℕ) (rf : Ringbuf) (v : IsValid k rf) where
  room_eq :
      (want : ℕ)
      → (if ltb (free rf) want then free rf else want) ≡ min want (2 ^ k - length (contents rf))
  room_eq want = ground (arith, free_lem k rf v, length-contents rf)

  held_eq :
      (want : ℕ)
      → (if ltb (count rf) want then count rf else want) ≡ min want (length (contents rf))
  held_eq want = ground (arith, length-contents rf)

  write_eq :
      (xs : List ℕ) (want : ℕ)
      → let n = min want (2 ^ k - length (contents rf)) in
        write rf xs want ≡ (
          n,
          record rf {
            buffer = put rf.buffer (2 ^ k) ((rf.out_pos + count rf) % 2 ^ k) xs n;
            in_pos = add32 rf.in_pos n;
          },
        )
  unfolding write
  write_eq xs want = λ i. (
    room_eq want i,
    record rf {
      buffer = put rf.buffer (v.size_eq i) (write_offset k rf v i) xs (room_eq want i);
      in_pos = add32 rf.in_pos (room_eq want i);
    },
  )

  read_eq :
      (want : ℕ)
      → let n = min want (length (contents rf)) in
        read rf want ≡ (
          n,
          fetch rf.buffer (2 ^ k) (rf.out_pos % 2 ^ k) n,
          record rf { out_pos = add32 rf.out_pos n },
        )
  unfolding read
  read_eq want = λ i. (
    held_eq want i,
    fetch rf.buffer (v.size_eq i) (read_offset k rf v i) (held_eq want i),
    record rf { out_pos = add32 rf.out_pos (held_eq want i) },
  )

  -- A write into a valid ring, of at most as many bytes as are given, takes the first that fit, puts
  -- them behind those held, and leaves a valid ring.
  pub write_refines :
      (xs : List ℕ) (want : ℕ)
      → want ≤ length xs
      → let n = min want (2 ^ k - length (contents rf)) in
        let (got, rf') = write rf xs want in
        (got ≡ n) × (contents rf' ≡ contents rf ++ take n xs) × IsValid k rf'
  unfolding written
  write_refines xs want h =
      let n : ℕ = min want (2 ^ k - length (contents rf)) in
      rw (write_eq xs want) (
        refl,
        contents-written k rf v xs n (fits want) (omega arith),
        written-IsValid k rf v xs n (fits want) (omega arith),
      )
    where
      fits : (w : ℕ) → min w (2 ^ k - length (contents rf)) ≤ 2 ^ k - count rf
      fits w = omega (arith, length-contents rf)

  -- A read from a valid ring hands over the oldest bytes, as many as are asked for and held,
  -- removes them and leaves a valid ring.
  pub read_refines :
      (want : ℕ)
      → let n = min want (length (contents rf)) in
        let (got, bytes, rf') = read rf want in
        (got ≡ n)
        × (bytes ≡ take n (contents rf))
        × (contents rf' ≡ drop n (contents rf))
        × IsValid k rf'
  unfolding drained
  read_refines want =
      let n : ℕ = min want (length (contents rf)) in
      let held : n ≤ count rf = omega (arith, length-contents rf) in
      rw (read_eq want)
        (refl, fetched k rf v n held, contents-drained k rf v n held, drained-IsValid k rf v n held)

  -- A peek hands over what a read would.
  pub peek-read : (want : ℕ) → peek rf want ≡ ((read rf want).0, (read rf want).1)
  unfolding peek read
  peek-read want = refl

  count-zero : (is_empty rf ≡ true) ↔ (count rf ≡ 0)
  unfolding is_empty count
  count-zero = ground (arith, v.in_word, v.out_word)

  empty_in : is_empty rf ≡ true → contents rf ≡ []
  empty_in h = nil_of_length (contents rf) (length-contents rf ∙ count-zero.0 h)

  empty_out : contents rf ≡ [] → is_empty rf ≡ true
  empty_out h = count-zero.1 (sym (length-contents rf) ∙ ap length h)

  -- On a valid ring the four observers tell the number of bytes held, the room left, and whether
  -- either is zero.
  observers :
      (count rf ≡ length (contents rf))
      × (free rf ≡ 2 ^ k - length (contents rf))
      × ((is_empty rf ≡ true) ↔ (contents rf ≡ []))
      × ((is_full rf ≡ true) ↔ (length (contents rf) ≡ 2 ^ k))
  unfolding is_full
  observers = (
    sym (length-contents rf),
    omega (arith, free_lem k rf v, length-contents rf),
    (empty_in, empty_out),
    ground (arith, length-contents rf, v.size_eq),
  )

pub init-IsValid :
    (k : ℕ) (buffer : List ℕ)
    → k ≤ 31
    → length buffer ≡ 2 ^ k
    → IsValid k (init buffer (2 ^ k)) × (contents (init buffer (2 ^ k)) ≡ [])
unfolding init contents count tabulate
init-IsValid k buffer h e = (
  record {
    small = h;
    size_eq = refl;
    mask_eq = omega (arith, pow_small k h, pow-pos k);
    storage = e;
    in_word = omega arith;
    out_word = omega arith;
    within = omega arith;
  },
  refl,
)

reset-IsValid :
    (k : ℕ) (rf : Ringbuf) → IsValid k rf → IsValid k (reset rf) × (contents (reset rf) ≡ [])
unfolding reset contents count tabulate
reset-IsValid k rf v = (
  record {
    small = v.small;
    size_eq = v.size_eq;
    mask_eq = v.mask_eq;
    storage = v.storage;
    in_word = omega arith;
    out_word = omega arith;
    within = omega arith;
  },
  refl,
)

-- The calls of a client, with what each returns.
pub step : Op → Ringbuf → Reply × Ringbuf
step (put_op xs) rf = let (n, rf') = write rf xs (length xs) in ((n, []), rf')
step (get_op want) rf = let (n, bytes, rf') = read rf want in ((n, bytes), rf')
step (look_op want) rf = let (n, bytes) = peek rf want in ((n, bytes), rf)
step reset_op rf = ((0, []), reset rf)

pub run : List Op → Ringbuf → List Reply
run [] rf = []
run (op ∷ ops) rf = let (r, rf') = step op rf in r ∷ run ops rf'

-- Each call returns what the queue's call returns, and leaves a valid ring holding its queue.
step_refines :
    (k : ℕ) (op : Op) (rf : Ringbuf)
    → IsValid k rf
    → let (r, rf') = step op rf in
      ((r, contents rf') ≡ Queue.step (2 ^ k) op (contents rf)) × IsValid k rf'
unfolding step Queue.step
step_refines k (put_op xs) rf v =
    let (n, held, w) = write_refines k rf v xs (length xs) (omega arith) in
    (λ i. ((n i, []), held i), w)
step_refines k (get_op want) rf v =
    let (n, bytes, held, w) = read_refines k rf v want in (λ i. ((n i, bytes i), held i), w)
step_refines k (look_op want) rf v =
    let (n, bytes, held, w) = read_refines k rf v want in
    (rw (peek-read k rf v want) (λ i. ((n i, bytes i), contents rf)), v)
step_refines k reset_op rf v = let (w, e) = reset-IsValid k rf v in (λ i. ((0, []), e i), w)

-- No sequence of calls tells a valid ring of `2 ^ k` bytes from the queue of the bytes that it holds.
pub run_refines :
    (k : ℕ) (ops : List Op) (rf : Ringbuf)
    → IsValid k rf
    → run ops rf ≡ Queue.run (2 ^ k) ops (contents rf)
unfolding run Queue.run
run_refines k [] rf v = refl
run_refines k (op ∷ ops) rf v =
    let (e, w) = step_refines k op rf v in
    ap₂ ◌∷◌ (ap (λ p. p.0) e) (run_refines k ops _ w ∙ ap (λ p. Queue.run (2 ^ k) ops p.1) e)
