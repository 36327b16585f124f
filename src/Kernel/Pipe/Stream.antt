-- ===== src/Kernel/Pipe/Stream.antt =====
-- The rounds of a write and of a read on the pipe of `kernel/ipc.c`: what they put behind the bytes in
-- the pipe, and what they take in front.
use native.Mathlib.Nat.{mod-lt, mod-eq_of_lt, mod-add-mod}
use johnbeauty_os.Prelude.{
  ℕ, ◌+◌, ◌-◌, ◌%◌, ◌≤◌, ◌<◌, ◌≡◌, ◌∙◌, refl, sym, ap, ap₂, false, not, ◌&&◌, Option, none, some,
  List, [], ◌++◌, arith, min, ◌==◌, if_intro, length, length-replicate, take, tabulate, add32,
  sub32, append-nil,
}
use johnbeauty_os.Kernel.Sync.{Tasks}
use johnbeauty_os.Kernel.Pipe.{
  Pipe, buffer_size, pipe_init, get_bytes, write_size, read_size, write_chunk, read_chunk,
  items_posted, slots_posted, write_round, read_round,
}
use johnbeauty_os.Kernel.Pipe.Ring.{held, put_bytes-held, get_bytes-held}

pub record IsPipe (pipe : Pipe) : Type 0 where
  pub some_size : 0 < pipe.buf_size
  pub small : pipe.buf_size ≤ 65536
  pub storage : length pipe.buffer ≡ pipe.buf_size
  pub reading : pipe.read_pos < pipe.buf_size
  pub within : pipe.count ≤ pipe.buf_size
  pub writing : pipe.write_pos ≡ (pipe.read_pos + pipe.count) % pipe.buf_size

-- The bytes in the pipe, the oldest first.
unfoldable pub contents : Pipe → List ℕ
contents pipe = held pipe.buf_size pipe.buffer pipe.read_pos pipe.count

-- A pipe that holds `bytes`.
abbrev pub Holds : List ℕ → Pipe → Type 0
Holds bytes pipe = IsPipe pipe × (contents pipe ≡ bytes)

pub init-Holds : (asked : ℕ) → Holds [] (pipe_init asked)
unfolding pipe_init buffer_size contents held tabulate
init-Holds asked =
    let pos : 0 < buffer_size asked = ground arith in
    let small : buffer_size asked ≤ 65536 = ground arith in
    (
      record {
        some_size = pos;
        small = small;
        storage = length-replicate (buffer_size asked) 0;
        reading = pos;
        within = omega arith;
        writing = sym (mod-eq_of_lt pos);
      },
      refl,
    )

-- How much a round moves.
write_size_bounds :
    (pipe : Pipe) (want : ℕ)
    → IsPipe pipe
    → (write_size pipe want ≤ want) × (pipe.count + write_size pipe want ≤ pipe.buf_size)
unfolding write_size
write_size_bounds pipe want v =
    let free : sub32 pipe.buf_size pipe.count ≡ pipe.buf_size - pipe.count =
      omega (arith, v.small, v.within) in
    (ground (arith, free), ground (arith, free, v.within))

read_size_bounds :
    (pipe : Pipe) (want : ℕ) → (read_size pipe want ≤ want) × (read_size pipe want ≤ pipe.count)
unfolding read_size
read_size_bounds pipe want = (ground arith, ground arith)

write_chunk-Holds :
    (pipe : Pipe) (bytes xs : List ℕ)
    → Holds bytes pipe
    → let (n, pipe') = write_chunk pipe xs in Holds (bytes ++ take n xs) pipe'
unfolding write_chunk contents
write_chunk-Holds pipe bytes xs (v, e) =
    let n : ℕ = write_size pipe (length xs) in
    let size = write_size_bounds pipe (length xs) v in
    let word : add32 pipe.count n ≡ pipe.count + n = omega (arith, size.1, v.small) in
    let put =
      put_bytes-held pipe.buf_size (omega (arith, v.small)) pipe.buffer pipe.read_pos pipe.count
        pipe.write_pos xs n v.writing v.storage v.reading size.1 size.0 in
    (
      record {
        some_size = v.some_size;
        small = v.small;
        storage = put.0;
        reading = v.reading;
        within = omega (arith, word, size.1);
        writing = put.1 ∙ ap (λ t. (pipe.read_pos + t) % pipe.buf_size) (sym word);
      },
      ap (held pipe.buf_size _ pipe.read_pos) word ∙ put.2 ∙ ap (λ t. t ++ take n xs) e,
    )

read_chunk-Holds :
    (pipe : Pipe) (bytes : List ℕ) (want : ℕ)
    → Holds bytes pipe
    → let (xs, pipe') = read_chunk pipe want in IsPipe pipe' × (bytes ≡ xs ++ contents pipe')
unfolding read_chunk contents
read_chunk-Holds pipe bytes want (v, e) =
    let n : ℕ = read_size pipe want in
    let size = read_size_bounds pipe want in
    let word : sub32 pipe.count n ≡ pipe.count - n = omega (arith, size.1, v.small, v.within) in
    let whole : n + (pipe.count - n) ≡ pipe.count = omega (arith, size.1) in
    let got =
      get_bytes-held pipe.buf_size (omega (arith, v.small)) pipe.buffer pipe.read_pos n
        (pipe.count - n) v.reading in
    (
      record {
        some_size = v.some_size;
        small = v.small;
        storage = v.storage;
        reading = omega (arith, got.1, mod-lt (pipe.read_pos + n) v.some_size);
        within = omega (arith, word, v.within);
        writing =
            v.writing
            ∙ ap (λ t. t % pipe.buf_size) (omega (arith, whole))
            ∙ sym (mod-add-mod (pipe.read_pos + n) pipe.buf_size (pipe.count - n))
            ∙ ap₂ (λ p c. (p + c) % pipe.buf_size) (sym got.1) (sym word);
      },
      sym e
          ∙ ap (held pipe.buf_size pipe.buffer pipe.read_pos) (sym whole)
          ∙ got.2
          ∙ ap
              (λ t.
                (get_bytes pipe.buf_size pipe.buffer pipe.read_pos n).0
                ++ held pipe.buf_size pipe.buffer
                    (get_bytes pipe.buf_size pipe.buffer pipe.read_pos n).1 t)
              (sym word),
    )

-- What a round of a write took of its bytes, and what a round of a read handed over.
abbrev pub taken : List ℕ → Option ℕ → List ℕ
taken xs none = []
taken xs (some n) = take n xs

abbrev pub handed : Option (List ℕ) → List ℕ
handed none = []
handed (some xs) = xs

-- The semaphores, the end mark and the references do not touch the bytes.
Holds-kept :
    (bytes : List ℕ) (pipe pipe' : Pipe)
    → Holds bytes pipe
    → let p = record pipe {
      write_slots = pipe'.write_slots;
      read_items = pipe'.read_items;
      closed = pipe'.closed;
      refcount = pipe'.refcount;
    } in
      Holds bytes p
unfolding contents
Holds-kept bytes pipe pipe' (v, e) = (
  record {
    some_size = v.some_size;
    small = v.small;
    storage = v.storage;
    reading = v.reading;
    within = v.within;
    writing = v.writing;
  },
  e,
)

pub write_round-Holds :
    (pipe : Pipe) (tasks : Tasks) (bytes xs : List ℕ)
    → Holds bytes pipe
    → let (n, pipe', tasks') = write_round pipe tasks xs in Holds (bytes ++ taken xs n) pipe'
unfolding write_round items_posted slots_posted
write_round-Holds pipe tasks bytes xs h =
    let P : Option ℕ × Pipe × Tasks → Type 0 = λ r. Holds (bytes ++ taken xs r.0) r.1 in
    let (n, pipe') = write_chunk pipe xs in
    if_intro P pipe.closed _ _
      (λ t. rw (append-nil bytes) (Holds-kept bytes pipe (slots_posted 1 pipe tasks).0 h))
      (λ t.
        Holds-kept (bytes ++ take n xs) pipe' (items_posted n pipe' tasks).0
          (write_chunk-Holds pipe bytes xs h))

pub read_round-Holds :
    (pipe : Pipe) (tasks : Tasks) (bytes : List ℕ) (want : ℕ)
    → Holds bytes pipe
    → let (xs, pipe', tasks') = read_round pipe tasks want in
      IsPipe pipe' × (bytes ≡ handed xs ++ contents pipe')
unfolding read_round items_posted slots_posted contents
read_round-Holds pipe tasks bytes want h =
    let P : Option (List ℕ) × Pipe × Tasks → Type 0 =
      λ r. IsPipe r.1 × (bytes ≡ handed r.0 ++ contents r.1) in
    let (xs, pipe') = read_chunk pipe want in
    let next = read_chunk-Holds pipe bytes want h in
    if_intro P (pipe.closed && pipe.count == 0) _ _
      (λ t.
        let kept = Holds-kept bytes pipe (items_posted 1 pipe tasks).0 h in (kept.0, sym kept.1))
      (λ t.
        if_intro P (not pipe.closed) _ _
          (λ t2.
            let kept =
              Holds-kept (contents pipe') pipe' (slots_posted (length xs) pipe' tasks).0
                (next.0, refl) in
            (kept.0, next.1 ∙ ap (λ t. xs ++ t) (sym kept.1)))
          (λ t2. next))

-- A round of a write of some bytes on an open pipe that is not full moves at least one of them, and
-- fewer than what is left only to the end of the buffer or of its free room.
pub write_round-progress :
    (pipe : Pipe) (tasks : Tasks) (xs : List ℕ)
    → IsPipe pipe
    → pipe.closed ≡ false
    → pipe.count < pipe.buf_size
    → 0 < length xs
    → let n = min (min (length xs) (pipe.buf_size - pipe.count)) (pipe.buf_size - pipe.write_pos) in
      ((write_round pipe tasks xs).0 ≡ some n) × (0 < n)
unfolding write_round write_chunk write_size items_posted
write_round-progress pipe tasks xs v open_ room some_bytes =
    let last : pipe.write_pos < pipe.buf_size =
      omega (arith, v.writing, mod-lt (pipe.read_pos + pipe.count) v.some_size) in
    let free : sub32 pipe.buf_size pipe.count ≡ pipe.buf_size - pipe.count =
      omega (arith, v.small, v.within) in
    let ahead : sub32 pipe.buf_size pipe.write_pos ≡ pipe.buf_size - pipe.write_pos =
      omega (arith, v.small) in
    rw (open_, free, ahead) (ap some (ground arith), omega arith)
