-- ===== src/Kernel/Pipe/Runs.antt =====
-- The pipe of `kernel/ipc.c` as a stream: what is read is what was written, in its order, whichever way
-- the rounds of writers and readers interleave.
use johnbeauty_os.Prelude.{ℕ, ◌≡◌, ◌∙◌, refl, sym, ap, Option, List, [], ◌++◌, append_assoc}
use johnbeauty_os.Kernel.Sync.{Tasks}
use johnbeauty_os.Kernel.Pipe.{
  Pipe, pipe_init, pipe_close, write_round, read_round, slot_wait, item_wait, pipe_ref_inc,
}
use johnbeauty_os.Kernel.Pipe.Stream.{
  IsPipe, contents, taken, handed, init-Holds, write_round-Holds, read_round-Holds,
}

-- The states that the rounds of any writers and readers lead to, with what was written and what was
-- read so far, and with the waits, the closing and the references between them.
pub data Run (asked : ℕ) : List ℕ → List ℕ → Pipe → Tasks → Type 0 where
  start : (tasks : Tasks) → Run asked [] [] (pipe_init asked) tasks
  slot_waited :
      {sent got : List ℕ} {pipe : Pipe} {tasks : Tasks} (t : Option ℕ)
      → Run asked sent got pipe tasks
      → Run asked sent got (slot_wait pipe tasks t).0 (slot_wait pipe tasks t).1
  item_waited :
      {sent got : List ℕ} {pipe : Pipe} {tasks : Tasks} (t : Option ℕ)
      → Run asked sent got pipe tasks
      → Run asked sent got (item_wait pipe tasks t).0 (item_wait pipe tasks t).1
  wrote :
      {sent got : List ℕ} {pipe : Pipe} {tasks : Tasks} (xs : List ℕ)
      → Run asked sent got pipe tasks
      → Run asked
          (sent ++ taken xs (write_round pipe tasks xs).0)
          got
          (write_round pipe tasks xs).1
          (write_round pipe tasks xs).2
  read :
      {sent got : List ℕ} {pipe : Pipe} {tasks : Tasks} (want : ℕ)
      → Run asked sent got pipe tasks
      → Run asked sent
          (got ++ handed (read_round pipe tasks want).0)
          (read_round pipe tasks want).1
          (read_round pipe tasks want).2
  was_closed :
      {sent got : List ℕ} {pipe : Pipe} {tasks : Tasks}
      → Run asked sent got pipe tasks
      → Run asked sent got (pipe_close pipe tasks).0 (pipe_close pipe tasks).1
  shared :
      {sent got : List ℕ} {pipe : Pipe} {tasks : Tasks}
      → Run asked sent got pipe tasks
      → Run asked sent got (pipe_ref_inc pipe) tasks

abbrev Streams : List ℕ → List ℕ → Pipe → Type 0
Streams sent got pipe = IsPipe pipe × (sent ≡ got ++ contents pipe)

Streams-kept :
    (sent got : List ℕ) (pipe pipe' : Pipe)
    → Streams sent got pipe
    → let p = record pipe {
      write_slots = pipe'.write_slots;
      read_items = pipe'.read_items;
      closed = pipe'.closed;
      refcount = pipe'.refcount;
    } in
      Streams sent got p
unfolding contents
Streams-kept sent got pipe pipe' (v, e) = (
  record {
    some_size = v.some_size;
    small = v.small;
    storage = v.storage;
    reading = v.reading;
    within = v.within;
    writing = v.writing;
  },
  e,
)

-- Whichever way the rounds of writers and readers interleave with waits and the closing, the bytes
-- written are the bytes read, followed by those that the pipe holds, and the pipe holds at most as
-- many as its buffer has room for.
pub Run-stream :
    (asked : ℕ) {sent got : List ℕ} {pipe : Pipe} {tasks : Tasks}
    → Run asked sent got pipe tasks
    → IsPipe pipe × (sent ≡ got ++ contents pipe)
unfolding slot_wait item_wait pipe_close pipe_ref_inc
Run-stream asked (start tasks) = let h = init-Holds asked in (h.0, sym h.1)
Run-stream asked (slot_waited {sent = sent} {got = got} {pipe = pipe} {tasks = tasks} t r) =
    Streams-kept sent got pipe (slot_wait pipe tasks t).0 (Run-stream asked r)
Run-stream asked (item_waited {sent = sent} {got = got} {pipe = pipe} {tasks = tasks} t r) =
    Streams-kept sent got pipe (item_wait pipe tasks t).0 (Run-stream asked r)
Run-stream asked (wrote {got = got} {pipe = pipe} {tasks = tasks} xs r) =
    let h = Run-stream asked r in
    let next = write_round-Holds pipe tasks (contents pipe) xs (h.0, refl) in
    (
      next.0,
      ap (λ t. t ++ taken xs (write_round pipe tasks xs).0) h.1
          ∙ append_assoc got (contents pipe) (taken xs (write_round pipe tasks xs).0)
          ∙ ap (λ t. got ++ t) (sym next.1),
    )
Run-stream asked (read {got = got} {pipe = pipe} {tasks = tasks} want r) =
    let h = Run-stream asked r in
    let next = read_round-Holds pipe tasks (contents pipe) want (h.0, refl) in
    (
      next.0,
      h.1
          ∙ ap (λ t. got ++ t) next.1
          ∙ sym (
              append_assoc got (handed (read_round pipe tasks want).0)
                (contents (read_round pipe tasks want).1)),
    )
Run-stream asked (was_closed {sent = sent} {got = got} {pipe = pipe} {tasks = tasks} r) =
    Streams-kept sent got pipe (pipe_close pipe tasks).0 (Run-stream asked r)
Run-stream asked (shared {sent = sent} {got = got} {pipe = pipe} r) =
    Streams-kept sent got pipe (pipe_ref_inc pipe) (Run-stream asked r)
