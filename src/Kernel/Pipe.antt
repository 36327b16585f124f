-- ===== src/Kernel/Pipe.antt =====
-- The pipe of `kernel/ipc.c`. What runs between `jlos_mutex_lock` and `jlos_mutex_unlock` is one step,
-- and so is a wait or a post of a semaphore; a write or a read is a loop of rounds, each a wait, a
-- step that copies a chunk, and the posts for its bytes.
pub mod Ring
pub mod Stream
pub mod Runs
mod Tests
use johnbeauty_os.Prelude.{
  ℕ, zero, suc, ◌+◌, ◌-◌, ◌%◌, ◌^◌, Bool, true, false, not, ◌&&◌, ◌||◌, Option, none, some, List,
  [], ◌∷◌, ◌==◌, ltb, if◌then◌else◌, set, get_or, length, drop, replicate, add32, sub32,
}
use johnbeauty_os.Kernel.Sync.{Semaphore, semaphore_init, semaphore_wait, semaphore_post, Tasks}

pub record Pipe : Type 0 where
  pub buffer : List ℕ
  pub buf_size : ℕ
  pub read_pos : ℕ
  pub write_pos : ℕ
  pub count : ℕ
  pub write_slots : Semaphore
  pub read_items : Semaphore
  pub closed : Bool
  pub refcount : ℕ

abbrev pub default_size : ℕ
default_size = 4096

abbrev pub max_size : ℕ
max_size = 65536

unfoldable pub buffer_size : ℕ → ℕ
buffer_size asked =
    let size = if asked == 0 then default_size else asked in
    if ltb max_size size then max_size else size

-- `jlos_pipe_init`, where the buffer can be allocated.
unfoldable pub pipe_init : ℕ → Pipe
unfolding buffer_size
pipe_init asked =
    let size = buffer_size asked in
    record {
      buffer = replicate size 0;
      buf_size = size;
      read_pos = 0;
      write_pos = 0;
      count = 0;
      write_slots = semaphore_init size;
      read_items = semaphore_init 0;
      closed = false;
      refcount = 1;
    }

unfoldable pub pipe_close : Pipe → Tasks → Pipe × Tasks
pipe_close pipe tasks =
    let (items, tasks') = semaphore_post pipe.read_items tasks in
    let (slots, tasks'') = semaphore_post pipe.write_slots tasks' in
    (record pipe { closed = true; read_items = items; write_slots = slots }, tasks'')

-- `JLOS_ARRAY_LIMIT_RANGE`.
abbrev pub limit_range : ℕ → ℕ → ℕ
limit_range idx range = add32 idx 1 % range

abbrev pub cap : ℕ → ℕ → ℕ
cap n limit = if ltb limit n then limit else n

-- The loop that copies `n` bytes in, and the one that copies `n` bytes out.
unfoldable pub put_bytes : ℕ → List ℕ → ℕ → List ℕ → ℕ → List ℕ × ℕ
put_bytes size buffer pos xs zero = (buffer, pos)
put_bytes size buffer pos [] (suc n) = (buffer, pos)
put_bytes size buffer pos (x ∷ xs) (suc n) =
    put_bytes size (set buffer pos x) (limit_range pos size) xs n

unfoldable pub get_bytes : ℕ → List ℕ → ℕ → ℕ → List ℕ × ℕ
get_bytes size buffer pos zero = ([], pos)
get_bytes size buffer pos (suc n) =
    let (xs, pos') = get_bytes size buffer (limit_range pos size) n in
    (get_or buffer pos 0 ∷ xs, pos')

unfoldable pub post_times : ℕ → Semaphore → Tasks → Semaphore × Tasks
post_times zero sem tasks = (sem, tasks)
post_times (suc n) sem tasks =
    let (sem', tasks') = semaphore_post sem tasks in post_times n sem' tasks'

unfoldable pub write_size : Pipe → ℕ → ℕ
write_size pipe want =
    cap (cap want (sub32 pipe.buf_size pipe.count)) (sub32 pipe.buf_size pipe.write_pos)

unfoldable pub read_size : Pipe → ℕ → ℕ
read_size pipe want = cap (cap want pipe.count) (sub32 pipe.buf_size pipe.read_pos)

-- The step of a write with the bytes `xs` left to write, and of a read with `want` bytes left.
unfoldable pub write_chunk : Pipe → List ℕ → ℕ × Pipe
write_chunk pipe xs =
    let n = write_size pipe (length xs) in
    let (buffer, pos) = put_bytes pipe.buf_size pipe.buffer pipe.write_pos xs n in
    (n, record pipe { buffer = buffer; write_pos = pos; count = add32 pipe.count n })

unfoldable pub read_chunk : Pipe → ℕ → List ℕ × Pipe
read_chunk pipe want =
    let n = read_size pipe want in
    let (xs, pos) = get_bytes pipe.buf_size pipe.buffer pipe.read_pos n in
    (xs, record pipe { read_pos = pos; count = sub32 pipe.count n })

unfoldable pub items_posted : ℕ → Pipe → Tasks → Pipe × Tasks
items_posted n pipe tasks =
    let (sem, tasks') = post_times n pipe.read_items tasks in
    (record pipe { read_items = sem }, tasks')

unfoldable pub slots_posted : ℕ → Pipe → Tasks → Pipe × Tasks
slots_posted n pipe tasks =
    let (sem, tasks') = post_times n pipe.write_slots tasks in
    (record pipe { write_slots = sem }, tasks')

abbrev pub answer {ℓ} : {A : Type ℓ} → A → Pipe × Tasks → A × Pipe × Tasks
answer a (pipe, tasks) = (a, pipe, tasks)

-- A round of a write behind its wait: the bytes written, `none` when the pipe was closed meanwhile.
-- The source looks at `closed` before it takes the mutex and posts after it has let it go; here both
-- are in one step with the copy.
unfoldable pub write_round : Pipe → Tasks → List ℕ → Option ℕ × Pipe × Tasks
write_round pipe tasks xs =
    let (n, pipe') = write_chunk pipe xs in
    if pipe.closed
    then answer none (slots_posted 1 pipe tasks)
    else answer (some n) (items_posted n pipe' tasks)

-- A round of a read: the bytes read, `none` when the pipe is closed and empty.
unfoldable pub read_round : Pipe → Tasks → ℕ → Option (List ℕ) × Pipe × Tasks
read_round pipe tasks want =
    let (xs, pipe') = read_chunk pipe want in
    if pipe.closed && pipe.count == 0
    then answer none (items_posted 1 pipe tasks)
    else if not pipe.closed
    then answer (some xs) (slots_posted (length xs) pipe' tasks)
    else answer (some xs) (pipe', tasks)

unfoldable pub slot_wait : Pipe → Tasks → Option ℕ → Pipe × Tasks
slot_wait pipe tasks t =
    let (sem, tasks') = semaphore_wait pipe.write_slots tasks t in
    (record pipe { write_slots = sem }, tasks')

unfoldable pub item_wait : Pipe → Tasks → Option ℕ → Pipe × Tasks
item_wait pipe tasks t =
    let (sem, tasks') = semaphore_wait pipe.read_items tasks t in
    (record pipe { read_items = sem }, tasks')

unfoldable pub pipe_ref_inc : Pipe → Pipe
pipe_ref_inc pipe = record pipe { refcount = add32 pipe.refcount 1 }

-- The pipe is destroyed, `none`, when the last reference goes.
unfoldable pub pipe_ref_dec : Pipe → Option Pipe
pipe_ref_dec pipe =
    let left = sub32 pipe.refcount 1 in
    if left == 0 then none else some (record pipe { refcount = left })
