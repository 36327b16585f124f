-- ===== src/Kernel/Pipe/Tests.antt =====
-- The theorems on the pipe of `kernel/ipc.c` at a write of three bytes and a read of two.
use johnbeauty_os.Prelude.{ℕ, ◌<◌, ◌≡◌, refl, some, List, [], ◌∷◌, ◌++◌, arith, min}
use johnbeauty_os.Kernel.Sync.{Tasks, running}
use johnbeauty_os.Kernel.Pipe.{Pipe, pipe_init, write_round, read_round}
use johnbeauty_os.Kernel.Pipe.Stream.{IsPipe, contents, taken, handed, write_round-progress}
use johnbeauty_os.Kernel.Pipe.Runs.{start, wrote, read, Run-stream}

abbrev tasks : Tasks
tasks _ = running

abbrev bytes : List ℕ
bytes = 5 ∷ 6 ∷ 7 ∷ []

Run-stream_example :
    let (n, pipe, tasks') = write_round (pipe_init 4) tasks bytes in
    let (xs, pipe', _) = read_round pipe tasks' 2 in
    IsPipe pipe' × ([] ++ taken bytes n ≡ ([] ++ handed xs) ++ contents pipe')
Run-stream_example = Run-stream 4 (read 2 (wrote bytes (start tasks)))

abbrev wrapped : Pipe
wrapped = record (pipe_init 4) {
  buffer = 1 ∷ 2 ∷ 3 ∷ 4 ∷ [];
  buf_size = 4;
  read_pos = 1;
  write_pos = 3;
  count = 2;
}

wrapped-IsPipe : IsPipe wrapped
wrapped-IsPipe = record {
  some_size = omega arith;
  small = omega arith;
  storage = refl;
  reading = omega arith;
  within = omega arith;
  writing = refl;
}

write_round-progress_example :
    let n = min (min 3 2) 1 in ((write_round wrapped tasks bytes).0 ≡ some n) × (0 < n)
unfolding pipe_init
write_round-progress_example =
    write_round-progress wrapped tasks bytes wrapped-IsPipe refl (omega arith) (omega arith)
