-- ===== src/Kernel/Sync/Tests.antt =====
-- The theorems on `kernel/sync.c` at short runs of two tasks.
use johnbeauty_os.Prelude.{◌≡◌, refl, some, [], arith}
use johnbeauty_os.Kernel.Sync.{
  running, Tasks, is_blocked, semaphore_init, semaphore_wait, mutex_init, mutex_lock,
}
use johnbeauty_os.Kernel.Sync.Semaphores
use johnbeauty_os.Kernel.Sync.Semaphores.{IsCounter, take_unit, give_unit, Run-counts}
use johnbeauty_os.Kernel.Sync.Mutexes
use johnbeauty_os.Kernel.Sync.Mutexes.{free, acquire, release, as_mutex, IsServed, Run-locks}

abbrev all_running : Tasks
all_running _ = running

-- Task 1 takes the only unit.
waited_once :
    Semaphores.Run 1 2
      (take_unit 1 (record { available = 1; waiters = [] }))
      (semaphore_wait (semaphore_init 1) all_running (some 1)).0
      (semaphore_wait (semaphore_init 1) all_running (some 1)).1
unfolding is_blocked
waited_once = Semaphores.waited 1 (Semaphores.start (λ u. refl)) refl

Run-counts_example :
    IsCounter 2
      (take_unit 1 (record { available = 1; waiters = [] }))
      (semaphore_wait (semaphore_init 1) all_running (some 1)).0
      (semaphore_wait (semaphore_init 1) all_running (some 1)).1
Run-counts_example = Run-counts 1 waited_once (omega arith)

-- Task 1 holds the mutex.
locked_once :
    Mutexes.Run 1
      (acquire 1 free)
      (mutex_lock mutex_init all_running (some 1)).0
      (mutex_lock mutex_init all_running (some 1)).1
unfolding is_blocked
locked_once = Mutexes.locks 1 (Mutexes.start (λ u. refl)) refl

Run-locks_example :
    ((mutex_lock mutex_init all_running (some 1)).0 ≡ as_mutex (acquire 1 free))
    × IsServed 1 (acquire 1 free) (mutex_lock mutex_init all_running (some 1)).1
Run-locks_example = Run-locks locked_once (omega arith)
