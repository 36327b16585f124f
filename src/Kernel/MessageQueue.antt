-- ===== src/Kernel/MessageQueue.antt =====
-- The message queue of `kernel/ipc.c`. Nodes live in a heap of addresses, with 0 for the null pointer;
-- the address that `jlos_kalloc` returns is an argument. What runs between `jlos_mutex_lock` and
-- `jlos_mutex_unlock` is one step.
pub mod Chain
pub mod Fifo
mod Tests
use johnbeauty_os.Prelude.{
  ℕ, zero, suc, ◌+◌, ◌^◌, Bool, true, false, ◌||◌, List, [], ◌∷◌, ◌==◌, ltb, if◌then◌else◌, take,
  add32, sub32,
}
use johnbeauty_os.Kernel.Sync.{Semaphore, semaphore_init, semaphore_post, Tasks}

-- `jlos_msg_node_t`.
pub record Node : Type 0 where
  pub len : ℕ
  pub next : ℕ
  pub bytes : List ℕ

abbrev pub Heap : Type 0
Heap = ℕ → Node

unfoldable pub store : Heap → ℕ → Node → Heap
store heap address node = λ p. if p == address then node else heap p

pub record Mq : Type 0 where
  pub head : ℕ
  pub tail : ℕ
  pub count : ℕ
  pub read_items : Semaphore

unfoldable pub mq_init : Mq
mq_init = record { head = 0; tail = 0; count = 0; read_items = semaphore_init 0 }

-- The part of `jlos_mq_send` under the mutex: the node that was filled is linked in.
unfoldable pub link : Heap → Mq → ℕ → Heap × Mq
unfolding store
link heap mq address =
    let last = heap mq.tail in
    let counted = record mq { tail = address; count = add32 mq.count 1 } in
    if mq.tail == 0
    then (heap, record counted { head = address })
    else (store heap mq.tail (record last { next = address }), counted)

-- `jlos_mq_send` of `len` bytes, from the filling of the node that was allocated at `address` on.
unfoldable pub send_node : Heap → Mq → Tasks → ℕ → List ℕ → ℕ → ℕ × Heap × Mq × Tasks
unfolding link store
send_node heap mq tasks address buf len =
    let filled = store heap address (record { len = len; next = 0; bytes = take len buf }) in
    let (heap', mq') = link filled mq address in
    let (sem, tasks') = semaphore_post mq'.read_items tasks in
    (len, heap', record mq' { read_items = sem }, tasks')

-- `jlos_mq_send`: the number of bytes sent, or 0; `JLOS_KERNEL_MQ_MSG_MAX_SIZE` is 256.
unfoldable pub mq_send : Heap → Mq → Tasks → ℕ → List ℕ → ℕ → ℕ × Heap × Mq × Tasks
unfolding send_node
mq_send heap mq tasks address buf len =
    if len == 0 || address == 0
    then (0, heap, mq, tasks)
    else send_node heap mq tasks address buf (if ltb 256 len then 256 else len)

-- `jlos_mq_recv` of a node, from the unlinking on: the number of bytes and the bytes copied.
unfoldable pub take_node : Mq → Node → ℕ → ℕ × List ℕ × Mq
take_node mq node max_len =
    let counted = record mq { head = node.next; count = sub32 mq.count 1 } in
    let copy_len = if ltb node.len max_len then node.len else max_len in
    (
      copy_len,
      take copy_len node.bytes,
      if node.next == 0 then record counted { tail = 0 } else counted,
    )

-- `jlos_mq_recv` behind the wait on `sem_read_items`.
unfoldable pub mq_recv : Heap → Mq → ℕ → ℕ × List ℕ × Mq
unfolding take_node
mq_recv heap mq max_len =
    if max_len == 0 || mq.head == 0 then (0, [], mq) else take_node mq (heap mq.head) max_len

-- `jlos_mq_destroy` empties the queue; the nodes go back to the allocator.
unfoldable pub mq_destroy : Mq → Mq
mq_destroy mq = record mq { head = 0; tail = 0; count = 0 }
