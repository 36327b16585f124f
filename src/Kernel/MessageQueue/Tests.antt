-- ===== src/Kernel/MessageQueue/Tests.antt =====
-- The theorems on the message queue of `kernel/ipc.c` at a queue of one message.
use johnbeauty_os.Prelude.{◌≡◌, refl, [], ◌∷◌, ◌++◌, arith, take, min}
use johnbeauty_os.Kernel.Sync.{Tasks, running}
use johnbeauty_os.Prelude.Members.{has, Distinct}
use johnbeauty_os.Kernel.MessageQueue.{Heap, Mq, mq_send, mq_recv}
use johnbeauty_os.Kernel.MessageQueue.Chain.{IsChain, last_of, messages}
use johnbeauty_os.Kernel.MessageQueue.Fifo.{IsQueue, send_appends, recv_takes}

abbrev heap : Heap
heap p = record { len = 2; next = 0; bytes = 5 ∷ 6 ∷ [] }

abbrev one_message : Mq
one_message = record {
  head = 64;
  tail = 64;
  count = 1;
  read_items = record { resource_count = 1; wait_queue = [] };
}

abbrev tasks : Tasks
tasks _ = running

one_message-IsQueue : IsQueue heap one_message (64 ∷ [])
unfolding IsChain Distinct has last_of
one_message-IsQueue = record {
  chain = (refl, omega arith, refl);
  once = (refl, tt);
  tail_last = refl;
  counted = refl;
  small = omega arith;
}

send_appends_example :
    let (sent, heap', mq', _) = mq_send heap one_message tasks 128 (1 ∷ 2 ∷ 3 ∷ []) 3 in
    (sent ≡ min 3 256)
    × IsQueue heap' mq' (64 ∷ 128 ∷ [])
    × (messages heap' (64 ∷ 128 ∷ [])
        ≡ messages heap (64 ∷ []) ++ (take (min 3 256) (1 ∷ 2 ∷ 3 ∷ []) ∷ []))
unfolding has
send_appends_example =
    send_appends heap one_message tasks (64 ∷ []) 128 (1 ∷ 2 ∷ 3 ∷ []) 3 one_message-IsQueue
      (omega arith) (omega arith) refl (omega arith)

recv_takes_example :
    let (got, bytes, mq') = mq_recv heap one_message 1 in
    (got ≡ min 2 1) × (bytes ≡ take got (5 ∷ 6 ∷ [])) × IsQueue heap mq' []
recv_takes_example = recv_takes heap one_message 64 [] 1 one_message-IsQueue (omega arith)
