-- ===== src/Kernel/MessageQueue/Fifo.antt =====
-- The linked nodes of the message queue of `kernel/ipc.c` hold the messages sent and not yet received,
-- in the order of sending.
use johnbeauty_os.Prelude.{
  ℕ, suc, ◌^◌, ◌<◌, ◌≡◌, ◌≢◌, ◌∙◌, refl, sym, ap, ap₂, false, ◌||◌, List, [], ◌∷◌, ◌++◌, arith,
  ◌==◌, if◌then◌else◌, if_true, if_false, take, length, length-append, min, add32, sub32,
}
use johnbeauty_os.Kernel.Sync.{Tasks}
use johnbeauty_os.Prelude.Members.{has, Distinct}
use johnbeauty_os.Kernel.Sync.Queue.{Distinct-enqueue}
use johnbeauty_os.Kernel.MessageQueue.{
  Node, Heap, store, Mq, link, mq_send, mq_recv, send_node, take_node,
}
use johnbeauty_os.Kernel.MessageQueue.Chain.{
  IsChain, last_of, messages, store_self, IsChain-store, messages-store, text_kept, messages-relink,
  IsChain-link, messages-append, last_of-append, last_not_null, take_twice,
}

pub record IsQueue (heap : Heap) (mq : Mq) (nodes : List ℕ) : Type 0 where
  pub chain : IsChain heap mq.head nodes
  pub once : Distinct nodes
  pub tail_last : mq.tail ≡ last_of 0 nodes
  pub counted : mq.count ≡ length nodes
  pub small : length nodes < 2 ^ 32

link_first :
    (heap : Heap) (mq : Mq) (address : ℕ)
    → mq.tail ≡ 0
    → link heap mq address
      ≡ (heap, record mq { head = address; tail = address; count = add32 mq.count 1 })
unfolding link
link_first heap mq address e = if_true (mq.tail == 0) _ _ (ground (arith, e))

link_more :
    (heap : Heap) (mq : Mq) (address l : ℕ)
    → mq.tail ≡ l
    → l ≢ 0
    → link heap mq address ≡ (
      store heap l (record (heap l) { next = address }),
      record mq { tail = address; count = add32 mq.count 1 },
    )
unfolding link
link_more heap mq address l e ne = if_false (mq.tail == 0) _ _ (ground (arith, e, ne)) ∙ λ i. (
  store heap (e i) (record (heap (e i)) { next = address }),
  record mq { tail = address; count = add32 mq.count 1 },
)

-- Linking a node that is filled and not yet in the queue.
link_appends :
    (heap : Heap) (mq : Mq) (nodes : List ℕ) (address : ℕ)
    → IsQueue heap mq nodes
    → suc (length nodes) < 2 ^ 32
    → address ≢ 0
    → (heap address).next ≡ 0
    → has address nodes ≡ false
    → let (heap', mq') = link heap mq address in
      IsQueue heap' mq' (nodes ++ (address ∷ []))
      × (messages heap' (nodes ++ (address ∷ []))
          ≡ messages heap nodes ++ (take (heap address).len (heap address).bytes ∷ []))
unfolding IsChain last_of
link_appends heap mq [] address q room pos end out = rw (link_first heap mq address q.tail_last) (
  record {
    chain = (refl, pos, end);
    once = Distinct-enqueue address [] out q.once;
    tail_last = refl;
    counted = omega (arith, q.counted);
    small = omega arith;
  },
  messages-append heap [] address,
)
link_appends heap mq (a ∷ nodes) address q room pos end out =
    let l = last_of a nodes in
    let size = length-append nodes (address ∷ []) in
    let heap' = store heap l (record (heap l) { next = address }) in
    rw (link_more heap mq address l q.tail_last (last_not_null heap mq.head a nodes q.chain)) (
      record {
        chain = IsChain-link heap mq.head a address nodes pos end out q.once q.chain;
        once = Distinct-enqueue address (a ∷ nodes) out q.once;
        tail_last = sym (last_of-append a nodes address);
        counted = omega (arith, q.counted, q.small, size);
        small = omega (arith, size);
      },
      messages-append heap' (a ∷ nodes) address
          ∙ ap₂ (λ ms m. ms ++ (m ∷ [])) (messages-relink heap l address (a ∷ nodes))
              (text_kept heap l address address),
    )

-- A message of some bytes, sent at the address of a node that is not in the queue, joins it as the
-- youngest, cut to 256 bytes, while fewer than 2 ^ 32 - 1 messages are held.
pub send_appends :
    (heap : Heap) (mq : Mq) (tasks : Tasks) (nodes : List ℕ) (address : ℕ) (buf : List ℕ) (len : ℕ)
    → IsQueue heap mq nodes
    → suc (length nodes) < 2 ^ 32
    → address ≢ 0
    → has address nodes ≡ false
    → len ≢ 0
    → let (sent, heap', mq', _) = mq_send heap mq tasks address buf len in
      (sent ≡ min len 256)
      × IsQueue heap' mq' (nodes ++ (address ∷ []))
      × (messages heap' (nodes ++ (address ∷ []))
          ≡ messages heap nodes ++ (take (min len 256) buf ∷ []))
unfolding mq_send send_node
send_appends heap mq tasks nodes address buf len q room pos out some_len =
    let m : ℕ = min len 256 in
    let node : Node = record { len = m; next = 0; bytes = take m buf } in
    let filled = store heap address node in
    let at_node = store_self heap address node in
    let e : mq_send heap mq tasks address buf len ≡ send_node heap mq tasks address buf m =
      if_false (len == 0 || address == 0) _ _ (ground (arith, pos, some_len))
      ∙ ap (send_node heap mq tasks address buf) (ground arith) in
    let kept : IsQueue filled mq nodes = record {
      chain = IsChain-store heap mq.head address node nodes out q.chain;
      once = q.once;
      tail_last = q.tail_last;
      counted = q.counted;
      small = q.small;
    } in
    let (joined, texts) =
      link_appends filled mq nodes address kept room pos (ap (λ n. n.next) at_node) out in
    rw e (
      refl,
      record {
        chain = joined.chain;
        once = joined.once;
        tail_last = joined.tail_last;
        counted = joined.counted;
        small = joined.small;
      },
      texts
          ∙ ap₂ (λ ms m. ms ++ (m ∷ [])) (messages-store heap address node nodes out)
              (ap (λ n. take n.len n.bytes) at_node ∙ take_twice m buf),
    )

unlinked :
    (heap : Heap) (mq : Mq) (a : ℕ) (nodes : List ℕ)
    → IsQueue heap mq (a ∷ nodes)
    → let counted = record mq { head = (heap a).next; count = sub32 mq.count 1 } in
      IsQueue heap (if (heap a).next == 0 then record counted { tail = 0 } else counted) nodes
unfolding IsChain Distinct last_of
unlinked heap mq a [] q =
    rw (if_true ((heap a).next == 0) _ _ (ground (arith, q.chain.2))) (record {
      chain = q.chain.2;
      once = tt;
      tail_last = refl;
      counted = omega (arith, q.counted);
      small = omega arith;
    })
unlinked heap mq a (b ∷ nodes) q =
    rw (if_false ((heap a).next == 0) _ _ (ground (arith, q.chain.2.0, q.chain.2.1))) (record {
      chain = q.chain.2;
      once = q.once.1;
      tail_last = q.tail_last;
      counted = omega (arith, q.counted, q.small);
      small = omega (arith, q.small);
    })

-- A receive of some bytes takes the oldest message out of a queue that holds one, and copies what
-- fits.
pub recv_takes :
    (heap : Heap) (mq : Mq) (a : ℕ) (nodes : List ℕ) (max_len : ℕ)
    → IsQueue heap mq (a ∷ nodes)
    → max_len ≢ 0
    → let (got, bytes, mq') = mq_recv heap mq max_len in
      (got ≡ min (heap a).len max_len) × (bytes ≡ take got (heap a).bytes) × IsQueue heap mq' nodes
unfolding mq_recv take_node IsChain Distinct last_of
recv_takes heap mq a nodes max_len q some_len =
    let e : mq_recv heap mq max_len ≡ take_node mq (heap a) max_len =
      if_false (max_len == 0 || mq.head == 0) _ _ (ground (arith, q.chain.0, q.chain.1, some_len))
      ∙ λ i. take_node mq (heap (q.chain.0 i)) max_len in
    rw e (ground arith, refl, unlinked heap mq a nodes q)
