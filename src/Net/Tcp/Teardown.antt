-- ===== src/Net/Tcp/Teardown.antt =====
-- The closing of a connection of `net/tcp.c`, one end after the other.
use johnbeauty_os.Prelude.{◌+◌, ◌^◌, ◌<◌, ◌≡◌, ◌∙◌, refl, ap, true, false, [], ◌∷◌, arith, add32}
use johnbeauty_os.Net.Tcp.{
  State, closed, established, fin_wait1, fin_wait2, time_wait, close_wait, last_ack, Socket, Packet,
  ack, send, fin, send_fin, disconnect,
}
use johnbeauty_os.Net.Tcp.Receive.{
  Skb, Handler, replied, returned, kept, on_fin, on_ack, unless_closed, leave_time_wait, finish,
  receive, flags_of, sequence_of,
}
use johnbeauty_os.Net.Tcp.Select.{served, on_flags-fin-ack, on_flags-ack, on_segment_live}
use johnbeauty_os.Net.Tcp.Segments.{IsWord, packet_of, arriving, flags_arrive, sequence_arrives}

module _ (s : Socket) (word : s.sequence_number < 2 ^ 32) where
  -- The socket once its FIN is sent.
  finished : State → Socket
  finished next = record s { state = next; sequence_number = add32 s.sequence_number 1 }

  send_fin-served :
      (next : State)
      → send_fin served s next
        ≡ (finished next, packet_of (record s { state = next }) [] (fin + ack) ∷ [])
  unfolding send_fin send finished
  send_fin-served next =
      let same : add32 (add32 s.sequence_number 0) 1 ≡ add32 s.sequence_number 1 = omega arith in
      λ i. (
        record s { state = next; sequence_number = same i },
        packet_of (record s { state = next }) [] (fin + ack) ∷ [],
      )

  disconnect-established :
      s.state ≡ established
      → disconnect served s
        ≡ (finished fin_wait1, packet_of (record s { state = fin_wait1 }) [] (fin + ack) ∷ [])
  unfolding disconnect finished send_fin send
  disconnect-established e =
      (λ i. disconnect served (record s { state = e i })) ∙ send_fin-served fin_wait1

  disconnect-close_wait :
      s.state ≡ close_wait
      → disconnect served s
        ≡ (finished last_ack, packet_of (record s { state = last_ack }) [] (fin + ack) ∷ [])
  unfolding disconnect finished send_fin send
  disconnect-close_wait e =
      (λ i. disconnect served (record s { state = e i })) ∙ send_fin-served last_ack

module _ (h : Handler) (s : Socket) (skb : Skb) (word : s.sequence_number < 2 ^ 32) where
  -- The socket once a FIN is taken and acknowledged.
  notified : State → Socket
  notified next = record s { state = next; acknowledgement_number = add32 (sequence_of skb) 1 }

  same_sequence : add32 s.sequence_number 0 ≡ s.sequence_number
  same_sequence = omega arith

  receive-fin-established :
      flags_of skb ≡ fin + ack
      → receive served h (record s { state = established }) skb
        ≡ (notified close_wait, packet_of (notified close_wait) [] ack ∷ [], true)
  unfolding receive finish unless_closed on_fin replied send leave_time_wait notified
  receive-fin-established e =
      ap (finish served h) (
        on_segment_live served h (record s { state = established }) skb (rw e)
        ∙ on_flags-fin-ack served h (record s { state = established }) skb e)
      ∙ λ i. (
        record (notified close_wait) { sequence_number = same_sequence i },
        packet_of (notified close_wait) [] ack ∷ [],
        true,
      )

  -- In FIN_WAIT2 the acknowledgement goes out in TIME_WAIT, which is left at once.
  receive-fin-fin_wait2 :
      flags_of skb ≡ fin + ack
      → receive served h (record s { state = fin_wait2 }) skb
        ≡ (notified closed, packet_of (notified time_wait) [] ack ∷ [], true)
  unfolding receive finish unless_closed on_fin replied send leave_time_wait notified
  receive-fin-fin_wait2 e =
      ap (finish served h) (
        on_segment_live served h (record s { state = fin_wait2 }) skb (rw e)
        ∙ on_flags-fin-ack served h (record s { state = fin_wait2 }) skb e)
      ∙ λ i. (
        record (notified closed) { sequence_number = same_sequence i },
        packet_of (notified time_wait) [] ack ∷ [],
        true,
      )

  receive-ack-fin_wait1 :
      flags_of skb ≡ ack
      → receive served h (record s { state = fin_wait1 }) skb
        ≡ (record s { state = fin_wait2 }, [], false)
  unfolding receive finish unless_closed on_ack returned
  receive-ack-fin_wait1 e = ap (finish served h) (
      on_segment_live served h (record s { state = fin_wait1 }) skb (rw e)
      ∙ on_flags-ack served h (record s { state = fin_wait1 }) skb e)

  receive-ack-last_ack :
      flags_of skb ≡ ack
      → receive served h (record s { state = last_ack }) skb
        ≡ (record s { state = closed }, [], true)
  unfolding receive finish unless_closed on_ack kept leave_time_wait
  receive-ack-last_ack e = ap (finish served h) (
      on_segment_live served h (record s { state = last_ack }) skb (rw e)
      ∙ on_flags-ack served h (record s { state = last_ack }) skb e)

IsWord-of : (s : Socket) (next : State) → IsWord s → IsWord (record s { state = next })
IsWord-of s next w = record {
  local_port = w.local_port;
  remote_port = w.remote_port;
  sequence = w.sequence;
  acknowledgement = w.acknowledgement;
}

-- Two established sockets, where every buffer is served and every segment delivered: `a` disconnects,
-- `b` takes the FIN and acknowledges, then disconnects, and `a` takes that FIN and acknowledges. Each
-- of the four segments is answered as written, both ends are then closed, and each has acknowledged
-- the other's FIN: its next expected number is the other's next to send.
pub teardown :
    (ha hb : Handler) (a b : Socket)
    → a.state ≡ established
    → b.state ≡ established
    → IsWord a
    → IsWord b
    → (a1 a2 a3 b1 b2 b3 : Socket) × (fin_a ack_b fin_b ack_a : Packet) × (disconnect served a
        ≡ (a1, fin_a ∷ []))
      × (receive served hb b (arriving a.local_ip fin_a) ≡ (b1, ack_b ∷ [], true))
      × (receive served ha a1 (arriving b.local_ip ack_b) ≡ (a2, [], false))
      × (disconnect served b1 ≡ (b2, fin_b ∷ []))
      × (receive served ha a2 (arriving b.local_ip fin_b) ≡ (a3, ack_a ∷ [], true))
      × (receive served hb b2 (arriving a.local_ip ack_a) ≡ (b3, [], true))
      × (a3.state ≡ closed)
      × (b3.state ≡ closed)
      × (a3.acknowledgement_number ≡ b3.sequence_number)
      × (b3.acknowledgement_number ≡ a3.sequence_number)
unfolding finished notified
teardown ha hb a b a_state b_state wa wb =
    let a1 = finished a wa.sequence fin_wait1 in
    let fin_a = packet_of (record a { state = fin_wait1 }) [] (fin + ack) in
    let skb1 = arriving a.local_ip fin_a in
    let from_a =
      sequence_arrives (record a { state = fin_wait1 }) [] (fin + ack) a.local_ip
        (IsWord-of a fin_wait1 wa) (omega arith) in
    let b1 = notified hb b skb1 wb.sequence close_wait in
    let w1 : IsWord b1 = record {
      local_port = wb.local_port;
      remote_port = wb.remote_port;
      sequence = wb.sequence;
      acknowledgement = omega arith;
    } in
    let ack_b = packet_of b1 [] ack in
    let skb2 = arriving b.local_ip ack_b in
    let a2 = record a1 { state = fin_wait2 } in
    let b2 = finished b1 wb.sequence last_ack in
    let fin_b = packet_of (record b1 { state = last_ack }) [] (fin + ack) in
    let skb3 = arriving b.local_ip fin_b in
    let from_b =
      sequence_arrives (record b1 { state = last_ack }) [] (fin + ack) b.local_ip
        (IsWord-of b1 last_ack w1) (omega arith) in
    let a3 = notified ha a2 skb3 (omega arith) closed in
    let ack_a = packet_of (notified ha a2 skb3 (omega arith) time_wait) [] ack in
    let skb4 = arriving a.local_ip ack_a in
    let w3 : IsWord (notified ha a2 skb3 (omega arith) time_wait) = record {
      local_port = wa.local_port;
      remote_port = wa.remote_port;
      sequence = omega arith;
      acknowledgement = omega arith;
    } in
    (
      a1,
      a2,
      a3,
      b1,
      b2,
      record b2 { state = closed },
      fin_a,
      ack_b,
      fin_b,
      ack_a,
      disconnect-established a wa.sequence a_state,
      (λ i. receive served hb (record b { state = b_state i }) skb1)
          ∙ receive-fin-established hb b skb1 wb.sequence (
              flags_arrive (record a { state = fin_wait1 }) [] (fin + ack) a.local_ip
                (IsWord-of a fin_wait1 wa) (omega arith)),
      receive-ack-fin_wait1 ha a1 skb2 (omega arith)
          (flags_arrive b1 [] ack b.local_ip w1 (omega arith)),
      disconnect-close_wait b1 wb.sequence refl,
      receive-fin-fin_wait2 ha a2 skb3 (omega arith) (
          flags_arrive (record b1 { state = last_ack }) [] (fin + ack) b.local_ip
            (IsWord-of b1 last_ack w1) (omega arith)),
      receive-ack-last_ack hb b2 skb4 (omega arith) (
          flags_arrive (notified ha a2 skb3 (omega arith) time_wait) [] ack a.local_ip w3
            (omega arith)),
      refl,
      refl,
      ap (λ t. add32 t 1) from_b,
      ap (λ t. add32 t 1) from_a,
    )
