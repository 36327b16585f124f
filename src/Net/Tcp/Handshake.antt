-- ===== src/Net/Tcp/Handshake.antt =====
-- The three-way handshake between a connecting and a listening socket of `net/tcp.c`.
use johnbeauty_os.Prelude.{
  ◌+◌, ◌^◌, ◌<◌, ◌≡◌, ◌∙◌, refl, sym, ap, true, false, [], ◌∷◌, arith, add32,
}
use johnbeauty_os.Net.Tcp.{
  listen, syn_sent, syn_received, established, Socket, Packet, syn, ack, send,
}
use johnbeauty_os.Net.Tcp.Receive.{
  Skb, Handler, replied, returned, on_syn, on_syn_ack, on_ack, unless_closed, leave_time_wait,
  finish, receive, flags_of, sequence_of, acknowledgement_of, src_port,
}
use johnbeauty_os.Net.Tcp.Select.{
  served, on_flags-syn, on_flags-syn-ack, on_flags-ack, on_segment_live,
}
use johnbeauty_os.Net.Tcp.Segments.{
  IsWord, packet_of, arriving, flags_arrive, acknowledgement_arrives, ports_arrive,
}

module _ (h : Handler) (s : Socket) (skb : Skb) where
  -- A SYN at a listening socket.
  accepted : Socket
  accepted = record s {
    state = syn_received;
    remote_port = src_port skb;
    remote_ip = skb.src_ip;
    acknowledgement_number = add32 (sequence_of skb) 1;
    sequence_number = 0xbeefcafe;
  }

  receive-syn :
      flags_of skb ≡ syn
      → receive served h (record s { state = listen }) skb
        ≡ (accepted, packet_of accepted [] (syn + ack) ∷ [], true)
  unfolding receive finish unless_closed on_syn replied send leave_time_wait accepted
  receive-syn e = ap (finish served h) (
      on_segment_live served h (record s { state = listen }) skb (rw e)
      ∙ on_flags-syn served h (record s { state = listen }) skb e)

  -- A SYN-ACK at a connecting socket.
  connected : Socket
  connected = record s {
    state = established;
    acknowledgement_number = add32 (sequence_of skb) 1;
    sequence_number = acknowledgement_of skb;
  }

  receive-syn-ack :
      flags_of skb ≡ syn + ack
      → acknowledgement_of skb < 2 ^ 32
      → receive served h (record s { state = syn_sent }) skb
        ≡ (connected, packet_of connected [] ack ∷ [], true)
  unfolding receive finish unless_closed on_syn_ack replied send leave_time_wait connected
  receive-syn-ack e w =
      let same : add32 (acknowledgement_of skb) 0 ≡ acknowledgement_of skb = omega arith in
      ap (finish served h) (
        on_segment_live served h (record s { state = syn_sent }) skb (rw e)
        ∙ on_flags-syn-ack served h (record s { state = syn_sent }) skb e)
      ∙ λ i. (record connected { sequence_number = same i }, packet_of connected [] ack ∷ [], true)

  -- An ACK at a socket that waits for it.
  completed : Socket
  completed = record s { state = established; sequence_number = acknowledgement_of skb }

  receive-ack :
      flags_of skb ≡ ack
      → receive served h (record s { state = syn_received }) skb ≡ (completed, [], false)
  unfolding receive finish unless_closed on_ack returned completed
  receive-ack e = ap (finish served h) (
      on_segment_live served h (record s { state = syn_received }) skb (rw e)
      ∙ on_flags-ack served h (record s { state = syn_received }) skb e)

-- What a handshake leaves: the two ends of one connection, each expecting the other's next byte.
pub record IsConnected (c l : Socket) : Type 0 where
  pub client_state : c.state ≡ established
  pub server_state : l.state ≡ established
  pub server_expects : l.acknowledgement_number ≡ c.sequence_number
  pub client_expects : c.acknowledgement_number ≡ l.sequence_number
  pub server_knows_ip : l.remote_ip ≡ c.local_ip
  pub server_knows_port : l.remote_port ≡ c.local_port

-- Where every buffer is served, the SYN of a connecting socket, delivered to a listening one, is
-- answered by one SYN-ACK; that, delivered back, by one ACK; and that by nothing. Both sockets are
-- then established and agree on the two sequence numbers and on the client's address and port.
pub handshake :
    (hc hl : Handler) (c l : Socket)
    → c.state ≡ syn_sent
    → l.state ≡ listen
    → IsWord c
    → IsWord l
    → (l1 c1 l2 : Socket) × (p2 p3 : Packet) × (receive served hl l
          (arriving c.local_ip (packet_of c [] syn))
        ≡ (l1, p2 ∷ [], true))
      × (receive served hc c (arriving l.local_ip p2) ≡ (c1, p3 ∷ [], true))
      × (receive served hl l1 (arriving c.local_ip p3) ≡ (l2, [], false))
      × IsConnected c1 l2
unfolding accepted connected completed
handshake hc hl c l c_state l_state wc wl =
    let skb1 = arriving c.local_ip (packet_of c [] syn) in
    let l1 = accepted hl l skb1 in
    let (from_client, _) = ports_arrive c [] syn c.local_ip wc (omega arith) in
    let w1 : IsWord l1 = record {
      local_port = wl.local_port;
      remote_port = omega arith;
      sequence = omega arith;
      acknowledgement = omega arith;
    } in
    let p2 = packet_of l1 [] (syn + ack) in
    let skb2 = arriving l.local_ip p2 in
    let back2 = acknowledgement_arrives l1 [] (syn + ack) l.local_ip w1 (omega arith) in
    let c1 = connected hc c skb2 in
    let w2 : IsWord c1 = record {
      local_port = wc.local_port;
      remote_port = wc.remote_port;
      sequence = omega arith;
      acknowledgement = omega arith;
    } in
    let p3 = packet_of c1 [] ack in
    let skb3 = arriving c.local_ip p3 in
    (
      l1,
      c1,
      completed hl l1 skb3,
      p2,
      p3,
      (λ i. receive served hl (record l { state = l_state i }) skb1)
          ∙ receive-syn hl l skb1 (flags_arrive c [] syn c.local_ip wc (omega arith)),
      (λ i. receive served hc (record c { state = c_state i }) skb2)
          ∙ receive-syn-ack hc c skb2 (flags_arrive l1 [] (syn + ack) l.local_ip w1 (omega arith))
              (omega arith),
      receive-ack hl l1 skb3 (flags_arrive c1 [] ack c.local_ip w2 (omega arith)),
      record {
        client_state = refl;
        server_state = refl;
        server_expects = sym back2;
        client_expects = sym (acknowledgement_arrives c1 [] ack c.local_ip w2 (omega arith));
        server_knows_ip = refl;
        server_knows_port = from_client;
      },
    )
