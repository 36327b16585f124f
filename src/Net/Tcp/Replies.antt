-- ===== src/Net/Tcp/Replies.antt =====
-- Which socket of the table of `net/tcp.c` a segment reaches, what happens where it reaches none, and
-- the answer to a segment without data.
use Prim.Native.Nat.{bit_and}
use johnbeauty_os.Prelude.{
  ◌+◌, ◌≢◌, ◌⊎◌, inl, inr, false, ◌&&◌, ◌||◌, Bool-cases, ◌==◌, ==_iff, dec_lt, ℕ, ◌*◌, ◌^◌, ◌≤◌,
  ◌<◌, ◌≡◌, ◌∙◌, refl, sym, ap, Bool, true, false, List, [], ◌∷◌, ◌++◌, arith, ltb, length, drop,
  if_true, if_false, add32,
}
use johnbeauty_os.Prelude.Predicates.{All}
use johnbeauty_os.Net.Tcp.{
  State, closed, listen, established, Socket, Packet, Alloc, syn, ack, segment_bytes,
}
use johnbeauty_os.Net.Tcp.Receive.{
  Skb, Answer, Handler, src_port, dst_port, flags_of, receive, leave_time_wait, data_offset_of,
}
use johnbeauty_os.Net.Tcp.Provider.{
  Provider, matches, finish_unmatched, receive_in, on_internet_protocol_received,
}
use johnbeauty_os.Net.Tcp.Select.{served}
use johnbeauty_os.Net.Tcp.Segments.{
  IsWord, packet_of, arriving, flags_arrive, sequence_arrives, offset_arrives,
}
use johnbeauty_os.Net.Tcp.Data.{in_order_delivered, leave_established}

-- Whom a segment is for: a socket that is open, with the local address and port that it names, which
-- listens where the segment asks for a connection, or else has its remote address and port.
pub record IsFor (skb : Skb) (s : Socket) : Type 0 where
  pub local_ip : s.local_ip ≡ skb.dst_ip
  pub local_port : s.local_port ≡ dst_port skb
  pub not_closed : s.state ≢ closed
  pub peer :
      ((s.state ≡ listen) × (bit_and (flags_of skb) (syn + ack) ≡ syn))
      ⊎ ((s.remote_ip ≡ skb.src_ip) × (s.remote_port ≡ src_port skb))

-- The case of `tcp_match_socket` on the state.
abbrev by_state : State → Bool → Bool → Bool
by_state st asks same = elim st [ closed ↦ false | listen ↦ asks || same | _ ↦ same ]

matched_state :
    (st : State) (asks same : Bool)
    → by_state st asks same ≡ true
    → (st ≢ closed) × (((st ≡ listen) × (asks ≡ true)) ⊎ (same ≡ true))
matched_state closed asks same h = absurd (ground (arith, h))
matched_state listen asks same h = (
  λ e. ground (arith, e),
  elim (Bool-cases asks) [ inl e ↦ inl (refl, e) | inr e ↦ inr (ground (arith, e, h)) ],
)
matched_state _ asks same h = (λ e. ground (arith, e), inr h)

unmatched_state :
    (st : State) (asks same : Bool)
    → by_state st asks same ≡ false
    → (st ≢ closed)
    → (((st ≡ listen) × (asks ≡ true)) ⊎ (same ≡ true))
    → ⊥
unmatched_state closed asks same h open_state s = open_state refl
unmatched_state listen asks same h open_state (inl (e, a)) = absurd (ground (arith, h, a))
unmatched_state listen asks same h open_state (inr e) = absurd (ground (arith, h, e))
unmatched_state _ asks same h open_state (inl (e, a)) = absurd (ground (arith, e))
unmatched_state _ asks same h open_state (inr e) = absurd (ground (arith, h, e))

module _ (skb : Skb) (s : Socket) where
  abbrev asks : Bool
  asks = bit_and (flags_of skb) (syn + ack) == syn

  abbrev same_peer : Bool
  same_peer = s.remote_ip == skb.src_ip && s.remote_port == src_port skb

  matches-IsFor : matches skb s ≡ true → IsFor skb s
  unfolding matches
  matches-IsFor e =
      let at_state : by_state s.state asks same_peer ≡ true = ground (arith, e) in
      let (open_state, who) = matched_state s.state asks same_peer at_state in
      record {
        local_ip = ground (arith, e);
        local_port = ground (arith, e);
        not_closed = open_state;
        peer = elim who [
          | inl (st, a) ↦ inl (st, (==_iff _ _).0 a)
          | inr p ↦ inr (ground (arith, p), ground (arith, p))
        ];
      }

  unmatched-IsFor : matches skb s ≡ false → IsFor skb s → ⊥
  unfolding matches
  unmatched-IsFor e w =
      let at_state : by_state s.state asks same_peer ≡ false =
        ground (arith, e, w.local_ip, w.local_port) in
      unmatched_state s.state asks same_peer at_state w.not_closed (elim w.peer [
        | inl (st, a) ↦ inl (st, (==_iff _ _).1 a)
        | inr (a, b) ↦ inr (ground (arith, a, b))
      ])

-- The first socket of a chain that a segment is for.
first_for :
    (skb : Skb) (ss : List Socket)
    → ((before : List Socket) × (s : Socket) × (after : List Socket) × (ss ≡ before ++ (s ∷ after))
        × All (λ u. matches skb u ≡ false) before
        × (matches skb s ≡ true))
      ⊎ All (λ u. matches skb u ≡ false) ss
first_for skb [] = inr tt
first_for skb (s ∷ ss) = elim (Bool-cases (matches skb s)) [
  | inl here ↦ inl ([], s, ss, refl, tt, here)
  | inr e ↦ elim (first_for skb ss) [
    | inl (before, t, after, split, none_before, here) ↦
        inl (s ∷ before, t, after, ap (λ l. s ∷ l) split, (e, none_before), here)
    | inr none_there ↦ inr (e, none_there)
  ]
]

All-unmatched :
    (skb : Skb) (ss : List Socket)
    → All (λ u. matches skb u ≡ false) ss
    → All (λ u. IsFor skb u → ⊥) ss
All-unmatched skb [] h = tt
All-unmatched skb (s ∷ ss) h = (unmatched-IsFor skb s h.0, All-unmatched skb ss h.1)

module _ (alloc : Alloc) (h : Handler) (memory : Socket) (skb : Skb) where
  receive_in-none :
      (ss : List Socket)
      → All (λ s. matches skb s ≡ false) ss
      → receive_in alloc h memory ss skb ≡ (ss, [], false)
  unfolding receive_in finish_unmatched
  receive_in-none [] none_match = refl
  receive_in-none (s ∷ ss) none_match = if_false (matches skb s) _ _ none_match.0 ∙ λ i.
      let (ss', sent, woken) = receive_in-none ss none_match.1 i in (s ∷ ss', sent, woken)

  receive_in-first :
      (before : List Socket) (s : Socket) (after : List Socket)
      → All (λ s. matches skb s ≡ false) before
      → matches skb s ≡ true
      → let (s', sent, woken) = receive alloc h s skb in
        receive_in alloc h memory (before ++ (s ∷ after)) skb
        ≡ (before ++ (s' ∷ after), sent, woken)
  unfolding receive_in
  receive_in-first [] s after none_before here = if_true (matches skb s) _ _ here
  receive_in-first (t ∷ before) s after none_before here =
      if_false (matches skb t) _ _ none_before.0 ∙ λ i.
      let (ss', sent, woken) = receive_in-first before s after none_before.1 here i in
      (t ∷ ss', sent, woken)

  -- Where a segment goes: to this socket, and no socket in front of it is one that it is for.
  pub record IsReceived (self : Provider) (before : List Socket) (s : Socket) (after : List Socket)
      : Type 0 where
    pub table : self.sockets ≡ before ++ (s ∷ after)
    pub none_before : All (λ u. IsFor skb u → ⊥) before
    pub here : IsFor skb s
    pub result :
        let (s', sent, _) = receive alloc h s skb in
        on_internet_protocol_received alloc h memory self skb
        ≡ (record self { sockets = before ++ (s' ∷ after) }, sent)

  -- A segment of at least 20 bytes reaches the first socket of the chain that it is for: one that is
  -- open, has the local address and port named, and either listens, where the segment asks for a
  -- connection, or has the remote address and port. That socket and what is sent are as `receive`
  -- says, and no other socket changes. Where it is for none, or is shorter, nothing changes and
  -- nothing is sent, a reset neither.
  pub segment_dispatched :
      (self : Provider)
      → ((before : List Socket) × (s : Socket) × (after : List Socket) × (20 ≤ length skb.bytes)
          × IsReceived self before s after)
        ⊎ (((length skb.bytes < 20) ⊎ All (λ u. IsFor skb u → ⊥) self.sockets)
            × (on_internet_protocol_received alloc h memory self skb ≡ (self, [])))
  unfolding on_internet_protocol_received
  segment_dispatched self = elim (dec_lt (length skb.bytes) 20) [
    | yes short ↦ inr (inl short, if_true (ltb (length skb.bytes) 20) _ _ (ground (arith, short)))
    | no long ↦
        let enough = if_false (ltb (length skb.bytes) 20) _ _ (ground (arith, long)) in
        elim (first_for skb self.sockets) [
          | inl (before, s, after, table, none_before, here) ↦ inl (
            before,
            s,
            after,
            omega arith,
            record {
              table = table;
              none_before = All-unmatched skb before none_before;
              here = matches-IsFor skb s here;
              result =
                  enough
                  ∙ (λ i.
                      let (ss, sent, _) = receive_in alloc h memory (table i) skb in
                      (record self { sockets = ss }, sent))
                  ∙ λ i.
                      let (ss, sent, _) = receive_in-first before s after none_before here i in
                      (record self { sockets = ss }, sent);
            },
          )
          | inr none_match ↦ inr (
            inr (All-unmatched skb self.sockets none_match),
            enough ∙ λ i.
                let (ss, sent, _) = receive_in-none self.sockets none_match i in
                (record self { sockets = ss }, sent),
          )
        ]
  ]

-- What an accepted answer to a payload of that length leads to, as a function of the two.
answered : ℕ → Answer → Socket × List Packet × Bool
answered n answer =
    let s = answer.socket in
    let s' = record s { acknowledgement_number = add32 s.acknowledgement_number n } in
    (leave_time_wait s', answer.sent ++ (packet_of s' [] ack ∷ []), true)

-- Where every buffer is served, an ACK without data that arrives in order at an established
-- socket, whose application accepts it and does nothing, is answered by an ACK without data, and
-- the socket is as before.
ack_acknowledged :
    (h : Handler) (a b : Socket)
    → IsWord a
    → b.sequence_number < 2 ^ 32
    → b.acknowledgement_number < 2 ^ 32
    → b.acknowledgement_number ≡ a.sequence_number
    → b.state ≡ established
    → b.bound ≡ true
    → h b [] ≡ record { accepted = true; socket = b; sent = [] }
    → receive served h b (arriving a.local_ip (packet_of a [] ack))
      ≡ (b, packet_of b [] ack ∷ [], true)
unfolding answered segment_bytes
ack_acknowledged h a b wa wb wc next st bd quiet =
    let skb = arriving a.local_ip (packet_of a [] ack) in
    let f = flags_arrive a [] ack a.local_ip wa (omega arith) in
    let o = offset_arrives a [] ack a.local_ip wa (omega arith) in
    let p : drop (data_offset_of skb * 4) skb.bytes ≡ [] = ap (λ n. drop (n * 4) skb.bytes) o in
    let q : h b (drop (data_offset_of skb * 4) skb.bytes)
        ≡ record { accepted = true; socket = b; sent = [] } =
      ap (h b) p ∙ quiet in
    let same : add32 b.acknowledgement_number 0 ≡ b.acknowledgement_number = omega arith in
    let b' : Socket = record b { acknowledgement_number = add32 b.acknowledgement_number 0 } in
    in_order_delivered h b skb st (rw f) (rw f) bd
      (sequence_arrives a [] ack a.local_ip wa (omega arith) ∙ sym next) (omega arith) (omega arith)
      (omega arith) (ap (λ x. x.accepted) q)
      (let e = ap (λ x. x.socket.sequence_number) q in omega arith)
    ∙ (λ i. answered (length (p i)) (q i))
    ∙ (λ i. (leave_established b' st i, packet_of b' [] ack ∷ [], true))
    ∙ λ i.
        let b'' : Socket = record b { acknowledgement_number = same i } in
        (b'', packet_of b'' [] ack ∷ [], true)
