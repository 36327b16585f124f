-- ===== src/Net/Tcp/Edges.antt =====
-- The state machine of a socket: which changes of state a received segment can make.
use Prim.Native.Nat.{bit_and}
use johnbeauty_os.Prelude.{
  ◌^◌, ◌-◌, ◌%◌, take, ℕ, ◌≡◌, ◌≢◌, false, Bool-cases, if_intro, drop, inl, inr, ◌⊎◌, List, [],
  arith, ◌==◌, ◌||◌, ltb, length, ◌*◌, ◌+◌,
}
use johnbeauty_os.Net.Tcp.{
  State, closed, listen, syn_sent, syn_received, established, fin_wait1, fin_wait2, closing,
  time_wait, close_wait, last_ack, Socket, Alloc, fin, syn, rst, ack, send,
}
use johnbeauty_os.Net.Tcp.Receive.{
  Skb, Answer, Handler, kept, refused, returned, replied, handle_tcp_message, on_syn, on_syn_ack,
  on_fin, deliver, on_data, on_ack, on_flags, unless_closed, on_segment, leave_time_wait, flags_of,
  data_offset_of, sequence_of,
}

-- `jlos_tcp_provider_disconnect`, the only way for the application to change the state.
pub data AppEdge : State → State → Type 0 where
  idle : {s : State} → AppEdge s s
  active_close : AppEdge established fin_wait1
  passive_close : AppEdge close_wait last_ack

-- An application that leaves the state alone or disconnects.
abbrev pub KeepsState : Handler → Type 0
KeepsState handler =
    (s : Socket) (payload : List ℕ) → AppEdge s.state (handler s payload).socket.state

-- The control bits, as the switch reads them.
abbrev pub control : ℕ → ℕ
control flags = bit_and flags 0x13

abbrev pub IsFin : ℕ → Type 0
IsFin flags = (control flags ≡ fin) ⊎ (control flags ≡ fin + ack)

-- The edges of the state machine, each with the flags of the segment that it needs.
pub data Edge (flags : ℕ) : State → State → Type 0 where
  stay : {s : State} → Edge flags s s
  aborted : {s : State} → bit_and flags rst ≢ 0 → Edge flags s closed
  syn_arrives : control flags ≡ syn → Edge flags listen syn_received
  syn_ack_arrives : control flags ≡ syn + ack → Edge flags syn_sent established
  handshake_ends : control flags ≡ ack → Edge flags syn_received established
  peer_closes : IsFin flags → Edge flags established close_wait
  close_together : IsFin flags → bit_and flags ack ≡ 0 → Edge flags fin_wait1 closing
  closed_at_once : IsFin flags → bit_and flags ack ≢ 0 → Edge flags fin_wait1 time_wait
  fin_acknowledged : control flags ≡ ack → Edge flags fin_wait1 fin_wait2
  peer_follows : IsFin flags → Edge flags fin_wait2 time_wait
  both_acknowledged : control flags ≡ ack → Edge flags closing time_wait
  last_acknowledged : control flags ≡ ack → Edge flags last_ack closed
  by_application : {s t : State} → AppEdge s t → Edge flags s t

-- What the end of the handler makes of TIME_WAIT.
abbrev pub collapse : State → State
collapse time_wait = closed
collapse closed = closed
collapse s = s

pub state-send :
    (alloc : Alloc) (s : Socket) (payload : List ℕ) (flags : ℕ)
    → (send alloc s payload flags).0.state ≡ s.state
unfolding send
state-send alloc s payload flags = ground arith

pub state-leave : (s : Socket) → (leave_time_wait s).state ≡ collapse s.state
unfolding leave_time_wait
state-leave s = ground arith

module _ (alloc : Alloc) (handler : Handler) (s : Socket) (skb : Skb) where
  state-replied : (s : Socket) (flags : ℕ) → (replied alloc s flags).socket.state ≡ s.state
  unfolding replied
  state-replied s flags = state-send alloc s [] flags

  on_syn-Edge :
      (st : State)
      → control (flags_of skb) ≡ syn
      → Edge (flags_of skb) st (on_syn alloc handler (record s { state = st }) skb).socket.state
  unfolding on_syn refused
  on_syn-Edge listen c = rw state-replied (syn_arrives c)
  on_syn-Edge syn_received c = rw state-replied stay
  on_syn-Edge _ c = stay

  on_syn_ack-Edge :
      (st : State)
      → control (flags_of skb) ≡ syn + ack
      → Edge (flags_of skb) st (on_syn_ack alloc handler (record s { state = st }) skb).socket.state
  unfolding on_syn_ack refused
  on_syn_ack-Edge syn_sent c = rw state-replied (syn_ack_arrives c)
  on_syn_ack-Edge _ c = stay

  on_fin-Edge :
      (st : State)
      → IsFin (flags_of skb)
      → Edge (flags_of skb) st (on_fin alloc handler (record s { state = st }) skb).socket.state
  unfolding on_fin refused
  on_fin-Edge established c = rw state-replied (peer_closes c)
  on_fin-Edge close_wait c = rw state-replied stay
  on_fin-Edge last_ack c = rw state-replied stay
  on_fin-Edge fin_wait1 c = rw state-replied (elim (Bool-cases (bit_and (flags_of skb) ack == 0)) [
    | inl e ↦ rw e (close_together c (ground arith))
    | inr e ↦ rw e (closed_at_once c (ground arith))
  ])
  on_fin-Edge fin_wait2 c = rw state-replied (peer_follows c)
  on_fin-Edge _ c = stay

  module _ (keeps : KeepsState handler) where
    handle-AppEdge :
        (s : Socket) (payload : List ℕ)
        → AppEdge s.state (handle_tcp_message handler s payload).socket.state
    unfolding handle_tcp_message
    handle-AppEdge s payload =
        if_intro (λ (a : Answer). AppEdge s.state a.socket.state) s.bound (handler s payload)
          (record { accepted = false; socket = s; sent = [] }) (λ _. keeps s payload) (λ _. idle)

    deliver-Edge :
        (s : Socket) (header_bytes : ℕ)
        → Edge (flags_of skb) s.state (deliver alloc handler s skb header_bytes).socket.state
    unfolding deliver
    deliver-Edge s header_bytes =
        let payload =
          take ((length skb.bytes - header_bytes) % 2 ^ 16) (drop header_bytes skb.bytes) in
        let app = by_application (handle-AppEdge s payload) in
        elim (Bool-cases (handle_tcp_message handler s payload).accepted) [
          | inl e ↦ rw (e, state-send) app
          | inr e ↦ rw e app
        ]

    on_data-Edge :
        (s : Socket) → Edge (flags_of skb) s.state (on_data alloc handler s skb).socket.state
    unfolding on_data refused
    on_data-Edge s = elim (Bool-cases (sequence_of skb == s.acknowledgement_number)) [
      | inl e ↦
          elim (Bool-cases
            (ltb (data_offset_of skb) 5 || ltb (length skb.bytes) (data_offset_of skb * 4))) [
              | inl f ↦ rw (e, f) stay
              | inr f ↦ rw (e, f) (deliver-Edge s (data_offset_of skb * 4))
            ]
      | inr e ↦ rw e stay
    ]

    on_ack-Edge :
        (st : State)
        → control (flags_of skb) ≡ ack
        → Edge (flags_of skb) st (on_ack alloc handler (record s { state = st }) skb).socket.state
    unfolding on_ack returned kept
    on_ack-Edge syn_received c = handshake_ends c
    on_ack-Edge fin_wait1 c = fin_acknowledged c
    on_ack-Edge closing c = both_acknowledged c
    on_ack-Edge last_ack c = last_acknowledged c
    on_ack-Edge st c = on_data-Edge (record s { state = st })

    on_flags-Edge : Edge (flags_of skb) s.state (on_flags alloc handler s skb).socket.state
    unfolding on_flags refused
    on_flags-Edge = elim (Bool-cases (control (flags_of skb) == syn)) [
      | inl a ↦ rw a (on_syn-Edge s.state (ground arith))
      | inr a ↦ elim (Bool-cases (control (flags_of skb) == syn + ack)) [
        | inl b ↦ rw (a, b) (on_syn_ack-Edge s.state (ground arith))
        | inr b ↦
            elim (Bool-cases
              (control (flags_of skb) == syn + fin || control (flags_of skb) == syn + fin + ack)) [
                | inl c ↦ rw (a, b, c) stay
                | inr c ↦
                    elim (Bool-cases
                      (control (flags_of skb) == fin || control (flags_of skb) == fin + ack)) [
                        | inl d ↦ rw (a, b, c, d) (on_fin-Edge s.state (ground arith))
                        | inr d ↦ elim (Bool-cases (control (flags_of skb) == ack)) [
                          | inl e ↦ rw (a, b, c, d, e) (on_ack-Edge s.state (ground arith))
                          | inr e ↦ rw (a, b, c, d, e) (on_data-Edge s)
                        ]
                      ]
              ]
      ]
    ]

module _ (alloc : Alloc) (handler : Handler) (keeps : KeepsState handler) (skb : Skb) where
  unless_closed-Edge :
      (s : Socket) (st : State)
      → Edge
          (flags_of skb)
          st
          (unless_closed alloc handler (record s { state = st }) skb).socket.state
  unfolding unless_closed kept
  unless_closed-Edge s closed = stay
  unless_closed-Edge s st = on_flags-Edge alloc handler (record s { state = st }) skb keeps

  pub on_segment-Edge :
      (s : Socket) → Edge (flags_of skb) s.state (on_segment alloc handler s skb).socket.state
  unfolding on_segment unless_closed kept
  on_segment-Edge s = elim (Bool-cases (bit_and (flags_of skb) rst == 0)) [
    | inl e ↦ rw e (unless_closed-Edge s s.state)
    | inr e ↦ rw e (aborted (ground arith))
  ]
