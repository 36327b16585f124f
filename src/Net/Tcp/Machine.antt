-- ===== src/Net/Tcp/Machine.antt =====
-- A received segment as one step of the socket's state machine.
use Prim.Native.Nat.{bit_and}
use johnbeauty_os.Prelude.{◌≡◌, ◌≢◌, refl, true, false, arith, ◌==◌, if◌then◌else◌, []}
use johnbeauty_os.Net.Tcp.{
  State, closed, listen, syn_sent, syn_received, established, fin_wait1, closing, time_wait,
  last_ack, Socket, Alloc, rst, send,
}
use johnbeauty_os.Net.Tcp.Receive.{
  Skb, Handler, kept, refused, returned, replied, on_syn, on_syn_ack, on_fin, deliver, on_data,
  on_ack, on_flags, unless_closed, on_segment, finish, receive, flags_of,
}
use johnbeauty_os.Net.Tcp.Edges.{
  KeepsState, Edge, collapse, state-leave, state-send, on_segment-Edge,
}

collapse-ne : (st : State) → collapse st ≢ time_wait
collapse-ne closed = cc
collapse-ne listen = cc
collapse-ne st = cc

module _ (alloc : Alloc) (handler : Handler) (skb : Skb) (s : Socket) where
  on_syn-done : (st : State) → (on_syn alloc handler (record s { state = st }) skb).done ≡ false
  unfolding on_syn replied refused
  on_syn-done listen = refl
  on_syn-done st = refl

  on_syn_ack-done :
      (st : State) → (on_syn_ack alloc handler (record s { state = st }) skb).done ≡ false
  unfolding on_syn_ack replied refused
  on_syn_ack-done syn_sent = refl
  on_syn_ack-done st = refl

  on_fin-done : (st : State) → (on_fin alloc handler (record s { state = st }) skb).done ≡ false
  unfolding on_fin replied refused
  on_fin-done established = refl
  on_fin-done st = refl

  on_data-done : (on_data alloc handler s skb).done ≡ false
  unfolding on_data deliver refused
  on_data-done = ground arith

module _ (alloc : Alloc) (handler : Handler) (skb : Skb) where
  -- Only two cases of an ACK return from inside the switch, neither to TIME_WAIT.
  on_ack-done :
      (s : Socket) (st : State)
      → (on_ack alloc handler (record s { state = st }) skb).done ≡ true
      → (on_ack alloc handler (record s { state = st }) skb).socket.state
        ≡ collapse (on_ack alloc handler (record s { state = st }) skb).socket.state
  unfolding on_ack returned kept
  on_ack-done s syn_received h = refl
  on_ack-done s fin_wait1 h = refl
  on_ack-done s closing h = cc
  on_ack-done s last_ack h = cc
  on_ack-done s st h = cc (on_data-done alloc handler skb (record s { state = st }))

  on_flags-done :
      (s : Socket)
      → (on_flags alloc handler s skb).done ≡ true
      → (on_flags alloc handler s skb).socket.state
        ≡ collapse (on_flags alloc handler s skb).socket.state
  unfolding on_flags refused
  on_flags-done s = ground (
    arith,
    on_syn-done alloc handler skb s s.state,
    on_syn_ack-done alloc handler skb s s.state,
    on_fin-done alloc handler skb s s.state,
    on_data-done alloc handler skb s,
    on_ack-done s s.state,
  )

  unless_closed-done :
      (s : Socket) (st : State)
      → (unless_closed alloc handler (record s { state = st }) skb).done ≡ true
      → (unless_closed alloc handler (record s { state = st }) skb).socket.state
        ≡ collapse (unless_closed alloc handler (record s { state = st }) skb).socket.state
  unfolding unless_closed kept
  unless_closed-done s closed h = cc
  unless_closed-done s st h = on_flags-done (record s { state = st }) h

  on_segment-done :
      (s : Socket)
      → (on_segment alloc handler s skb).done ≡ true
      → (on_segment alloc handler s skb).socket.state
        ≡ collapse (on_segment alloc handler s skb).socket.state
  unfolding on_segment
  on_segment-done s =
      let s' = if bit_and (flags_of skb) rst == 0 then s else record s { state = closed } in
      unless_closed-done s' s'.state

  state-receive :
      (s : Socket)
      → (receive alloc handler s skb).0.state
        ≡ collapse (on_segment alloc handler s skb).socket.state
  unfolding receive finish
  state-receive s =
      let o = on_segment alloc handler s skb in
      ground (
        arith,
        on_segment-done s,
        state-leave o.socket,
        state-leave (send alloc o.socket [] rst).0,
        state-send alloc o.socket [] rst,
      )

  -- Where the application leaves the state alone or disconnects, a segment changes the state of a
  -- socket only along an edge that its flags allow; TIME_WAIT is left for CLOSED in the same call,
  -- so that no call ends in it.
  pub receive-Edge :
      (s : Socket)
      → KeepsState handler
      → let mid = (on_segment alloc handler s skb).socket.state in
        let final = (receive alloc handler s skb).0.state in
        Edge (flags_of skb) s.state mid × (final ≡ collapse mid) × (final ≢ time_wait)
  receive-Edge s keeps = (
    on_segment-Edge alloc handler keeps skb s,
    state-receive s,
    rw (state-receive s) (collapse-ne (on_segment alloc handler s skb).socket.state),
  )
