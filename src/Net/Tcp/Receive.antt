-- ===== src/Net/Tcp/Receive.antt =====
-- `jlos_tcp_provider_on_internet_protocol_received` of `net/tcp.c`, from the matched socket on: the
-- switch over the control flags, the reset, and the leaving of TIME_WAIT.
use Prim.Native.Nat.{bit_and, bit_or}
use johnbeauty_os.Prelude.{
  ℕ, ◌+◌, ◌-◌, ◌*◌, ◌/◌, ◌%◌, ◌^◌, Bool, true, false, ◌||◌, List, [], ◌++◌, ◌==◌, ltb,
  if◌then◌else◌, length, get_or, drop, take, add32,
}
use johnbeauty_os.Net.Wire.{swap32, load16, load32}
use johnbeauty_os.Net.Tcp.{
  closed, listen, syn_sent, syn_received, established, fin_wait1, fin_wait2, closing, time_wait,
  close_wait, last_ack, Socket, Packet, Alloc, fin, syn, rst, ack, send,
}

-- The buffer handed up by the IP layer: addresses and the bytes of the segment.
pub record Skb : Type 0 where
  pub src_ip : ℕ
  pub dst_ip : ℕ
  pub bytes : List ℕ

-- The fields of `jlos_tcp_header_t`, the numbers through `JLOS_SWAP_ENDIAN_32`.
unfoldable pub src_port : Skb → ℕ
src_port skb = load16 skb.bytes 0

unfoldable pub dst_port : Skb → ℕ
dst_port skb = load16 skb.bytes 2

unfoldable pub sequence_of : Skb → ℕ
sequence_of skb = swap32 (load32 skb.bytes 4)

unfoldable pub acknowledgement_of : Skb → ℕ
acknowledgement_of skb = swap32 (load32 skb.bytes 8)

-- `JLOS_TCP_GET_FLAGS` and `JLOS_TCP_GET_DATA_OFFSET`.
unfoldable pub flags_of : Skb → ℕ
flags_of skb = bit_or (get_or skb.bytes 13 0) (bit_and (get_or skb.bytes 12 0) 1 * 2 ^ 8)

unfoldable pub data_offset_of : Skb → ℕ
data_offset_of skb = bit_and (get_or skb.bytes 12 0 / 2 ^ 4) 0x0F

-- The application's callback: whether it accepts the data, with the socket and the packets it
-- leaves, since it may send on the socket and disconnect it.
pub record Answer : Type 0 where
  pub accepted : Bool
  pub socket : Socket
  pub sent : List Packet

abbrev pub Handler : Type 0
Handler = Socket → List ℕ → Answer

-- What a case of the switch leaves; `done` marks the two `return false` inside the switch.
pub record Outcome : Type 0 where
  pub socket : Socket
  pub sent : List Packet
  pub reset : Bool
  pub done : Bool

unfoldable pub kept : Socket → Outcome
kept socket = record { socket = socket; sent = []; reset = false; done = false }

unfoldable pub refused : Socket → Outcome
refused socket = record { socket = socket; sent = []; reset = true; done = false }

unfoldable pub returned : Socket → Outcome
returned socket = record { socket = socket; sent = []; reset = false; done = true }

unfoldable pub replied : Alloc → Socket → ℕ → Outcome
replied alloc socket flags =
    let (socket', sent) = send alloc socket [] flags in
    record { socket = socket'; sent = sent; reset = false; done = false }

-- `jlos_tcp_socket_handle_tcp_message`.
unfoldable pub handle_tcp_message : Handler → Socket → List ℕ → Answer
handle_tcp_message handler socket payload =
    if socket.bound
    then handler socket payload
    else record { accepted = false; socket = socket; sent = [] }

-- TIME_WAIT is left at once.
unfoldable pub leave_time_wait : Socket → Socket
leave_time_wait socket = elim socket.state [
  | time_wait ↦ record socket { state = closed }
  | _ ↦ socket
]

module _ (alloc : Alloc) (handler : Handler) where
  -- `case JLOS_TCP_SYN`
  unfoldable pub on_syn : Socket → Skb → Outcome
  on_syn socket skb = elim socket.state [
    | listen ↦
        replied alloc
          (record socket {
            state = syn_received;
            remote_port = src_port skb;
            remote_ip = skb.src_ip;
            acknowledgement_number = add32 (sequence_of skb) 1;
            sequence_number = 0xbeefcafe;
          })
          (syn + ack)
    | syn_received ↦ replied alloc socket (syn + ack)
    | _ ↦ refused socket
  ]

  -- `case (JLOS_TCP_SYN | JLOS_TCP_ACK)`
  unfoldable pub on_syn_ack : Socket → Skb → Outcome
  on_syn_ack socket skb = elim socket.state [
    | syn_sent ↦
        replied alloc
          (record socket {
            state = established;
            acknowledgement_number = add32 (sequence_of skb) 1;
            sequence_number = acknowledgement_of skb;
          })
          ack
    | _ ↦ refused socket
  ]

  -- `case JLOS_TCP_FIN: case (JLOS_TCP_FIN | JLOS_TCP_ACK)`
  unfoldable pub on_fin : Socket → Skb → Outcome
  on_fin socket skb =
      let s = record socket { acknowledgement_number = add32 (sequence_of skb) 1 } in
      elim socket.state [
        | established ↦ replied alloc (record s { state = close_wait }) ack
        | close_wait ↦ replied alloc s ack
        | last_ack ↦ replied alloc s ack
        | fin_wait1 ↦
            replied alloc
              (record s { state = if bit_and (flags_of skb) ack == 0 then closing else time_wait })
              ack
        | fin_wait2 ↦ replied alloc (record s { state = time_wait }) ack
        | _ ↦ refused s
      ]

  -- The application's answer to a payload of that length: acknowledged, or a reset.
  unfoldable pub conclude : ℕ → Answer → Outcome
  conclude payload_len answer =
      let s = answer.socket in
      let (s', acked) =
        send alloc
          (record s { acknowledgement_number = add32 s.acknowledgement_number payload_len }) []
          ack in
      if answer.accepted
      then record { socket = s'; sent = answer.sent ++ acked; reset = false; done = false }
      else record { socket = s; sent = answer.sent; reset = true; done = false }

  -- The call of the application with the payload behind `header_bytes`, of which the length that it
  -- is told has 16 bits.
  unfoldable pub deliver : Socket → Skb → ℕ → Outcome
  unfolding conclude
  deliver socket skb header_bytes =
      let payload_len = length skb.bytes - header_bytes in
      conclude payload_len (
        handle_tcp_message handler socket
          (take (payload_len % 2 ^ 16) (drop header_bytes skb.bytes)))

  -- The default case: payload in order goes to the application, anything else is refused.
  unfoldable pub on_data : Socket → Skb → Outcome
  on_data socket skb =
      let header_bytes = data_offset_of skb * 4 in
      if sequence_of skb == socket.acknowledgement_number
      then if ltb (data_offset_of skb) 5 || ltb (length skb.bytes) header_bytes
        then refused socket
        else deliver socket skb header_bytes
      else refused socket

  -- `case JLOS_TCP_ACK`, which falls through to the default case unless it returns or skips.
  unfoldable pub on_ack : Socket → Skb → Outcome
  on_ack socket skb = elim socket.state [
    | syn_received ↦
        returned (record socket { state = established; sequence_number = acknowledgement_of skb })
    | fin_wait1 ↦ returned (record socket { state = fin_wait2 })
    | closing ↦ kept (record socket { state = time_wait })
    | last_ack ↦ kept (record socket { state = closed })
    | _ ↦ on_data socket skb
  ]

  -- `switch (flags & (JLOS_TCP_SYN | JLOS_TCP_ACK | JLOS_TCP_FIN))`
  unfoldable pub on_flags : Socket → Skb → Outcome
  on_flags socket skb =
      let control = bit_and (flags_of skb) 0x13 in
      if control == syn
      then on_syn socket skb
      else if control == syn + ack
      then on_syn_ack socket skb
      else if control == syn + fin || control == syn + fin + ack
      then refused socket
      else if control == fin || control == fin + ack
      then on_fin socket skb
      else if control == ack
      then on_ack socket skb
      else on_data socket skb

  -- `if (socket && socket->state != JLOS_TCP_CLOSED)`
  unfoldable pub unless_closed : Socket → Skb → Outcome
  unless_closed socket skb = elim socket.state [ closed ↦ kept socket | _ ↦ on_flags socket skb ]

  -- A reset closes the socket before that test.
  unfoldable pub on_segment : Socket → Skb → Outcome
  on_segment socket skb =
      unless_closed
        (if bit_and (flags_of skb) rst == 0 then socket else record socket { state = closed }) skb

  -- The end of the handler: the reset, the leaving of TIME_WAIT, and whether the waiters on
  -- `state_cond` are woken.
  unfoldable pub finish : Outcome → Socket × List Packet × Bool
  finish out =
      let (s, resets) = send alloc out.socket [] rst in
      if out.done
      then (out.socket, out.sent, false)
      else if out.reset
      then (leave_time_wait s, out.sent ++ resets, true)
      else (leave_time_wait out.socket, out.sent, true)

  -- The handler from the matched socket on, with what it sends. It returns false on every path.
  unfoldable pub receive : Socket → Skb → Socket × List Packet × Bool
  receive socket skb = finish (on_segment socket skb)
