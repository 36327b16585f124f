-- ===== src/Net/Tcp/Tests.antt =====
-- The theorems on `net/tcp.c` at two sockets of one connection.
use johnbeauty_os.Prelude.{
  ◌*◌, ◌≡◌, ◌≢◌, ◌≤◌, ◌<◌, ◌⊎◌, List, refl, true, false, [], ◌∷◌, ◌++◌, arith, length, drop, inl,
  add32, add16,
}
use johnbeauty_os.Prelude.Predicates.{All}
use johnbeauty_os.Net.Checksum.{csum_partial, csum_fold}
use johnbeauty_os.Net.Wire.{swap32}
use johnbeauty_os.Net.Tcp.{
  closed, listen, syn_sent, established, time_wait, Socket, Packet, segment_bytes, pseudo_bytes,
  checksum_of, header_length, syn, ack, rst, disconnect,
}
use johnbeauty_os.Net.Tcp.Receive.{
  Skb, Handler, receive, on_segment, flags_of, data_offset_of, sequence_of, leave_time_wait,
}
use johnbeauty_os.Net.Tcp.Provider.{Provider, on_internet_protocol_received}
use johnbeauty_os.Net.Tcp.Segments.{IsWord, packet_of, arriving}
use johnbeauty_os.Net.Tcp.Select.{served}
use johnbeauty_os.Net.Tcp.Edges.{Edge, KeepsState, collapse, idle}
use johnbeauty_os.Net.Tcp.Machine.{receive-Edge}
use johnbeauty_os.Net.Tcp.Handshake.{IsConnected, handshake}
use johnbeauty_os.Net.Tcp.Teardown.{teardown}
use johnbeauty_os.Net.Tcp.Data.{in_order_delivered, out_of_order_refused}
use johnbeauty_os.Net.Tcp.Sums.{tcp_checksum_verifies}
use johnbeauty_os.Net.Tcp.Replies.{IsFor, IsReceived, segment_dispatched}

-- The application accepts everything and does nothing.
abbrev accepts : Handler
accepts s payload = record { accepted = true; socket = s; sent = [] }

abbrev client : Socket
client = record {
  remote_port = 20480;
  remote_ip = 167772161;
  local_port = 260;
  local_ip = 167772162;
  sequence_number = 1000;
  acknowledgement_number = 500;
  bound = true;
  state = established;
}

abbrev server : Socket
server = record {
  remote_port = 260;
  remote_ip = 167772162;
  local_port = 20480;
  local_ip = 167772161;
  sequence_number = 500;
  acknowledgement_number = 1000;
  bound = true;
  state = established;
}

abbrev connecting : Socket
connecting = record client { state = syn_sent }

abbrev listening : Socket
listening = record server { state = listen }

client-IsWord : IsWord client
client-IsWord = record {
  local_port = omega arith;
  remote_port = omega arith;
  sequence = omega arith;
  acknowledgement = omega arith;
}

server-IsWord : IsWord server
server-IsWord = record {
  local_port = omega arith;
  remote_port = omega arith;
  sequence = omega arith;
  acknowledgement = omega arith;
}

connecting-IsWord : IsWord connecting
connecting-IsWord = record {
  local_port = omega arith;
  remote_port = omega arith;
  sequence = omega arith;
  acknowledgement = omega arith;
}

listening-IsWord : IsWord listening
listening-IsWord = record {
  local_port = omega arith;
  remote_port = omega arith;
  sequence = omega arith;
  acknowledgement = omega arith;
}

handshake_example :
    (l1 c1 l2 : Socket) × (p2 p3 : Packet) × (receive served accepts listening
        (arriving client.local_ip (packet_of connecting [] syn))
      ≡ (l1, p2 ∷ [], true))
    × (receive served accepts connecting (arriving server.local_ip p2) ≡ (c1, p3 ∷ [], true))
    × (receive served accepts l1 (arriving client.local_ip p3) ≡ (l2, [], false))
    × IsConnected c1 l2
handshake_example =
    handshake accepts accepts connecting listening refl refl connecting-IsWord listening-IsWord

teardown_example :
    (a1 a2 a3 b1 b2 b3 : Socket) × (fin_a ack_b fin_b ack_a : Packet) × (disconnect served client
      ≡ (a1, fin_a ∷ []))
    × (receive served accepts server (arriving client.local_ip fin_a) ≡ (b1, ack_b ∷ [], true))
    × (receive served accepts a1 (arriving server.local_ip ack_b) ≡ (a2, [], false))
    × (disconnect served b1 ≡ (b2, fin_b ∷ []))
    × (receive served accepts a2 (arriving server.local_ip fin_b) ≡ (a3, ack_a ∷ [], true))
    × (receive served accepts b2 (arriving client.local_ip ack_a) ≡ (b3, [], true))
    × (a3.state ≡ closed)
    × (b3.state ≡ closed)
    × (a3.acknowledgement_number ≡ b3.sequence_number)
    × (b3.acknowledgement_number ≡ a3.sequence_number)
teardown_example = teardown accepts accepts client server refl refl client-IsWord server-IsWord

-- A segment of two bytes from the client, in order at the server.
abbrev two_bytes : Skb
two_bytes = arriving 167772162 (packet_of client (7 ∷ 9 ∷ []) ack)

accepts-KeepsState : KeepsState accepts
accepts-KeepsState s payload = idle

receive-Edge_example :
    let mid = (on_segment served accepts server two_bytes).socket.state in
    let final = (receive served accepts server two_bytes).0.state in
    Edge (flags_of two_bytes) established mid × (final ≡ collapse mid) × (final ≢ time_wait)
receive-Edge_example = receive-Edge served accepts two_bytes server accepts-KeepsState

two_bytes-payload : drop (data_offset_of two_bytes * 4) two_bytes.bytes ≡ 7 ∷ 9 ∷ []
unfolding data_offset_of segment_bytes
two_bytes-payload = refl

in_order_delivered_example :
    let payload = drop (data_offset_of two_bytes * 4) two_bytes.bytes in
    let s' = record server { acknowledgement_number = add32 1000 (length payload) } in
    receive served accepts server two_bytes
    ≡ (leave_time_wait s', [] ++ (packet_of s' [] ack ∷ []), true)
unfolding flags_of sequence_of data_offset_of segment_bytes swap32
in_order_delivered_example =
    in_order_delivered accepts server two_bytes refl refl refl refl refl (omega arith) (omega arith)
      (omega arith) refl (omega arith)

-- The same segment where another one is expected.
abbrev ahead : Socket
ahead = record server { acknowledgement_number = 400 }

out_of_order_refused_example :
    receive served accepts ahead two_bytes ≡ (ahead, packet_of ahead [] rst ∷ [], true)
unfolding flags_of sequence_of data_offset_of segment_bytes swap32
out_of_order_refused_example =
    out_of_order_refused accepts ahead two_bytes refl refl refl (omega arith) (inl (omega arith))

tcp_checksum_verifies_example :
    csum_fold (
      csum_partial
        (segment_bytes client (7 ∷ 9 ∷ []) ack (checksum_of client (7 ∷ 9 ∷ []) ack))
        (csum_partial (pseudo_bytes client (add16 2 (header_length ack))) 0))
    ≡ 0
tcp_checksum_verifies_example =
    tcp_checksum_verifies client (7 ∷ 9 ∷ []) ack (omega arith) (omega arith, (omega arith, tt))
      (omega arith)

abbrev table : Provider
table = record { sockets = server ∷ []; num_sockets = 1; free_port = 49152; ip_address = 167772161 }

-- A segment for a port that no socket has.
abbrev stray : Skb
stray = arriving 167772162 (packet_of (record client { remote_port = 20736 }) [] syn)

segment_dispatched_example :
    ((before : List Socket) × (s : Socket) × (after : List Socket) × (20 ≤ length stray.bytes)
      × IsReceived served accepts server stray table before s after)
    ⊎ (((length stray.bytes < 20) ⊎ All (λ u. IsFor stray u → ⊥) table.sockets)
        × (on_internet_protocol_received served accepts server table stray ≡ (table, [])))
segment_dispatched_example = segment_dispatched served accepts server stray table
