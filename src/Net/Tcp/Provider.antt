-- ===== src/Net/Tcp/Provider.antt =====
-- The socket table of `net/tcp.c`: `tcp_match_socket`, the entry point for a received segment,
-- `jlos_tcp_provider_connect` and `jlos_tcp_provider_listen`. The sockets of a hash chain are the
-- list in the order in which the chain is walked, newest first: a match compares the local address
-- and port, which are the chain's key.
use Prim.Native.Nat.{bit_and}
use johnbeauty_os.Prelude.{
  ℕ, ◌+◌, Bool, true, false, ◌&&◌, ◌||◌, Option, none, some, List, [], ◌∷◌, ◌==◌, ltb,
  if◌then◌else◌, length, add16, add32,
}
use johnbeauty_os.Net.Wire.{swap16}
use johnbeauty_os.Net.Tcp.{closed, listen, syn_sent, Socket, Packet, Alloc, syn, rst, ack, send}
use johnbeauty_os.Net.Tcp.Receive.{
  Skb, Handler, src_port, dst_port, sequence_of, acknowledgement_of, flags_of, receive,
}

-- `jlos_tcp_provider_t`, with the address that the IP layer reports.
pub record Provider : Type 0 where
  pub sockets : List Socket
  pub num_sockets : ℕ
  pub free_port : ℕ
  pub ip_address : ℕ

-- `tcp_match_socket`: true for its result 0.
unfoldable pub matches : Skb → Socket → Bool
matches skb socket =
    socket.local_ip == skb.dst_ip && socket.local_port == dst_port skb && elim socket.state [
      | closed ↦ false
      | listen ↦
          bit_and (flags_of skb) (syn + ack) == syn
          || (socket.remote_ip == skb.src_ip && socket.remote_port == src_port skb)
      | _ ↦ socket.remote_ip == skb.src_ip && socket.remote_port == src_port skb
    ]

-- `jlos_tcp_socket_init` on memory that holds anything.
unfoldable pub socket_init : Socket → Socket
socket_init memory = record memory { bound = false; state = closed }

-- `socket1`, whose memory held anything.
unfoldable pub reset_socket : Socket → Skb → Socket
reset_socket memory skb = record (socket_init memory) {
  remote_port = src_port skb;
  remote_ip = skb.src_ip;
  local_port = dst_port skb;
  local_ip = skb.dst_ip;
  sequence_number = acknowledgement_of skb;
  acknowledgement_number = add32 (sequence_of skb) 1;
}

-- The end of the handler without a socket: what is sent. `memory` is what the stack holds.
unfoldable pub finish_unmatched : Alloc → Socket → Skb → Bool → List Packet
finish_unmatched alloc memory skb reset =
    let (s, sent) = send alloc (reset_socket memory skb) [] rst in if reset then sent else []

module _ (alloc : Alloc) (handler : Handler) (memory : Socket) where
  -- The walk of `jlos_hash_chain_find`, and the handler on the first socket that matches. Without one,
  -- `reset` is still false at the end.
  unfoldable pub receive_in : List Socket → Skb → List Socket × List Packet × Bool
  receive_in [] skb = ([], finish_unmatched alloc memory skb false, false)
  receive_in (s ∷ ss) skb =
      let (s', sent, woken) = receive alloc handler s skb in
      let (ss', sent', woken') = receive_in ss skb in
      if matches skb s then (s' ∷ ss, sent, woken) else (s ∷ ss', sent', woken')

  -- `jlos_tcp_provider_on_internet_protocol_received`: the new table and what is sent.
  unfoldable pub on_internet_protocol_received : Provider → Skb → Provider × List Packet
  on_internet_protocol_received self skb =
      let (ss, sent, woken) = receive_in self.sockets skb in
      if ltb (length skb.bytes) 20 then (self, []) else (record self { sockets = ss }, sent)

module _ (alloc : Alloc) where
  -- `jlos_tcp_provider_connect`, with the memory that `jlos_kalloc` returns, if it does; the new
  -- socket, once its SYN is sent, is the head of the table.
  unfoldable pub connect : Option Socket → Provider → ℕ → ℕ → Provider × Option Socket × List Packet
  connect none self ip port = (self, none, [])
  connect (some memory) self ip port =
      let fresh = record (socket_init memory) {
        remote_port = swap16 port;
        remote_ip = ip;
        local_port = swap16 self.free_port;
        local_ip = self.ip_address;
        state = syn_sent;
        sequence_number = 0xbeefcafe;
      } in
      let (s, sent) = send alloc fresh [] syn in
      (
        record self {
          sockets = s ∷ self.sockets;
          num_sockets = add16 self.num_sockets 1;
          free_port = add16 self.free_port 1;
        },
        some s,
        sent,
      )

-- `jlos_tcp_provider_listen`.
unfoldable pub listen_on : Option Socket → Provider → ℕ → Provider × Option Socket
listen_on none self port = (self, none)
listen_on (some memory) self port =
    let s = record (socket_init memory) {
      state = listen;
      local_ip = self.ip_address;
      local_port = swap16 port;
    } in
    (record self { sockets = s ∷ self.sockets; num_sockets = add16 self.num_sockets 1 }, some s)

-- `jlos_tcp_provider_bind`.
unfoldable pub bind : Socket → Socket
bind socket = record socket { bound = true }
