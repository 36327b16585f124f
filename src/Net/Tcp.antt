-- ===== src/Net/Tcp.antt =====
-- `net/tcp.c`, `net/tcp.h`: sockets, the segments they send, and the handler of a received segment.
-- A function that updates `*socket` returns the new socket beside the packets that it hands to the
-- IP layer, in order. Log calls are left out.
pub mod Receive
pub mod Provider
pub mod Edges
pub mod Machine
pub mod Select
pub mod Segments
pub mod Sums
pub mod Handshake
pub mod Teardown
pub mod Data
pub mod Replies
mod Tests
use johnbeauty_os.Prelude.{
  ℕ, ◌+◌, ◌*◌, ◌/◌, ◌%◌, ◌^◌, Bool, true, false, List, [], ◌∷◌, ◌++◌, ◌==◌, if◌then◌else◌, length,
  add32, add16,
}
use Prim.Native.Nat.{bit_and, bit_or}
use johnbeauty_os.Net.Wire.{swap16, swap32, store16, store32}
use johnbeauty_os.Net.Checksum.{csum_partial, csum_fold}

-- `jlos_tcp_socket_state_t`.
pub data State : Type 0 where
  closed listen syn_sent syn_received established fin_wait1 fin_wait2 closing time_wait close_wait
        last_ack :
      State

-- `jlos_tcp_flag_t`.
abbrev pub fin : ℕ
fin = 0x01

abbrev pub syn : ℕ
syn = 0x02

abbrev pub rst : ℕ
rst = 0x04

abbrev pub psh : ℕ
psh = 0x08

abbrev pub ack : ℕ
ack = 0x10

-- `jlos_tcp_socket_t`. Addresses and ports are in network order, as stored; the numbers in host
-- order. `bound` says that `handler` is not null.
pub record Socket : Type 0 where
  pub remote_port : ℕ
  pub remote_ip : ℕ
  pub local_port : ℕ
  pub local_ip : ℕ
  pub sequence_number : ℕ
  pub acknowledgement_number : ℕ
  pub bound : Bool
  pub state : State

-- A segment handed to `jlos_internet_protocol_handler_send`.
pub record Packet : Type 0 where
  pub dst_ip : ℕ
  pub bytes : List ℕ

-- Whether `jlos_net_skb_alloc` serves a request of so many bytes during the call.
abbrev pub Alloc : Type 0
Alloc = ℕ → Bool

-- `JLOS_TCP_SET_DATA_OFFSET_FLAGS`, in front of the bytes that follow.
abbrev pub store_offset_flags : ℕ → ℕ → List ℕ → List ℕ
store_offset_flags doff flags bs =
    bit_or (bit_and doff 0x0F * 2 ^ 4) (bit_and (flags / 2 ^ 8) 1) ∷ bit_and flags 0xFF ∷ bs

-- The header of `jlos_tcp_provider_send` around a checksum, with the MSS option of a SYN.
unfoldable pub segment_bytes : Socket → List ℕ → ℕ → ℕ → List ℕ
segment_bytes socket payload flags checksum =
    let plain = bit_and flags syn == 0 in
    store16 socket.local_port (
      store16 socket.remote_port (
        store32 (swap32 socket.sequence_number) (
          store32 (swap32 socket.acknowledgement_number) (
            store_offset_flags (if plain then 5 else 6) flags (
              store16 (swap16 0xFFFF) (
                store16 checksum (
                  store16 0 (
                    if plain then payload else 2 ∷ 4 ∷ 1460 / 2 ^ 8 ∷ 1460 % 2 ^ 8 ∷ payload))))))))

-- `jlos_tcp_pseudo_header_t`: the protocol is the constant 0x0600.
unfoldable pub pseudo_bytes : Socket → ℕ → List ℕ
pseudo_bytes socket total_length =
    store32 socket.local_ip
      (store32 socket.remote_ip (store16 0x0600 (store16 (swap16 total_length) [])))

unfoldable pub header_length : ℕ → ℕ
header_length flags = if bit_and flags syn == 0 then 20 else 24

-- The checksum over the pseudo header and the segment.
unfoldable pub checksum_of : Socket → List ℕ → ℕ → ℕ
checksum_of socket payload flags =
    let total_length = add16 (length payload) (header_length flags) in
    csum_fold (
      csum_partial (segment_bytes socket payload flags 0)
        (csum_partial (pseudo_bytes socket total_length) 0))

-- `jlos_tcp_provider_send`. Without a buffer nothing is sent and the socket stays as it is.
unfoldable pub send : Alloc → Socket → List ℕ → ℕ → Socket × List Packet
send alloc socket payload flags =
    if alloc (length payload + (14 + 20 + header_length flags))
    then (
      record socket { sequence_number = add32 socket.sequence_number (length payload) },
      record {
        dst_ip = socket.remote_ip;
        bytes = segment_bytes socket payload flags (checksum_of socket payload flags);
      }
          ∷ [],
    )
    else (socket, [])

-- `jlos_tcp_socket_send`.
unfoldable pub socket_send : Alloc → Socket → List ℕ → Socket × List Packet
socket_send alloc socket payload = elim socket.state [
  | established ↦ send alloc socket payload (psh + ack)
  | _ ↦ (socket, [])
]

-- The two branches of `jlos_tcp_provider_disconnect`: a FIN is sent and takes a sequence number.
unfoldable pub send_fin : Alloc → Socket → State → Socket × List Packet
send_fin alloc socket next =
    let (socket', sent) = send alloc (record socket { state = next }) [] (fin + ack) in
    (record socket' { sequence_number = add32 socket'.sequence_number 1 }, sent)

-- `jlos_tcp_provider_disconnect`.
unfoldable pub disconnect : Alloc → Socket → Socket × List Packet
disconnect alloc socket = elim socket.state [
  | established ↦ send_fin alloc socket fin_wait1
  | close_wait ↦ send_fin alloc socket last_ack
  | _ ↦ (socket, [])
]
