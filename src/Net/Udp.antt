-- ===== src/Net/Udp.antt =====
-- `net/udp.c`: the sockets in the buckets of their hash table, the matching of a datagram, and the
-- datagrams that are sent. The application's callback is not run: what it would be called with is a
-- result. Addresses and ports are in network order, as stored.
pub mod Delivery
mod Tests
use Prim.Native.Nat.{bit_and, bit_xor}
use johnbeauty_os.Prelude.{
  ℕ, ◌+◌, ◌*◌, ◌/◌, ◌%◌, ◌^◌, Bool, true, false, not, ◌&&◌, ◌||◌, Option, none, some, List, [], ◌∷◌,
  ◌++◌, ◌==◌, ltb, if◌then◌else◌, length, drop, add16, sub32,
}
use johnbeauty_os.Net.Wire.{swap16, store16, load16}
use johnbeauty_os.Net.Ipv4.{Datagram, broadcast}

-- `jlos_udp_socket_t`; `bound` says that `handler` is not null.
pub record Socket : Type 0 where
  pub remote_port : ℕ
  pub remote_ip : ℕ
  pub local_port : ℕ
  pub local_ip : ℕ
  pub bound : Bool
  pub listening : Bool

-- `jlos_udp_provider_t`, with the address that the IP layer reports. A bucket is walked from its
-- newest socket on; `mask` is the number of buckets less 1.
pub record Provider : Type 0 where
  pub buckets : ℕ → List Socket
  pub mask : ℕ
  pub num_sockets : ℕ
  pub free_port : ℕ
  pub ip_address : ℕ

-- `udp_hash_ip_port` and the mask of the hash chain.
unfoldable pub bucket_of : Provider → ℕ → ℕ → ℕ
bucket_of self ip port =
    bit_and (bit_xor (bit_xor ip (port * 2 ^ 16 % 2 ^ 32)) (port / 2 ^ 16)) self.mask

unfoldable pub set_bucket : Provider → ℕ → List Socket → Provider
set_bucket self n sockets = record self {
  buckets = λ m. if m == n then sockets else self.buckets m;
}

-- `udp_match_socket`: the socket as the match leaves it, or none. A listening socket takes the sender
-- for its peer.
unfoldable pub match_socket : ℕ → ℕ → ℕ → ℕ → Socket → Option Socket
match_socket src_ip src_port dst_ip dst_port s =
    if not (s.local_port == dst_port)
    then none
    else if not (s.local_ip == dst_ip) && not (dst_ip == broadcast)
    then none
    else if s.remote_ip == src_ip && s.remote_port == src_port
    then some s
    else if s.listening
    then some (record s { remote_ip = src_ip; remote_port = src_port })
    else none

-- One step of the walk: the socket as its match leaves it, or what is found behind it.
unfoldable pub found_at :
    Option Socket
    → Socket
    → List Socket
    → Option (Socket × List Socket)
    → Option (Socket × List Socket)
found_at (some s') s ss later = some (s', s' ∷ ss)
found_at none s ss none = none
found_at none s ss (some found) = some (found.0, s ∷ found.1)

-- The walk of `jlos_hash_chain_find`: the socket found and the bucket as the walk leaves it.
unfoldable pub find_in : (Socket → Option Socket) → List Socket → Option (Socket × List Socket)
unfolding found_at
find_in test [] = none
find_in test (s ∷ ss) = found_at (test s) s ss (find_in test ss)

unfoldable pub in_table : Provider → ℕ → Option (Socket × List Socket) → Option (Socket × Provider)
unfolding set_bucket
in_table self n none = none
in_table self n (some found) = some (found.0, set_bucket self n found.1)

-- One lookup with the key of an address and a port.
unfoldable pub look_up : Provider → ℕ → Datagram → Option (Socket × Provider)
unfolding find_in match_socket bucket_of in_table
look_up self ip skb =
    let dst_port = load16 skb.bytes 2 in
    let n = bucket_of self ip dst_port in
    let test = match_socket skb.src_ip (load16 skb.bytes 0) skb.dst_ip dst_port in
    in_table self n (find_in test (self.buckets n))

-- The payload handed to the socket that was found, where its handler is bound.
unfoldable pub hand_over :
    Provider → Datagram → Option (Socket × Provider) → Option (Socket × List ℕ) × Provider × Bool
hand_over self skb none = (none, self, false)
hand_over self skb (some found) =
    (if found.0.bound then some (found.0, drop 8 skb.bytes) else none, found.1, true)

-- `if (!node && ...)`: the second lookup counts where the first found nothing.
unfoldable pub or_else :
    Option (Socket × Provider) → Option (Socket × Provider) → Option (Socket × Provider)
or_else none again = again
or_else (some found) again = some found

-- `jlos_udp_provider_on_internet_protocol_received`: the call of the application, the table and the
-- result. A broadcast that finds nothing is looked for among the sockets without an address.
unfoldable pub on_internet_protocol_received :
    Provider → Datagram → Option (Socket × List ℕ) × Provider × Bool
unfolding look_up hand_over or_else
on_internet_protocol_received self skb =
    let again = if skb.dst_ip == broadcast then look_up self 0 skb else none in
    if ltb (length skb.bytes) 8
    then (none, self, false)
    else hand_over self skb (or_else (look_up self skb.dst_ip skb) again)

-- `jlos_udp_socket_init` on memory that holds anything.
unfoldable pub socket_init : Socket → Socket
socket_init memory = record memory { bound = false; listening = false }

-- `jlos_hash_chain_insert` with the key of the socket's own address and port.
unfoldable pub insert : Provider → Socket → Provider
unfolding bucket_of set_bucket
insert self s =
    let n = bucket_of self s.local_ip s.local_port in
    record (set_bucket self n (s ∷ self.buckets n)) { num_sockets = add16 self.num_sockets 1 }

-- `jlos_udp_provider_connect` and `jlos_udp_provider_listen`, with the memory that `jlos_kalloc`
-- returns, if it does.
unfoldable pub connect : Option Socket → Provider → ℕ → ℕ → Provider × Option Socket
unfolding insert
connect none self ip port = (self, none)
connect (some memory) self ip port =
    let s = record (socket_init memory) {
      remote_port = swap16 port;
      remote_ip = ip;
      local_port = swap16 self.free_port;
      local_ip = self.ip_address;
    } in
    (insert (record self { free_port = add16 self.free_port 1 }) s, some s)

unfoldable pub listen_on : Option Socket → Provider → ℕ → Provider × Option Socket
unfolding insert
listen_on none self port = (self, none)
listen_on (some memory) self port =
    let s = record (socket_init memory) {
      listening = true;
      local_port = swap16 port;
      local_ip = self.ip_address;
    } in
    (insert self s, some s)

-- `jlos_udp_provider_send`, where a buffer is allocated: the bytes for the IP layer, without checksum.
unfoldable pub segment_bytes : Socket → List ℕ → List ℕ
segment_bytes s payload =
    store16 s.local_port
      (store16 s.remote_port (store16 (swap16 (add16 (length payload) 8)) (store16 0 payload)))
