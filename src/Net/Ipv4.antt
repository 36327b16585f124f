-- ===== src/Net/Ipv4.antt =====
-- `net/ipv4.c`: the header that is sent and the choice of the next hop, and the handing of a received
-- packet to the handler of its protocol. Addresses are in network order, as stored.
pub mod Routes
pub mod Packets
mod Tests
use Prim.Native.Nat.{bit_and}
use johnbeauty_os.Prelude.{
  ℕ, ◌+◌, ◌*◌, Bool, true, false, ◌||◌, Option, none, some, List, [], ◌∷◌, ◌++◌, ◌==◌, ltb,
  if◌then◌else◌, length, get_or, take, drop,
}
use johnbeauty_os.Net.Wire.{swap16, store16, store32, load32}
use johnbeauty_os.Net.Checksum.{csum_partial, csum_fold}
use johnbeauty_os.Net.Arp.{Arp, Message, unresolved, lookup_or_request}

abbrev pub broadcast : ℕ
broadcast = 0xFFFFFFFF

-- `jlos_internet_protocol_provider_t`, with the addresses that the Ethernet layer keeps.
pub record Provider : Type 0 where
  pub ip_address : ℕ
  pub mac_address : ℕ
  pub gateway_ip : ℕ
  pub subnet_mask : ℕ
  pub arp : Arp

-- The header of `jlos_internet_protocol_provider_send` around a checksum, for a packet of `len` bytes.
-- The first byte is the version 4 and the length of 5 words.
unfoldable pub header_bytes : ℕ → ℕ → ℕ → ℕ → ℕ → List ℕ
header_bytes src dst protocol len checksum =
    0x45
    ∷ 0
    ∷ store16 (swap16 len) (
        store16 0x0100
          (store16 0x0040 (0x40 ∷ protocol ∷ store16 checksum (store32 src (store32 dst [])))))

unfoldable pub header_checksum : ℕ → ℕ → ℕ → ℕ → ℕ
unfolding header_bytes
header_checksum src dst protocol len =
    csum_fold (csum_partial (header_bytes src dst protocol len 0) 0)

-- The address whose hardware address is asked for.
unfoldable pub next_hop : Provider → ℕ → ℕ
next_hop self dst =
    if bit_and dst self.subnet_mask == bit_and self.ip_address self.subnet_mask
    then dst
    else self.gateway_ip

-- A frame for the Ethernet layer.
pub record Frame : Type 0 where
  pub dst_mac : ℕ
  pub bytes : List ℕ

unfoldable pub packet_bytes : Provider → ℕ → ℕ → List ℕ → List ℕ
unfolding header_bytes header_checksum
packet_bytes self dst protocol payload =
    let len = 20 + length payload in
    header_bytes self.ip_address dst protocol len (header_checksum self.ip_address dst protocol len)
    ++ payload

-- `jlos_internet_protocol_provider_send`: the frame, or none where the next hop is not resolved, with
-- the ARP request that goes out then.
unfoldable pub send : Bool → Provider → ℕ → ℕ → List ℕ → Option Frame × Option (ℕ × Message)
unfolding next_hop packet_bytes
send allocated self dst protocol payload =
    let bytes = packet_bytes self dst protocol payload in
    let (mac, request) =
      lookup_or_request allocated self.ip_address self.mac_address self.arp (next_hop self dst) in
    if dst == broadcast
    then (some (record { dst_mac = unresolved; bytes = bytes }), none)
    else if mac == unresolved
    then (none, request)
    else (some (record { dst_mac = mac; bytes = bytes }), request)

-- What a protocol's handler is called with.
pub record Datagram : Type 0 where
  pub src_ip : ℕ
  pub dst_ip : ℕ
  pub protocol : ℕ
  pub bytes : List ℕ

-- The handlers by protocol number, each with whether it sends back and the bytes that it leaves.
abbrev pub Handlers : Type 0
Handlers = ℕ → Option (Datagram → Bool × List ℕ)

-- `JLOS_IPV4_GET_IHL`.
abbrev pub words_of : List ℕ → ℕ
words_of frame = bit_and (get_or frame 0 0) 0x0F

-- What the handler is given, where the header ends within the frame.
unfoldable pub datagram_of : List ℕ → Datagram
datagram_of frame = record {
  src_ip = load32 frame 12;
  dst_ip = load32 frame 16;
  protocol = get_or frame 9 0;
  bytes = drop (4 * words_of frame) frame;
}

-- The header that is sent back, of 5 words or more: the addresses change places, and the checksum is
-- made anew.
unfoldable pub turned : List ℕ → ℕ → List ℕ
turned frame checksum =
    take 8 frame
    ++ (0x40
        ∷ get_or frame 9 0
        ∷ store16 checksum (store32 (load32 frame 16) (store32 (load32 frame 12) [])))
    ++ drop 20 (take (4 * words_of frame) frame)

unfoldable pub sent_back : List ℕ → List ℕ → List ℕ
unfolding turned
sent_back frame payload = turned frame (csum_fold (csum_partial (turned frame 0) 0)) ++ payload

unfoldable pub answer_of : (Datagram → Bool × List ℕ) → List ℕ → Bool × List ℕ
unfolding datagram_of sent_back
answer_of handler frame =
    let (back, payload) = handler (datagram_of frame) in
    if back then (true, sent_back frame payload) else (false, frame)

-- The code does not check the length of the header: with more words than the frame has it pulls `data`
-- behind the end of the buffer, and with fewer than 5 the payload overlaps the fields that it turns.
-- There is no result for either.
unfoldable pub dispatch : Option (Datagram → Bool × List ℕ) → List ℕ → Option (Bool × List ℕ)
unfolding answer_of
dispatch none frame = some (false, frame)
dispatch (some handler) frame =
    if ltb (words_of frame) 5 || ltb (length frame) (4 * words_of frame)
    then none
    else some (answer_of handler frame)

-- `jlos_internet_protocol_provider_on_ether_frame_received`. The total length of the header is read
-- and not used, so the handler gets the frame up to its end.
unfoldable pub on_ether_frame_received : Handlers → Provider → List ℕ → Option (Bool × List ℕ)
unfolding dispatch
on_ether_frame_received handlers self frame =
    if ltb (length frame) 20
    then some (false, frame)
    else if load32 frame 16 == self.ip_address || load32 frame 16 == broadcast
    then dispatch (handlers (get_or frame 9 0)) frame
    else some (false, frame)
