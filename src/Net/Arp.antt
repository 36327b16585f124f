-- ===== src/Net/Arp.antt =====
-- `net/arp.c`: answers to requests, the cache filled by replies, and the resolving of an address. The
-- address and the hardware address of the card are arguments, since the Ethernet layer keeps them; a
-- frame that is sent is a value, with the hardware address that it goes to.
pub mod Answers
pub mod Cache
pub mod Resolve
mod Tests
use johnbeauty_os.Prelude.{
  ℕ, zero, suc, ◌+◌, ◌-◌, ◌*◌, ◌/◌, ◌%◌, ◌^◌, Bool, true, false, ◌&&◌, Option, none, some, List, [],
  ◌∷◌, ◌==◌, ltb, if◌then◌else◌, get_or, set,
}

-- The bytes of a hardware address; they do not overlap, so that `|=` is a sum.
unfoldable pub uint64_to_mac : ℕ → List ℕ
uint64_to_mac m =
    m % 2 ^ 8
    ∷ m / 2 ^ 8 % 2 ^ 8
    ∷ m / 2 ^ 16 % 2 ^ 8
    ∷ m / 2 ^ 24 % 2 ^ 8
    ∷ m / 2 ^ 32 % 2 ^ 8
    ∷ m / 2 ^ 40 % 2 ^ 8
    ∷ []

unfoldable pub mac_to_uint64 : List ℕ → ℕ
mac_to_uint64 mac =
    get_or mac 0 0
    + get_or mac 1 0 * 2 ^ 8
    + get_or mac 2 0 * 2 ^ 16
    + get_or mac 3 0 * 2 ^ 24
    + get_or mac 4 0 * 2 ^ 32
    + get_or mac 5 0 * 2 ^ 40

-- The value that marks an address as not resolved, which is also the broadcast address.
abbrev pub unresolved : ℕ
unresolved = 0xFFFFFFFFFFFF

-- `jlos_arp_message_t`, the fields as the little-endian code reads them.
pub record Message : Type 0 where
  pub hardware_type : ℕ
  pub protocol : ℕ
  pub hardware_address_size : ℕ
  pub protocol_address_size : ℕ
  pub command : ℕ
  pub src_mac : List ℕ
  pub src_ip : ℕ
  pub dst_mac : List ℕ
  pub dst_ip : ℕ

pub record Arp : Type 0 where
  pub ip_cache : List ℕ
  pub mac_cache : List ℕ
  pub num_cache_entries : ℕ

-- `jlos_arp_init`, on the arrays that the structure holds.
unfoldable pub arp_init : List ℕ → List ℕ → Arp
arp_init ips macs = record { ip_cache = ips; mac_cache = macs; num_cache_entries = 0 }

-- The two tests before the switch.
unfoldable pub for_us : ℕ → Message → Bool
for_us my_ip arp =
    arp.hardware_type == 0x0100
    && arp.protocol == 0x0008
    && arp.hardware_address_size == 6
    && arp.protocol_address_size == 4
    && arp.dst_ip == my_ip

-- `case 0x0100`: the message is turned into the reply.
unfoldable pub reply_to : ℕ → ℕ → Message → Message
unfolding uint64_to_mac
reply_to my_ip my_mac arp = record arp {
  command = 0x0200;
  dst_ip = arp.src_ip;
  dst_mac = arp.src_mac;
  src_ip = my_ip;
  src_mac = uint64_to_mac my_mac;
}

-- `case 0x0200`: the sender goes into the cache while there is room.
unfoldable pub learn : Arp → Message → Arp
unfolding mac_to_uint64
learn self arp =
    let n = self.num_cache_entries in
    if ltb n 128
    then record {
      ip_cache = set self.ip_cache n arp.src_ip;
      mac_cache = set self.mac_cache n (mac_to_uint64 arp.src_mac);
      num_cache_entries = n + 1;
    }
    else self

-- `jlos_arp_on_ether_frame_received` of `len` bytes that hold the message: whether the frame is sent
-- back, the cache and the message. A message has 28 bytes.
unfoldable pub on_ether_frame_received : ℕ → ℕ → ℕ → Arp → Message → Bool × Arp × Message
unfolding for_us reply_to learn
on_ether_frame_received my_ip my_mac len self arp =
    if ltb len 28
    then (false, self, arp)
    else if for_us my_ip arp
    then if arp.command == 0x0100
      then (true, self, reply_to my_ip my_mac arp)
      else if arp.command == 0x0200
      then (false, learn self arp, arp)
      else (false, self, arp)
    else (false, self, arp)

-- The loop of `jlos_arp_get_mac_from_cache` from entry `i` on, with `n` entries left.
unfoldable pub scan : Arp → ℕ → ℕ → ℕ → ℕ
scan self ip i zero = unresolved
scan self ip i (suc n) =
    let rest = scan self ip (i + 1) n in
    if get_or self.ip_cache i 0 == ip then get_or self.mac_cache i 0 else rest

unfoldable pub get_mac_from_cache : Arp → ℕ → ℕ
unfolding scan
get_mac_from_cache self ip = scan self ip 0 self.num_cache_entries

-- `jlos_arp_request_mac_address`, where a buffer was allocated.
unfoldable pub request_for : ℕ → ℕ → ℕ → Message
unfolding uint64_to_mac
request_for my_ip my_mac ip = record {
  hardware_type = 0x0100;
  protocol = 0x0008;
  hardware_address_size = 6;
  protocol_address_size = 4;
  command = 0x0100;
  src_mac = uint64_to_mac my_mac;
  src_ip = my_ip;
  dst_mac = 0xFF ∷ 0xFF ∷ 0xFF ∷ 0xFF ∷ 0xFF ∷ 0xFF ∷ [];
  dst_ip = ip;
}

unfoldable pub request_mac_address : Bool → ℕ → ℕ → ℕ → Option (ℕ × Message)
unfolding request_for
request_mac_address allocated my_ip my_mac ip =
    if allocated then some (unresolved, request_for my_ip my_mac ip) else none

-- `jlos_arp_lookup_or_request`: what is known, and the request where it is not.
unfoldable pub lookup_or_request : Bool → ℕ → ℕ → Arp → ℕ → ℕ × Option (ℕ × Message)
unfolding request_mac_address get_mac_from_cache
lookup_or_request allocated my_ip my_mac self ip =
    let result = get_mac_from_cache self ip in
    (result, if result == unresolved then request_mac_address allocated my_ip my_mac ip else none)

-- The waiting loop of `jlos_arp_resolve`: `seen k` is the cache at the k-th look, which the receive
-- path may have filled since the one before. At most `left` looks more.
unfoldable pub poll : (ℕ → Arp) → ℕ → ℕ → ℕ → ℕ → ℕ
unfolding get_mac_from_cache
poll seen ip k zero result = result
poll seen ip k (suc left) result =
    let later = poll seen ip (k + 1) left (get_mac_from_cache (seen k) ip) in
    if result == unresolved then later else result

-- `jlos_arp_resolve`, with the bound 5000000 of its loop as `timeout`.
unfoldable pub resolve : ℕ → Bool → ℕ → ℕ → (ℕ → Arp) → ℕ → ℕ × Option (ℕ × Message)
unfolding get_mac_from_cache request_mac_address poll
resolve timeout allocated my_ip my_mac seen ip =
    let first = get_mac_from_cache (seen 0) ip in
    if first == unresolved
    then (
      poll seen ip 2 timeout (get_mac_from_cache (seen 1) ip),
      request_mac_address allocated my_ip my_mac ip,
    )
    else (first, none)
