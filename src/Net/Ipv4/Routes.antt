-- ===== src/Net/Ipv4/Routes.antt =====
-- Where `net/ipv4.c` sends a packet.
use Prim.Native.Nat.{bit_and}
use johnbeauty_os.Prelude.{
  ℕ, ◌≡◌, ◌≢◌, ◌∙◌, refl, Bool, true, false, none, some, List, arith, ◌==◌, if◌then◌else◌, if_false,
}
use johnbeauty_os.Net.Arp.{
  unresolved, get_mac_from_cache, lookup_or_request, request_mac_address, request_for,
}
use johnbeauty_os.Net.Ipv4.{Provider, broadcast, next_hop, packet_bytes, send}

same_test :
    {A B : Type 0} (b : Bool) (x y : A) (z w : B)
    → let left : A × B = if b then (x, if b then z else w) else (y, if b then z else w) in
      let right : A × B = if b then (x, z) else (y, w) in left ≡ right
same_test true x y z w = refl
same_test false x y z w = refl

-- A packet for one machine goes to the hardware address that the cache has for the next hop, which is
-- the machine itself inside the subnet and the gateway outside; where the cache has none, nothing but
-- a request for the next hop is sent.
send_routes :
    (self : Provider) (dst protocol : ℕ) (payload : List ℕ)
    → dst ≢ broadcast
    → let inside = bit_and dst self.subnet_mask == bit_and self.ip_address self.subnet_mask in
      let hop = if inside then dst else self.gateway_ip in
      let mac = get_mac_from_cache self.arp hop in
      send true self dst protocol payload ≡ (
        if mac == unresolved
        then (none, some (unresolved, request_for self.ip_address self.mac_address hop))
        else (
          some (record { dst_mac = mac; bytes = packet_bytes self dst protocol payload }),
          none,
        ))
unfolding send next_hop lookup_or_request request_mac_address
send_routes self dst protocol payload single =
    let inside = bit_and dst self.subnet_mask == bit_and self.ip_address self.subnet_mask in
    let hop = if inside then dst else self.gateway_ip in
    let mac = get_mac_from_cache self.arp hop in
    if_false (dst == broadcast) _ _ (ground (arith, single))
    ∙ same_test (mac == unresolved) none _ _ none
