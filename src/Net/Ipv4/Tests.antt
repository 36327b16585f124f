-- ===== src/Net/Ipv4/Tests.antt =====
-- The theorems on `net/ipv4.c` at two machines of one subnet.
use johnbeauty_os.Prelude.{ℕ, ◌≡◌, refl, Bool, false, some, List, [], ◌∷◌, arith, inl, replicate}
use johnbeauty_os.Net.Ipv4.{
  Provider, Datagram, Handlers, packet_bytes, datagram_of, answer_of, on_ether_frame_received,
}
use johnbeauty_os.Net.Ipv4.Packets.{packet_arrives}

abbrev near : Provider
near = record {
  ip_address = 0x0201000A;
  mac_address = 0x665544332211;
  gateway_ip = 0x0101000A;
  subnet_mask = 0x00FFFFFF;
  arp = record { ip_cache = replicate 128 0; mac_cache = replicate 128 0; num_cache_entries = 0 };
}

abbrev far : Provider
far = record near { ip_address = 0x0301000A }

abbrev takes : Datagram → Bool × List ℕ
takes datagram = (false, [])

abbrev handlers : Handlers
handlers protocol = some takes

packet_arrives_example :
    let frame = packet_bytes near 0x0301000A 6 (1 ∷ 2 ∷ []) in
    let datagram : Datagram = record {
      src_ip = 0x0201000A;
      dst_ip = 0x0301000A;
      protocol = 6;
      bytes = 1 ∷ 2 ∷ [];
    } in
    (datagram_of frame ≡ datagram)
    × (on_ether_frame_received handlers far frame ≡ some (answer_of takes frame))
packet_arrives_example =
    packet_arrives handlers near far 0x0301000A 6 (1 ∷ 2 ∷ []) takes (omega arith) (omega arith)
      (inl refl) refl
