-- ===== src/Net/Arp/Tests.antt =====
-- The theorems on `net/arp.c` at a cache that holds one pair.
use johnbeauty_os.Prelude.{ℕ, ◌≡◌, refl, true, [], ◌∷◌, arith, ltb, if◌then◌else◌, replicate}
use johnbeauty_os.Net.Arp.{Arp, Message, on_ether_frame_received, get_mac_from_cache, resolve, scan}
use johnbeauty_os.Net.Arp.Answers.{IsAnswered, received}
use johnbeauty_os.Net.Arp.Cache.{IsCache, known_kept}
use johnbeauty_os.Net.Arp.Resolve.{IsResolved, resolve-IsResolved}

abbrev cache : Arp
cache = record {
  ip_cache = 100 ∷ replicate 127 0;
  mac_cache = 7777 ∷ replicate 127 0;
  num_cache_entries = 1;
}

cache-IsCache : IsCache cache
cache-IsCache = record { ips = refl; macs = refl; within = omega arith }

abbrev empty_cache : Arp
empty_cache = record {
  ip_cache = replicate 128 0;
  mac_cache = replicate 128 0;
  num_cache_entries = 0;
}

-- A reply that tells another hardware address for the same machine.
abbrev reply : Message
reply = record {
  hardware_type = 0x0100;
  protocol = 0x0008;
  hardware_address_size = 6;
  protocol_address_size = 4;
  command = 0x0200;
  src_mac = 1 ∷ 2 ∷ 3 ∷ 4 ∷ 5 ∷ 6 ∷ [];
  src_ip = 100;
  dst_mac = 9 ∷ 9 ∷ 9 ∷ 9 ∷ 9 ∷ 9 ∷ [];
  dst_ip = 200;
}

received_example :
    IsAnswered 200 4242 28 cache reply (on_ether_frame_received 200 4242 28 cache reply)
received_example = received 200 4242 28 cache reply cache-IsCache (omega arith) refl

known_kept_example :
    let (_, self', _) = on_ether_frame_received 200 4242 28 cache reply in
    get_mac_from_cache self' 100 ≡ get_mac_from_cache cache 100
unfolding get_mac_from_cache scan
known_kept_example = known_kept 200 4242 28 100 cache reply cache-IsCache (omega arith)

-- The reply comes in between the second and the third look.
abbrev looks : ℕ → Arp
looks k = if ltb k 2 then empty_cache else cache

resolve-IsResolved_example :
    IsResolved looks 100 5000000 true 200 4242 (resolve 5000000 true 200 4242 looks 100)
resolve-IsResolved_example = resolve-IsResolved looks 100 5000000 true 200 4242 (omega arith)
