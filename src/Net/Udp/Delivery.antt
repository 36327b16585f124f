-- ===== src/Net/Udp/Delivery.antt =====
-- Which socket of `net/udp.c` a datagram reaches, and with what.
use johnbeauty_os.Prelude.{
  ◌≡◌, ◌≢◌, ◌∙◌, refl, false, Option, none, List, [], ◌∷◌, arith, ◌==◌, ltb, if◌then◌else◌,
  if_false, if_intro, length,
}
use johnbeauty_os.Prelude.Predicates.{All}
use johnbeauty_os.Net.Wire.{load16}
use johnbeauty_os.Net.Ipv4.{Datagram, broadcast}
use johnbeauty_os.Net.Udp.{
  Socket, Provider, bucket_of, match_socket, found_at, in_table, or_else, find_in, look_up,
  hand_over, on_internet_protocol_received,
}

find_in-none :
    (test : Socket → Option Socket) (ss : List Socket)
    → All (λ t. test t ≡ none) ss
    → find_in test ss ≡ none
unfolding find_in found_at
find_in-none test [] none_match = refl
find_in-none test (t ∷ ss) none_match =
    λ i. found_at (none_match.0 i) t ss (find_in-none test ss none_match.1 i)

-- The test that a datagram makes on each socket of a bucket.
abbrev pub tested : Datagram → Socket → Option Socket
tested skb = match_socket skb.src_ip (load16 skb.bytes 0) skb.dst_ip (load16 skb.bytes 2)

-- A datagram for one machine that no socket of its bucket matches is dropped, and the table stays.
pub undeliverable_dropped :
    (self : Provider) (skb : Datagram)
    → skb.dst_ip ≢ broadcast
    → All (λ t. tested skb t ≡ none) (self.buckets (bucket_of self skb.dst_ip (load16 skb.bytes 2)))
    → on_internet_protocol_received self skb ≡ (none, self, false)
unfolding on_internet_protocol_received look_up hand_over or_else in_table
undeliverable_dropped self skb single none_match =
    let n = bucket_of self skb.dst_ip (load16 skb.bytes 2) in
    let met = find_in-none (tested skb) (self.buckets n) none_match in
    let again = if skb.dst_ip == broadcast then look_up self 0 skb else none in
    let none_again : again ≡ none =
      if_false (skb.dst_ip == broadcast) _ _ (ground (arith, single)) in
    if_intro (λ r. r ≡ (none, self, false)) (ltb (length skb.bytes) 8) _ _ (λ _. refl)
      (λ _. (λ i. hand_over self skb (or_else (in_table self n (met i)) again)) ∙ λ i.
        hand_over self skb (none_again i))
