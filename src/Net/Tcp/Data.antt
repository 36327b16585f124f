-- ===== src/Net/Tcp/Data.antt =====
-- Data on an established connection of `net/tcp.c`: what is handed to the application, what is
-- acknowledged and what is refused.
use Prim.Native.Nat.{bit_and}
use johnbeauty_os.Prelude.{
  ℕ, ◌-◌, ◌*◌, ◌%◌, ◌^◌, ◌≤◌, ◌<◌, ◌≡◌, ◌≢◌, ◌∙◌, ◌⊎◌, sym, ap, true, false, [], ◌∷◌, ◌++◌, arith,
  add32, length, drop, length-drop, take_whole, if_true, if◌then◌else◌,
}
use johnbeauty_os.Net.Tcp.{established, Socket, ack, send, rst}
use johnbeauty_os.Net.Tcp.Receive.{
  Skb, Answer, Handler, refused, on_data, on_ack, unless_closed, leave_time_wait, deliver, conclude,
  handle_tcp_message, finish, receive, flags_of, sequence_of, data_offset_of,
}
use johnbeauty_os.Net.Tcp.Edges.{control}
use johnbeauty_os.Net.Tcp.Select.{served, on_segment_live, on_flags_control_ack}
use johnbeauty_os.Net.Tcp.Segments.{packet_of}

pub leave_established : (s : Socket) → s.state ≡ established → leave_time_wait s ≡ s
unfolding leave_time_wait
leave_established s e = ground arith

on_data-refused :
    (h : Handler) (s : Socket) (skb : Skb)
    → (sequence_of skb ≢ s.acknowledgement_number)
      ⊎ (data_offset_of skb < 5)
      ⊎ (length skb.bytes < data_offset_of skb * 4)
    → on_data served h s skb ≡ refused s
unfolding on_data
on_data-refused h s skb bad = ground arith

on_data-deliver :
    (h : Handler) (s : Socket) (skb : Skb)
    → sequence_of skb ≡ s.acknowledgement_number
    → 5 ≤ data_offset_of skb
    → data_offset_of skb * 4 ≤ length skb.bytes
    → on_data served h s skb ≡ deliver served h s skb (data_offset_of skb * 4)
unfolding on_data
on_data-deliver h s skb e lo hi = ground arith

-- What an accepted answer leads to.
finish-conclude :
    (h : Handler) (n : ℕ) (answer : Answer)
    → answer.accepted ≡ true
    → answer.socket.sequence_number < 2 ^ 32
    → let s = answer.socket in
      let s' = record s { acknowledgement_number = add32 s.acknowledgement_number n } in
      finish served h (conclude served h n answer)
      ≡ (leave_time_wait s', answer.sent ++ (packet_of s' [] ack ∷ []), true)
unfolding conclude finish send
finish-conclude h n answer ok word =
    let s = answer.socket in
    let s' = record s { acknowledgement_number = add32 s.acknowledgement_number n } in
    let same : add32 s.sequence_number 0 ≡ s.sequence_number = omega arith in
    ap (finish served h) (if_true answer.accepted _ _ ok) ∙ λ i. (
      leave_time_wait (record s' { sequence_number = same i }),
      answer.sent ++ (packet_of s' [] ack ∷ []),
      true,
    )

module _ (h : Handler) (s : Socket) (skb : Skb) (open_state : s.state ≡ established)
    (no_reset : bit_and (flags_of skb) rst ≡ 0) (only_ack : control (flags_of skb) ≡ ack) where
  -- An ACK without SYN, FIN or RST reaches the data case.
  reaches_data : receive served h s skb ≡ finish served h (on_data served h s skb)
  unfolding receive unless_closed on_ack
  reaches_data = ap (finish served h) (
      on_segment_live served h s skb no_reset
      ∙ (λ i. unless_closed served h (record s { state = open_state i }) skb)
      ∙ on_flags_control_ack served h (record s { state = established }) skb only_ack
      ∙ λ i. on_data served h (record s { state = sym open_state i }) skb)

  -- Where every buffer is served, an ACK without SYN, FIN and RST on an established connection
  -- that is not the next segment expected, or whose data offset is impossible, is answered by a
  -- reset; the socket keeps its state and its numbers and the application is not called.
  pub out_of_order_refused :
      s.sequence_number < 2 ^ 32
      → (sequence_of skb ≢ s.acknowledgement_number)
        ⊎ (data_offset_of skb < 5)
        ⊎ (length skb.bytes < data_offset_of skb * 4)
      → receive served h s skb ≡ (s, packet_of s [] rst ∷ [], true)
  unfolding refused finish send
  out_of_order_refused word bad =
      let same : add32 s.sequence_number 0 ≡ s.sequence_number = omega arith in
      reaches_data ∙ ap (finish served h) (on_data-refused h s skb bad) ∙ λ i. (
        (leave_established (record s { sequence_number = same i }) open_state) i,
        packet_of s [] rst ∷ [],
        true,
      )

  -- Where every buffer is served and an application is bound, an ACK without SYN, FIN and RST that
  -- is the next segment expected on an established connection, with a possible data offset and of
  -- fewer than 2 ^ 16 bytes, is handed to the application without its header. If the application
  -- accepts it, the payload's length is added to the number acknowledged, and an ACK goes out behind
  -- what the application sent; no sequence number is used up.
  pub in_order_delivered :
      let payload = drop (data_offset_of skb * 4) skb.bytes in
      let answer = h s payload in
      let s' = record (answer.socket) {
        acknowledgement_number = add32 answer.socket.acknowledgement_number (length payload);
      } in
      s.bound ≡ true
      → sequence_of skb ≡ s.acknowledgement_number
      → 5 ≤ data_offset_of skb
      → data_offset_of skb * 4 ≤ length skb.bytes
      → length skb.bytes < 2 ^ 16
      → answer.accepted ≡ true
      → answer.socket.sequence_number < 2 ^ 32
      → receive served h s skb
        ≡ (leave_time_wait s', answer.sent ++ (packet_of s' [] ack ∷ []), true)
  unfolding deliver handle_tcp_message
  in_order_delivered b e lo hi short ok word =
      let payload = drop (data_offset_of skb * 4) skb.bytes in
      let size = length-drop (data_offset_of skb * 4) skb.bytes in
      let told =
        take_whole ((length skb.bytes - data_offset_of skb * 4) % 2 ^ 16) payload
          (omega (arith, size, short)) in
      let not_bound : Answer = record { accepted = false; socket = s; sent = [] } in
      reaches_data
      ∙ ap (finish served h) (on_data-deliver h s skb e lo hi)
      ∙ (λ i. finish served h (
          conclude served h (length skb.bytes - data_offset_of skb * 4)
            (if s.bound then h s (told i) else not_bound)))
      ∙ (λ i.
          finish served h
            (conclude served h (sym size i) (if_true s.bound (h s payload) not_bound b i)))
      ∙ finish-conclude h (length payload) (h s payload) ok word
