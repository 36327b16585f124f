-- ===== src/Net/Tcp/Select.antt =====
-- Which part of the handler of `net/tcp.c` the flags of a segment select.
use Prim.Native.Nat.{bit_and}
use johnbeauty_os.Prelude.{◌+◌, ◌≡◌, true}
use johnbeauty_os.Net.Tcp.{Socket, Alloc, syn, ack, fin, rst}
use johnbeauty_os.Net.Tcp.Receive.{
  Skb, Handler, on_syn, on_syn_ack, on_ack, on_flags, unless_closed, on_segment, on_fin, flags_of,
}

-- Every request for a buffer is served.
abbrev pub served : Alloc
served _ = true

module _ (alloc : Alloc) (h : Handler) (s : Socket) (skb : Skb) where
  -- Which handler the flags of a segment select, in a socket that is not closed.
  pub on_flags-syn : flags_of skb ≡ syn → on_flags alloc h s skb ≡ on_syn alloc h s skb
  unfolding on_flags
  on_flags-syn e = rw e

  pub on_flags-syn-ack :
      flags_of skb ≡ syn + ack → on_flags alloc h s skb ≡ on_syn_ack alloc h s skb
  unfolding on_flags
  on_flags-syn-ack e = rw e

  pub on_flags-ack : flags_of skb ≡ ack → on_flags alloc h s skb ≡ on_ack alloc h s skb
  unfolding on_flags
  on_flags-ack e = rw e

  pub on_flags_control_ack :
      bit_and (flags_of skb) 0x13 ≡ ack → on_flags alloc h s skb ≡ on_ack alloc h s skb
  unfolding on_flags
  on_flags_control_ack e = rw e

  pub on_flags-fin-ack : flags_of skb ≡ fin + ack → on_flags alloc h s skb ≡ on_fin alloc h s skb
  unfolding on_flags
  on_flags-fin-ack e = rw e

  -- Without a reset flag.
  pub on_segment_live :
      bit_and (flags_of skb) rst ≡ 0 → on_segment alloc h s skb ≡ unless_closed alloc h s skb
  unfolding on_segment
  on_segment_live e = rw e
