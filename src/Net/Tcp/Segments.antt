-- ===== src/Net/Tcp/Segments.antt =====
-- What a received segment says is what the sender wrote: the fields of a header that
-- `jlos_tcp_provider_send` builds, read back by the receiver, and its checksum.
use Prim.Native.Nat.{bit_and, bit_or}
use johnbeauty_os.Prelude.{
  ℕ, ◌*◌, ◌/◌, ◌^◌, ◌<◌, ◌≡◌, ◌∙◌, refl, ap, List, [], arith, true, ◌==◌, if◌then◌else◌, ◌&&◌,
}
use johnbeauty_os.Prelude.Tables.{holds_below, test_of_below}
use johnbeauty_os.Net.Wire.{swap32, swap32-swap32, swap32-lt, load32-store32}
use johnbeauty_os.Net.Tcp.{Socket, Packet, syn, segment_bytes, checksum_of}
use johnbeauty_os.Net.Tcp.Receive.{
  Skb, src_port, dst_port, sequence_of, acknowledgement_of, flags_of, data_offset_of,
}

-- Every field of the socket that a header carries fits its width.
pub record IsWord (s : Socket) : Type 0 where
  pub local_port : s.local_port < 2 ^ 16
  pub remote_port : s.remote_port < 2 ^ 16
  pub sequence : s.sequence_number < 2 ^ 32
  pub acknowledgement : s.acknowledgement_number < 2 ^ 32

-- The segment as the peer's IP layer hands it up.
abbrev pub arriving : ℕ → Packet → Skb
arriving src_ip p = record { src_ip = src_ip; dst_ip = p.dst_ip; bytes = p.bytes }

-- The packet that `send` emits.
abbrev pub packet_of : Socket → List ℕ → ℕ → Packet
packet_of s payload flags = record {
  dst_ip = s.remote_ip;
  bytes = segment_bytes s payload flags (checksum_of s payload flags);
}

-- The flags that the receiver reads from the bytes that the sender writes, and the data offset.
flags_read : ℕ → ℕ
flags_read flags =
    let doff = if bit_and flags syn == 0 then 5 else 6 in
    bit_or (bit_and flags 0xFF)
      (bit_and (bit_or (bit_and doff 0x0F * 2 ^ 4) (bit_and (flags / 2 ^ 8) 1)) 1 * 2 ^ 8)

offset_read : ℕ → ℕ
offset_read flags =
    let doff = if bit_and flags syn == 0 then 5 else 6 in
    bit_and (bit_or (bit_and doff 0x0F * 2 ^ 4) (bit_and (flags / 2 ^ 8) 1) / 2 ^ 4) 0x0F

flags_table :
    holds_below
      (λ f. flags_read f == f && offset_read f == (if bit_and f syn == 0 then 5 else 6))
      512
    ≡ true
unfolding holds_below flags_read offset_read
flags_table = refl

module _ (s : Socket) (payload : List ℕ) (flags src_ip : ℕ) (w : IsWord s)
    (nine : flags < 2 ^ 9) where
  skb : Skb
  skb = arriving src_ip (packet_of s payload flags)

  pub sequence_arrives :
      sequence_of (arriving src_ip (packet_of s payload flags)) ≡ s.sequence_number
  unfolding sequence_of segment_bytes
  sequence_arrives =
      ap swap32 (load32-store32 (swap32 s.sequence_number) [] (swap32-lt s.sequence_number))
      ∙ swap32-swap32 s.sequence_number w.sequence

  pub acknowledgement_arrives :
      acknowledgement_of (arriving src_ip (packet_of s payload flags)) ≡ s.acknowledgement_number
  unfolding acknowledgement_of segment_bytes
  acknowledgement_arrives =
      ap swap32
        (load32-store32 (swap32 s.acknowledgement_number) [] (swap32-lt s.acknowledgement_number))
      ∙ swap32-swap32 s.acknowledgement_number w.acknowledgement

  pub ports_arrive :
      (src_port (arriving src_ip (packet_of s payload flags)) ≡ s.local_port)
      × (dst_port (arriving src_ip (packet_of s payload flags)) ≡ s.remote_port)
  unfolding src_port dst_port segment_bytes
  ports_arrive = omega arith

  pub flags_arrive : flags_of (arriving src_ip (packet_of s payload flags)) ≡ flags
  unfolding flags_of segment_bytes flags_read
  flags_arrive = ground (arith, test_of_below _ 512 flags flags_table nine)

  pub offset_arrives :
      data_offset_of (arriving src_ip (packet_of s payload flags))
      ≡ (if bit_and flags syn == 0 then 5 else 6)
  unfolding data_offset_of segment_bytes offset_read
  offset_arrives = ground (arith, test_of_below _ 512 flags flags_table nine)
