-- ===== src/Net/Ipv4/Packets.antt =====
-- A packet of `net/ipv4.c` between two machines: its checksum, and what the receiver makes of it.
use johnbeauty_os.Prelude.{
  ℕ, ◌^◌, ◌<◌, ◌≡◌, ◌∙◌, ◌⊎◌, refl, ap, Bool, some, List, [], ◌∷◌, ◌++◌, arith, length, ◌==◌,
  if_false, if_true, ltb, ◌||◌, ◌*◌,
}
use johnbeauty_os.Net.Wire.{swap16, store16, store32, load32, load32-store32}
use johnbeauty_os.Net.Checksum.{csum_partial, csum_fold}
use johnbeauty_os.Net.Checksum.Laws.{csum_verifies}
use johnbeauty_os.Net.Ipv4.{
  Provider, broadcast, header_bytes, header_checksum, packet_bytes, Datagram, Handlers, datagram_of,
  dispatch, words_of, answer_of, on_ether_frame_received,
}

-- The header that is sent, for a protocol of 8 bits, sums to zero at the receiver.
pub header_verifies :
    (src dst protocol len : ℕ)
    → protocol < 2 ^ 8
    → csum_fold
        (csum_partial (header_bytes src dst protocol len (header_checksum src dst protocol len)) 0)
      ≡ 0
unfolding header_bytes header_checksum
header_verifies src dst protocol len byte =
    csum_verifies 5
      (0x45 ∷ 0 ∷ store16 (swap16 len) (store16 0x0100 (store16 0x0040 (0x40 ∷ protocol ∷ []))))
      (store32 src (store32 dst [])) refl
      (
        omega arith,
        (
          omega arith,
          (
            omega arith,
            (
              omega arith,
              (
                omega arith,
                (omega arith, (omega arith, (omega arith, (omega arith, (omega arith, tt))))),
              ),
            ),
          ),
        ),
      )
      (
        omega arith,
        (
          omega arith,
          (
            omega arith,
            (omega arith, (omega arith, (omega arith, (omega arith, (omega arith, tt))))),
          ),
        ),
      )
      (omega arith)

-- A packet between 32-bit addresses that is sent to a machine, or to all, is handed there to the
-- handler of its protocol, where there is one, with the payload as it was given, the sender's
-- address and the address that it was sent to.
pub packet_arrives :
    (handlers : Handlers) (from self : Provider) (dst protocol : ℕ) (payload : List ℕ)
    (handler : Datagram → Bool × List ℕ)
    → from.ip_address < 2 ^ 32
    → dst < 2 ^ 32
    → (dst ≡ self.ip_address) ⊎ (dst ≡ broadcast)
    → handlers protocol ≡ some handler
    → let frame = packet_bytes from dst protocol payload in
      let datagram : Datagram = record {
        src_ip = from.ip_address;
        dst_ip = dst;
        protocol = protocol;
        bytes = payload;
      } in
      (datagram_of frame ≡ datagram)
      × (on_ether_frame_received handlers self frame ≡ some (answer_of handler frame))
unfolding on_ether_frame_received dispatch datagram_of packet_bytes header_bytes
packet_arrives handlers from self dst protocol payload handler word word' ours known = (
  λ i. record {
    src_ip = load32-store32 from.ip_address [] word i;
    dst_ip = load32-store32 dst [] word' i;
    protocol = protocol;
    bytes = payload;
  },
  let frame = packet_bytes from dst protocol payload in
      let there : load32 frame 16 ≡ dst = load32-store32 dst [] word' in
      if_false (ltb (length frame) 20) _ _ (ground arith)
      ∙ if_true (load32 frame 16 == self.ip_address || load32 frame 16 == broadcast) _ _
          (ground (arith, there, ours))
      ∙ ap (λ h. dispatch h frame) known
      ∙ if_false (ltb (words_of frame) 5 || ltb (length frame) (4 * words_of frame)) _ _
          (ground arith),
)

-- What stands in the frame behind a packet, as the padding of a short Ethernet frame does, is handed to
-- the handler as if it were payload: the total length in the header is not regarded.
datagram_of-packet_bytes :
    (from : Provider) (dst protocol : ℕ) (payload padding : List ℕ)
    → (datagram_of (packet_bytes from dst protocol payload ++ padding)).bytes ≡ payload ++ padding
unfolding datagram_of packet_bytes header_bytes
datagram_of-packet_bytes from dst protocol payload padding = refl
