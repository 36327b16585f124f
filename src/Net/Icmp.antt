-- ===== src/Net/Icmp.antt =====
-- `net/icmp.c`: the answer to an echo request, in the place of the request, and the request itself.
pub mod Echo
mod Tests
use johnbeauty_os.Prelude.{
  ℕ, Bool, true, false, List, [], ◌∷◌, ◌++◌, ◌==◌, ltb, if◌then◌else◌, length, get_or, drop,
}
use johnbeauty_os.Net.Wire.{store16, store32}
use johnbeauty_os.Net.Checksum.{csum_partial, csum_fold}

-- The message with type 0 and a checksum.
unfoldable pub reply_bytes : List ℕ → ℕ → List ℕ
reply_bytes msg checksum = 0 ∷ get_or msg 1 0 ∷ store16 checksum (drop 4 msg)

unfoldable pub echo_reply : List ℕ → List ℕ
unfolding reply_bytes
echo_reply msg = reply_bytes msg (csum_fold (csum_partial (reply_bytes msg 0) 0))

-- `jlos_icmp_on_internet_protocol_received`: whether the message goes back, and its bytes. A message
-- has at least 8 bytes; an echo reply and every other type is dropped.
unfoldable pub on_internet_protocol_received : List ℕ → Bool × List ℕ
unfolding echo_reply
on_internet_protocol_received msg =
    if ltb (length msg) 8
    then (false, msg)
    else if get_or msg 0 0 == 8
    then (true, echo_reply msg)
    else (false, msg)

-- The message of `jlos_icmp_request_echo_reply` around a checksum: `data` is 0x3713 in 32 bits.
unfoldable pub request_bytes : ℕ → List ℕ
request_bytes checksum = 8 ∷ 0 ∷ store16 checksum (store32 0x3713 [])

-- The bytes handed to the IP layer, where a buffer was allocated.
unfoldable pub request_echo_reply : List ℕ
unfolding request_bytes
request_echo_reply = request_bytes (csum_fold (csum_partial (request_bytes 0) 0))
