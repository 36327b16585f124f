-- ===== src/Net/Icmp/Tests.antt =====
-- The echo of `net/icmp.c` at the request that the code sends itself.
use johnbeauty_os.Prelude.{ℕ, ◌≡◌, refl, true, List, [], ◌∷◌, arith, get_or, drop}
use johnbeauty_os.Net.Checksum.{csum_partial, csum_fold}
use johnbeauty_os.Net.Icmp.{on_internet_protocol_received}
use johnbeauty_os.Net.Icmp.Echo.{echo_answered}

abbrev request : List ℕ
request = 8 ∷ 0 ∷ 0xE4 ∷ 0xC0 ∷ 0x13 ∷ 0x37 ∷ 0 ∷ 0 ∷ []

echo_answered_example :
    let (back, reply) = on_internet_protocol_received request in
    (back ≡ true)
    × (get_or reply 0 0 ≡ 0)
    × (get_or reply 1 0 ≡ 0)
    × (drop 4 reply ≡ 0x13 ∷ 0x37 ∷ 0 ∷ 0 ∷ [])
    × (csum_fold (csum_partial reply 0) ≡ 0)
echo_answered_example =
    echo_answered request (omega arith) (omega arith)
      (
        omega arith,
        (
          omega arith,
          (
            omega arith,
            (omega arith, (omega arith, (omega arith, (omega arith, (omega arith, tt))))),
          ),
        ),
      )
      refl
