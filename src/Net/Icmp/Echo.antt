-- ===== src/Net/Icmp/Echo.antt =====
-- The echo of `net/icmp.c`: every request is answered with its own data and a checksum that verifies.
use johnbeauty_os.Prelude.{
  ℕ, suc, zero, ◌<◌, ◌≢◌, ◌⊎◌, ◌≤◌, ◌≡◌, ◌∙◌, refl, true, false, List, [], ◌∷◌, arith, ◌==◌, ltb,
  if_true, if_false, length, get_or, drop, length-drop,
}
use johnbeauty_os.Prelude.Predicates.{All}
use johnbeauty_os.Net.Checksum.{csum_partial, csum_fold}
use johnbeauty_os.Net.Checksum.Laws.{IsByte, csum_verifies}
use johnbeauty_os.Net.Icmp.{reply_bytes, echo_reply, on_internet_protocol_received}

All-drop : (n : ℕ) (xs : List ℕ) → All IsByte xs → All IsByte (drop n xs)
All-drop zero xs h = h
All-drop (suc n) [] h = h
All-drop (suc n) (x ∷ xs) h = All-drop n xs h.1

All-get_or : (n : ℕ) (xs : List ℕ) → All IsByte xs → IsByte (get_or xs n 0)
All-get_or n [] h = omega arith
All-get_or zero (x ∷ xs) h = h.0
All-get_or (suc n) (x ∷ xs) h = All-get_or n xs h.1

-- An echo request of 8 to 65000 bytes is sent back as a reply, with its code and everything behind
-- the checksum as it came, and the reply sums to zero at the receiver.
pub echo_answered :
    (msg : List ℕ)
    → 8 ≤ length msg
    → length msg ≤ 65000
    → All IsByte msg
    → get_or msg 0 0 ≡ 8
    → let (back, reply) = on_internet_protocol_received msg in
      (back ≡ true)
      × (get_or reply 0 0 ≡ 0)
      × (get_or reply 1 0 ≡ get_or msg 1 0)
      × (drop 4 reply ≡ drop 4 msg)
      × (csum_fold (csum_partial reply 0) ≡ 0)
unfolding on_internet_protocol_received echo_reply reply_bytes
echo_answered msg long short bytes request =
    let e : on_internet_protocol_received msg ≡ (true, echo_reply msg) =
      if_false (ltb (length msg) 8) _ _ (ground arith)
      ∙ if_true (get_or msg 0 0 == 8) _ _ (ground (arith, request)) in
    let verified =
      csum_verifies 1 (0 ∷ get_or msg 1 0 ∷ []) (drop 4 msg) refl
        (omega arith, (All-get_or 1 msg bytes, tt)) (All-drop 4 msg bytes)
        (omega (arith, length-drop 4 msg)) in
    rw e (refl, refl, refl, refl, verified)

-- Anything but an echo request of at least 8 bytes is not answered and not changed.
pub others_dropped :
    (msg : List ℕ)
    → (length msg < 8) ⊎ (get_or msg 0 0 ≢ 8)
    → on_internet_protocol_received msg ≡ (false, msg)
unfolding on_internet_protocol_received
others_dropped msg other = ground arith
