-- ===== src/Net/Tcp/Sums.antt =====
-- The TCP checksum: a receiver that sums the pseudo header and the segment gets zero.
use Prim.Native.Nat.{bit_and, bit_or}
use johnbeauty_os.Prelude.{
  ℕ, ◌+◌, ◌*◌, ◌/◌, ◌%◌, ◌^◌, ◌≤◌, ◌<◌, ◌≡◌, refl, List, [], ◌∷◌, arith, length, true, ltb, ◌&&◌,
  Bool-cases, inl, inr, if◌then◌else◌, ◌==◌, add16,
}
use johnbeauty_os.Prelude.Predicates.{All}
use johnbeauty_os.Prelude.Tables.{holds_below, test_of_below}
use johnbeauty_os.Net.Wire.{swap16, swap32, store16, store32}
use johnbeauty_os.Net.Checksum.{csum_partial, csum_fold}
use johnbeauty_os.Net.Checksum.Laws.{IsByte, csum_verifies}
use johnbeauty_os.Net.Tcp.{
  Socket, syn, store_offset_flags, segment_bytes, pseudo_bytes, header_length, checksum_of,
}

module _ (s : Socket) (payload : List ℕ) (flags : ℕ) where
  -- What stands before the checksum field, the pseudo header included, and what stands behind it.
  front : List ℕ
  front = store32 s.local_ip (
      store32 s.remote_ip (
        store16 0x0600 (
          store16 (swap16 (add16 (length payload) (header_length flags))) (
            store16 s.local_port (
              store16 s.remote_port (
                store32 (swap32 s.sequence_number) (
                  store32 (swap32 s.acknowledgement_number) (
                    store_offset_flags (if bit_and flags syn == 0 then 5 else 6) flags
                      (store16 (swap16 0xFFFF) [])))))))))

  back : List ℕ
  back =
      store16 0
        (if bit_and flags syn == 0 then payload else 2 ∷ 4 ∷ 1460 / 2 ^ 8 ∷ 1460 % 2 ^ 8 ∷ payload)

offset_flags_table :
    holds_below
      (λ f.
        ltb (bit_and f 0xFF) 256
        && ltb
            (bit_or
              (bit_and (if bit_and f syn == 0 then 5 else 6) 0x0F * 2 ^ 4)
              (bit_and (f / 2 ^ 8) 1))
            256)
      512
    ≡ true
unfolding holds_below
offset_flags_table = refl

front-bytes :
    (s : Socket) (payload : List ℕ) (flags : ℕ) → flags < 2 ^ 9 → All IsByte (front s payload flags)
unfolding front swap16
front-bytes s payload flags h = ground (arith, test_of_below _ 512 flags offset_flags_table h)

back-bytes :
    (payload : List ℕ) (flags : ℕ) (s : Socket)
    → All IsByte payload
    → All IsByte (back s payload flags)
unfolding back
back-bytes payload flags s h = elim (Bool-cases (bit_and flags syn == 0)) [
  | inl plain ↦ rw plain (omega arith, (omega arith, h))
  | inr option ↦
      rw option
        (omega arith, (omega arith, (omega arith, (omega arith, (omega arith, (omega arith, h))))))
]

length-back :
    (s : Socket) (payload : List ℕ) (flags : ℕ) → length (back s payload flags) ≤ length payload + 6
unfolding back
length-back s payload flags = ground arith

-- The checksum that the sender stores makes the sum over pseudo header and segment zero, for flags
-- of 9 bits and every payload of at most 65000 bytes.
pub tcp_checksum_verifies :
    (s : Socket) (payload : List ℕ) (flags : ℕ)
    → flags < 2 ^ 9
    → All IsByte payload
    → length payload ≤ 65000
    → csum_fold (
        csum_partial
          (segment_bytes s payload flags (checksum_of s payload flags))
          (csum_partial (pseudo_bytes s (add16 (length payload) (header_length flags))) 0))
      ≡ 0
unfolding checksum_of segment_bytes pseudo_bytes csum_partial front back
tcp_checksum_verifies s payload flags nine bytes short =
    csum_verifies 14 (front s payload flags) (back s payload flags) refl
      (front-bytes s payload flags nine) (back-bytes payload flags s bytes)
      (let l = length-back s payload flags in omega arith)
