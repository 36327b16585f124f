-- ===== src/Net/Checksum.antt =====
-- The internet checksum of `net/ipv4.c`: `jlos_internet_protocol_provider_csum_partial` and
-- `jlos_internet_protocol_provider_csum_fold`.
pub mod Laws
mod Tests
use johnbeauty_os.Prelude.{
  ℕ, zero, suc, ◌+◌, ◌-◌, ◌*◌, ◌/◌, ◌%◌, ◌^◌, List, [], ◌∷◌, ◌==◌, if◌then◌else◌, add32,
}
use johnbeauty_os.Net.Wire.{swap16}

-- The loop over 16-bit words and the odd last byte. Two bytes at a time, `JLOS_SWAP_ENDIAN_16` of
-- the little-endian word.
unfoldable pub csum_partial : List ℕ → ℕ → ℕ
csum_partial [] csum = csum
csum_partial (b ∷ []) csum = add32 csum (b * 2 ^ 8 % 2 ^ 32)
csum_partial (b ∷ c ∷ bs) csum = csum_partial bs (add32 csum (swap16 (b + c * 2 ^ 8)))

-- `while (csum >> 16) csum = (csum & 0xFFFF) + (csum >> 16);`
pub fold_loop : ℕ → ℕ → ℕ
fold_loop zero csum = csum
fold_loop (suc fuel) csum =
    let rest = fold_loop fuel ((csum % 2 ^ 16 + csum / 2 ^ 16) % 2 ^ 32) in
    if csum / 2 ^ 16 == 0 then csum else rest

-- Two rounds are enough for a 32-bit sum (`Laws.fold_loop-ends`).
unfoldable pub csum_fold : ℕ → ℕ
csum_fold csum = swap16 ((2 ^ 32 - 1 - fold_loop 2 csum) % 2 ^ 16)
