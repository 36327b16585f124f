-- ===== src/Common/Strings/Tests.antt =====
-- The theorems on the strings of `common/types.c` at strings of three bytes.
use johnbeauty_os.Prelude.{ℕ, ◌+◌, ◌-◌, ◌≡◌, refl, inr, arith, min, ltb, if◌then◌else◌}
use johnbeauty_os.Common.Memory.{Memory}
use johnbeauty_os.Common.Strings.{strlcpy}
use johnbeauty_os.Common.Strings.Copied.{IsString, ended_copy, strlcpy-ended_copy}

-- The string `7 7 7` at 100.
abbrev mem : Memory
mem x = if ltb x 103 then 7 else 0

sevens : (s k : ℕ) → s + k ≡ 103 → IsString mem s k
sevens s k e = record { text = λ i h. ground (arith, e); ended = ground (arith, e) }

strlcpy-ended_copy_example :
    let (len, mem') = strlcpy 10 mem 200 100 3 in
    (len ≡ 3) × ((x : ℕ) → mem' x ≡ ended_copy mem 200 100 (min 3 (3 - 1)) x)
strlcpy-ended_copy_example =
    strlcpy-ended_copy 10 mem 200 100 3 3 (sevens 100 3 refl) (omega arith) (omega arith)
      (inr (omega arith))
