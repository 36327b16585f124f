-- ===== src/Common/Memory/Tests.antt =====
-- The theorem on `memmove` of `common/types.c` at blocks that overlap.
use johnbeauty_os.Prelude.{◌≡◌}
use johnbeauty_os.Common.Memory.{Memory, memmove}
use johnbeauty_os.Common.Memory.Copies.{copied, memmove-copied}

abbrev mem : Memory
mem x = x

-- Two bytes forward, over themselves.
memmove-copied_example : memmove mem 6 4 5 8 ≡ copied mem 6 4 5 8
memmove-copied_example = memmove-copied mem 6 4 5 8
