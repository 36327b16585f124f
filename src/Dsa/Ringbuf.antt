-- ===== src/Dsa/Ringbuf.antt =====
-- `dsa/ringbuf.c`: a byte ring of a power-of-two size with free-running 32-bit indices. A function
-- that updates `*rf` returns the new ring; one that fills the caller's array returns those bytes.
pub mod Queue
pub mod Index
pub mod Moves
pub mod Refine
mod Tests
use Prim.Native.Nat.{bit_and}
use johnbeauty_os.Prelude.{
  ℕ, ◌+◌, ◌-◌, ◌%◌, ◌^◌, Bool, List, ◌++◌, ltb, ◌==◌, if◌then◌else◌, take, drop, copy_to, add32,
  sub32,
}

-- `jlos_ringbuf_t`; the fields `in` and `out` are `in_pos` and `out_pos`.
pub record Ringbuf : Type 0 where
  pub buffer : List ℕ
  pub size : ℕ
  pub mask : ℕ
  pub in_pos : ℕ
  pub out_pos : ℕ

pub init : List ℕ → ℕ → Ringbuf
init buffer size = record {
  buffer = buffer;
  size = size;
  mask = sub32 size 1;
  in_pos = 0;
  out_pos = 0;
}

pub reset : Ringbuf → Ringbuf
reset rf = record rf { in_pos = 0; out_pos = 0 }

pub count : Ringbuf → ℕ
count rf = sub32 rf.in_pos rf.out_pos

pub free : Ringbuf → ℕ
free rf = sub32 rf.size (count rf)

pub is_empty : Ringbuf → Bool
is_empty rf = rf.in_pos == rf.out_pos

pub is_full : Ringbuf → Bool
is_full rf = count rf == rf.size

-- The two `jlos_memcpy` branches of `jlos_ringbuf_write`, for `len` bytes at offset `off`.
pub put : List ℕ → ℕ → ℕ → List ℕ → ℕ → List ℕ
put buffer size off data_in len =
    let l = sub32 size off in
    if ltb l len
    then copy_to (copy_to buffer off (take l data_in)) 0 (take (len - l) (drop l data_in))
    else copy_to buffer off (take len data_in)

-- The two `jlos_memcpy` branches of `jlos_ringbuf_read` and `jlos_ringbuf_peek`.
pub fetch : List ℕ → ℕ → ℕ → ℕ → List ℕ
fetch buffer size off len =
    let l = sub32 size off in
    if ltb l len
    then take l (drop off buffer) ++ take (len - l) buffer
    else take len (drop off buffer)

pub write : Ringbuf → List ℕ → ℕ → ℕ × Ringbuf
write rf data_in want =
    let room = free rf in
    let len = if ltb room want then room else want in
    let off = bit_and rf.in_pos rf.mask in
    (
      len,
      record rf { buffer = put rf.buffer rf.size off data_in len; in_pos = add32 rf.in_pos len },
    )

pub read : Ringbuf → ℕ → ℕ × List ℕ × Ringbuf
read rf want =
    let held = count rf in
    let len = if ltb held want then held else want in
    let off = bit_and rf.out_pos rf.mask in
    (len, fetch rf.buffer rf.size off len, record rf { out_pos = add32 rf.out_pos len })

pub peek : Ringbuf → ℕ → ℕ × List ℕ
peek rf want =
    let held = count rf in
    let len = if ltb held want then held else want in
    let off = bit_and rf.out_pos rf.mask in (len, fetch rf.buffer rf.size off len)
