-- ===== src/Net/Skbuff.antt =====
-- `net/skbuff.c`: the pointers into a socket buffer, as addresses of 32 bits, and its reference count.
-- What the allocators return is an argument.
pub mod Room
mod Tests
use johnbeauty_os.Prelude.{
  ℕ, ◌+◌, ◌-◌, ◌/◌, ◌%◌, ◌^◌, Bool, true, false, not, ◌&&◌, Option, none, some, ◌==◌, ltb, leb,
  if◌then◌else◌, add32, sub32,
}

-- `jlos_net_sk_buff_t`, less the fields that only its users read; `data` is `data_pos`.
pub record SkBuff : Type 0 where
  pub head : ℕ
  pub data_pos : ℕ
  pub tail : ℕ
  pub end : ℕ
  pub data_len : ℕ
  pub data_flags : ℕ
  pub data_pages : ℕ
  pub refcount : ℕ

-- `jlos_net_skb_data_alloc`: the flags and the number of pages, in 8 bits, of a block of `size` bytes.
-- A page has 4096 bytes.
unfoldable pub data_alloc : ℕ → ℕ × ℕ
data_alloc size = if leb size 2048 then (0, 0) else (1, (size + 4095) / 4096 % 2 ^ 8)

-- `jlos_net_skb_alloc`, with the address of the block, where both allocators serve.
unfoldable pub alloc : Option ℕ → ℕ → Option SkBuff
unfolding data_alloc
alloc none size = none
alloc (some block) size = some (record {
  head = block;
  data_pos = block;
  tail = block;
  end = add32 block size;
  data_len = size;
  data_flags = (data_alloc size).0;
  data_pages = (data_alloc size).1;
  refcount = 1;
})

-- `jlos_net_skb_get` and `jlos_net_skb_free`: whether the block is given back.
unfoldable pub get : SkBuff → SkBuff
get skb = record skb { refcount = add32 skb.refcount 1 }

unfoldable pub free : SkBuff → SkBuff × Bool
free skb =
    let left = sub32 skb.refcount 1 in
    (record skb { refcount = left }, not (ltb 0 left && ltb left (2 ^ 31)))

unfoldable pub reserve : SkBuff → ℕ → SkBuff
reserve skb len = record skb { data_pos = add32 skb.data_pos len; tail = add32 skb.tail len }

unfoldable pub push : SkBuff → ℕ → SkBuff
push skb len = record skb { data_pos = sub32 skb.data_pos len }

unfoldable pub pull : SkBuff → ℕ → SkBuff
pull skb len = record skb { data_pos = add32 skb.data_pos len }

-- The address behind the old bytes, and the buffer that is longer.
unfoldable pub put : SkBuff → ℕ → ℕ × SkBuff
put skb len = (skb.tail, record skb { tail = add32 skb.tail len })

-- `jlos_net_skb_len`.
unfoldable pub len : SkBuff → ℕ
len skb = sub32 skb.tail skb.data_pos
