-- ===== src/Net/Skbuff/Room.antt =====
-- The room of a socket buffer of `net/skbuff.c` while the layers fill and read it.
use johnbeauty_os.Prelude.{ℕ, ◌+◌, ◌^◌, ◌≤◌, ◌<◌, ◌≡◌, sym, ap, Option, some, none, arith, add32}
use johnbeauty_os.Net.Skbuff.{SkBuff, alloc, reserve, put, push, pull, len}

-- The bytes between `data` and `tail` lie in the block.
pub record IsInBlock (skb : SkBuff) : Type 0 where
  pub front : skb.head ≤ skb.data_pos
  pub order : skb.data_pos ≤ skb.tail
  pub back : skb.tail ≤ skb.end
  pub word : skb.end < 2 ^ 32

field_of : {A : Type 0} (g : SkBuff → A) (d : A) → Option SkBuff → A
field_of g d none = d
field_of g d (some skb) = g skb

allocated :
    (block size : ℕ) (skb : SkBuff)
    → alloc (some block) size ≡ some skb
    → (skb.head ≡ block)
      × (skb.data_pos ≡ block)
      × (skb.tail ≡ block)
      × (skb.end ≡ add32 block size)
unfolding alloc field_of
allocated block size skb e = (
  sym (ap (field_of (λ s. s.head) 0) e),
  sym (ap (field_of (λ s. s.data_pos) 0) e),
  sym (ap (field_of (λ s. s.tail) 0) e),
  sym (ap (field_of (λ s. s.end) 0) e),
)

-- A buffer allocated below 2 ^ 32 for `headers` and `payload` bytes, with the headers reserved,
-- the payload put and one header of at most the reserved bytes pushed, holds the header and the
-- payload inside its block; the header begins right before the payload, and pulling it leaves the
-- payload.
pub headers_fit :
    (block headers payload header : ℕ) (skb : SkBuff)
    → alloc (some block) (payload + headers) ≡ some skb
    → header ≤ headers
    → block + payload + headers < 2 ^ 32
    → let (start, filled) = put (reserve skb headers) payload in
      let whole = push filled header in
      IsInBlock whole
      × (len whole ≡ header + payload)
      × (whole.data_pos + header ≡ start)
      × (len (pull whole header) ≡ payload)
unfolding put reserve push len pull
headers_fit block headers payload header skb served le room =
    let (h, d, t, e) = allocated block (payload + headers) skb served in
    (
      record {
        front = omega (arith, h, d, t, e);
        order = omega (arith, h, d, t, e);
        back = omega (arith, h, d, t, e);
        word = omega (arith, h, d, t, e);
      },
      omega (arith, h, d, t, e),
      omega (arith, h, d, t, e),
      omega (arith, h, d, t, e),
    )
