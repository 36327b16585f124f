-- ===== src/Kernel/Frames/Ranges.antt =====
-- Ranges of frames, `kernel/page_frame_allocator.c`: `jlos_page_frame_alloc_n`, and `buddy_free_range`, by
-- which it gives back what a block has beyond the frames asked for. Addresses are physical, since `PHYS_TO_VIRT` adds a constant.
pub mod Changed
pub mod Given
pub mod Back
pub mod Orders
pub mod Marked
pub mod Taken
use Prim.Native.Nat.{bit_and}
use johnbeauty_os.Prelude.{
  ℕ, zero, suc, ◌+◌, ◌-◌, ◌*◌, ◌/◌, ◌%◌, ◌^◌, true, false, ◌&&◌, ◌||◌, Option, none, some, List, [],
  ◌∷◌, ◌==◌, ltb, leb, if◌then◌else◌, add32, sub32, mul32,
}
use johnbeauty_os.Dsa.Bitmap.{trailing_zeros}
use johnbeauty_os.Kernel.Frames.{
  Page, Pfa, invalid, max_order, on_page, ◌>>=◌, order_to_frames, frames_to_order, buddy_remove,
  split, buddy_free_nolock,
}

abbrev pub page_frame_size : ℕ
page_frame_size = 4096

-- A step on each of `n` frames in turn.
unfoldable pub for_frames : ℕ → (Pfa → ℕ → Pfa) → Pfa → ℕ → Pfa
for_frames zero step pfa frame = pfa
for_frames (suc n) step pfa frame = for_frames n step (step pfa frame) (suc frame)

abbrev pub reserved_page : Page → Page
reserved_page pg = record pg {
  occupied = true;
  refcount = 1;
  order = invalid;
  type = 0;
  pt_present_count = 0;
}

unfoldable pub mark_reserve : Pfa → ℕ → Pfa
mark_reserve pfa frame = if leb pfa.total_frames frame then pfa else on_page pfa frame reserved_page

abbrev pub cleared_page : Page → Page
cleared_page pg = record pg { occupied = false; order = invalid; type = 0; pt_present_count = 0 }

abbrev pub clear_page : Pfa → ℕ → Pfa
clear_page pfa frame = on_page pfa frame cleared_page

-- The order of the largest block that begins at `base` and has at most `len` frames.
unfoldable pub largest_order : ℕ → ℕ → ℕ → ℕ → ℕ
largest_order zero base len order = order
largest_order (suc rounds) base len order =
    let more = largest_order rounds base len (suc order) in
    if leb (order_to_frames (suc order)) len && bit_and base (order_to_frames (suc order) - 1) == 0
    then more
    else order

-- The loop has at most as many rounds as there are frames.
unfoldable pub range_from : ℕ → Pfa → ℕ → ℕ → Option Pfa
range_from zero pfa base len = some pfa
range_from (suc rounds) pfa base len =
    let order = largest_order 32 base len 0 in
    let block = order_to_frames order in
    let freed = buddy_free_nolock (for_frames block clear_page pfa base) base order >>= λ p.
    range_from rounds p (base + block) (len - block) in
    if len == 0 then some pfa else freed

unfoldable pub buddy_free_range : Pfa → ℕ → ℕ → Option Pfa
buddy_free_range pfa base len = range_from len pfa base len

-- `~0U << order`.
abbrev pub orders_from : ℕ → ℕ
orders_from order = mul32 (2 ^ 32 - 1) (2 ^ order)

-- `s_free_area[order].next`, of a list that the mask says is not empty.
abbrev pub first : List ℕ → Option ℕ
first [] = none
first (frame ∷ rest) = some frame

abbrev pub frame_to_phys : Pfa → ℕ → ℕ
frame_to_phys pfa frame = add32 pfa.start_addr (mul32 frame page_frame_size)

-- What is left of the block behind the frames asked for.
abbrev pub give_back : Pfa → ℕ → ℕ → Option Pfa
give_back pfa base extra = if extra == 0 then some pfa else buddy_free_range pfa base extra

abbrev pub split_if : Pfa → ℕ → ℕ → ℕ → Option Pfa
split_if pfa frame order target =
    if ltb target order then split (order - target) pfa frame target else some pfa

-- The frames are the caller's.
unfoldable pub handed_out : Pfa → ℕ → ℕ → ℕ → Pfa
handed_out pfa frame num target =
    let p =
      on_page (for_frames num mark_reserve pfa frame) frame
        (λ pg. record pg { order = target % 2 ^ 8 }) in
    record p { free_frames = sub32 p.free_frames num }

unfoldable pub take_block : Pfa → ℕ → ℕ → ℕ → Option (Option ℕ × Pfa)
take_block pfa num target order = first (pfa.free_area order) >>= λ frame.
    buddy_remove pfa frame order >>= λ p. split_if p frame order target >>= λ q.
    give_back q (frame + num) (order_to_frames target - num) >>= λ r.
    some (some (frame_to_phys r frame), handed_out r frame num target)

unfoldable pub alloc_n : Pfa → ℕ → Option (Option ℕ × Pfa)
alloc_n pfa num =
    let target = frames_to_order num in
    let masked = bit_and pfa.free_order_bitmap (orders_from target) in
    if num == 0 || ltb pfa.total_frames num
    then some (none, pfa)
    else if masked == 0
    then some (none, pfa)
    else take_block pfa num target (trailing_zeros 32 masked)

unfoldable pub alloc_order : Pfa → ℕ → Option (Option ℕ × Pfa)
alloc_order pfa order =
    if ltb max_order order then some (none, pfa) else alloc_n pfa (order_to_frames order)

unfoldable pub phys_to_frame : Pfa → ℕ → ℕ
phys_to_frame pfa p = sub32 p pfa.start_addr / page_frame_size
