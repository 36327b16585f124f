-- ===== src/Kernel/Frames/Setup.antt =====
-- The set-up of the free lists by `jlos_page_frame_allocator_init` of `kernel/page_frame_allocator.c`:
-- the pages at first, and the three loops after the frames in use are marked.
pub mod Paired
pub mod Levels
pub mod Inserted
pub mod Built
use Prim.Native.Nat.{bit_xor}
use johnbeauty_os.Prelude.{
  ℕ, zero, suc, ◌+◌, ◌*◌, ◌/◌, ◌%◌, ◌^◌, true, false, not, ◌&&◌, Option, some, List, [], ◌∷◌, ◌==◌,
  if◌then◌else◌, add32, sub32,
}
use johnbeauty_os.Kernel.Frames.{
  Pfa, invalid, max_order, ◌>>=◌, order_to_frames, min_frame, buddy_mergeable, buddy_insert,
  buddy_remove,
}
use johnbeauty_os.Kernel.Frames.Ranges.{page_frame_size}

-- The pages and lists as the first loops leave them.
unfoldable pub fresh : ℕ → ℕ → Pfa
fresh phys_start phys_end = record {
  start_addr = phys_start;
  total_frames = sub32 phys_end phys_start / page_frame_size;
  free_frames = 0;
  free_order_bitmap = 0;
  pages = λ f. record {
    occupied = false;
    type = 0;
    order = invalid;
    pt_present_count = 0;
    refcount = 0;
    owner = 0;
  };
  free_area = λ o. [];
  percpu = λ c. record { free_list = []; count = 0 };
}

-- The frames that are not in use, one by one.
unfoldable pub insert_frames : ℕ → Pfa → ℕ → Option Pfa
insert_frames zero pfa frame = some pfa
insert_frames (suc n) pfa frame =
    let pg = pfa.pages frame in
    (if not pg.occupied && pg.order == invalid then buddy_insert pfa frame 0 else some pfa) >>= λ p.
    insert_frames n p (suc frame)

unfoldable pub pair_up : Pfa → ℕ → ℕ → Option Pfa
pair_up pfa order frame =
    let buddy = bit_xor frame (order_to_frames order) in
    if not ((pfa.pages frame).order == order % 2 ^ 8)
    then some pfa
    else if not (buddy_mergeable pfa frame order)
    then some pfa
    else (buddy_remove pfa buddy order >>= λ p.
        buddy_remove p frame order >>= λ q. buddy_insert q (min_frame buddy frame) (suc order))

-- The pairs of blocks of this order, of which `n` are left.
unfoldable pub pair_level : ℕ → Pfa → ℕ → ℕ → Option Pfa
pair_level zero pfa order frame = some pfa
pair_level (suc n) pfa order frame =
    pair_up pfa order frame >>= λ p. pair_level n p order (frame + order_to_frames order * 2)

-- A level has a pair for each block of twice the size that fits.
unfoldable pub pair_levels : ℕ → Pfa → ℕ → Option Pfa
pair_levels zero pfa order = some pfa
pair_levels (suc n) pfa order =
    pair_level (pfa.total_frames / (order_to_frames order * 2)) pfa order 0 >>= λ p.
    pair_levels n p (suc order)

unfoldable pub count_blocks : List ℕ → ℕ → ℕ → ℕ
count_blocks [] order free = free
count_blocks (f ∷ fs) order free = count_blocks fs order (add32 free (order_to_frames order))

unfoldable pub count_orders : ℕ → Pfa → ℕ → ℕ → ℕ
count_orders zero pfa order free = free
count_orders (suc n) pfa order free =
    count_orders n pfa (suc order) (count_blocks (pfa.free_area order) order free)

unfoldable pub build_lists : Pfa → Option Pfa
build_lists pfa = insert_frames pfa.total_frames pfa 0 >>= λ p. pair_levels max_order p 0 >>= λ q.
    some (record q { free_frames = count_orders (suc max_order) q 0 0 })
