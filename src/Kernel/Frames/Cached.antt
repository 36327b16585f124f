-- ===== src/Kernel/Frames/Cached.antt =====
-- Single frames, `kernel/page_frame_allocator.c`: `jlos_page_frame_malloc` and the reference counts, with
-- the frames that each processor keeps for itself. Interrupts are off, so that a call is one step; the
-- atomic exchanges succeed at once.
pub mod Spare
pub mod Moved
pub mod Refill
pub mod Malloc
pub mod Drain
pub mod Touched
pub mod Release
use johnbeauty_os.Prelude.{
  ℕ, zero, suc, ◌+◌, ◌-◌, ◌*◌, ◌/◌, ◌%◌, ◌^◌, true, false, not, ◌&&◌, ◌||◌, Option, none, some,
  List, [], ◌∷◌, ◌==◌, ltb, leb, if◌then◌else◌, add32, sub32,
}
use johnbeauty_os.Dsa.Bitmap.{trailing_zeros}
use johnbeauty_os.Kernel.Frames.{
  PerCpu, Pfa, invalid, put_at, on_page, ◌>>=◌, buddy_remove, split, buddy_free_nolock,
}
use johnbeauty_os.Kernel.Frames.Ranges.{first, frame_to_phys, phys_to_frame}

-- `JLOS_PFA_PERCPU_HIGN`.
abbrev pub percpu_high : ℕ
percpu_high = 16

abbrev pub percpu_batch : ℕ
percpu_batch = 8

abbrev pub refcount_max : ℕ
refcount_max = 255

abbrev pub pushed : ℕ → PerCpu → PerCpu
pushed frame pc = record { free_list = frame ∷ pc.free_list; count = add32 pc.count 1 }

abbrev pub cache_of : Pfa → ℕ → PerCpu → Pfa
cache_of pfa cpu pc = record pfa { percpu = put_at pfa.percpu cpu pc }

unfoldable pub into_cache : Pfa → ℕ → ℕ → Pfa
into_cache pfa cpu frame =
    let p =
      on_page pfa frame
        (λ pg. record pg { occupied = false; type = 0; order = invalid; refcount = 0 }) in
    record (cache_of p cpu (pushed frame (pfa.percpu cpu))) {
      free_frames = sub32 pfa.free_frames 1;
    }

-- One round of the loop of `percpu_refill`.
unfoldable pub refill_one : Pfa → ℕ → Option Pfa
refill_one pfa cpu =
    let order = trailing_zeros 32 pfa.free_order_bitmap in
    first (pfa.free_area order) >>= λ frame. buddy_remove pfa frame order >>= λ p.
    split order p frame 0 >>= λ q. some (into_cache q cpu frame)

unfoldable pub refill_from : ℕ → Pfa → ℕ → Option Pfa
refill_from zero pfa cpu = some pfa
refill_from (suc n) pfa cpu =
    let more = refill_one pfa cpu >>= λ p. refill_from n p cpu in
    if not (ltb (pfa.percpu cpu).count percpu_batch)
    then some pfa
    else if pfa.free_order_bitmap == 0
    then some pfa
    else more

-- Each round counts one frame, so that there are at most `percpu_batch` of them.
unfoldable pub percpu_refill : Pfa → ℕ → Option Pfa
percpu_refill pfa cpu = refill_from percpu_batch pfa cpu

-- The first frame of the cache, which is not empty.
unfoldable pub pop_cached : Pfa → ℕ → List ℕ → Option (ℕ × Pfa)
pop_cached pfa cpu [] = none
pop_cached pfa cpu (frame ∷ rest) =
    some (
      frame,
      cache_of pfa cpu (record { free_list = rest; count = sub32 (pfa.percpu cpu).count 1 }),
    )

unfoldable pub drain_from : ℕ → Pfa → ℕ → Option Pfa
drain_from zero pfa cpu = some pfa
drain_from (suc n) pfa cpu = pop_cached pfa cpu (pfa.percpu cpu).free_list >>= λ (frame, p).
    buddy_free_nolock p frame 0 >>= λ q. drain_from n q cpu

unfoldable pub percpu_drain : Pfa → ℕ → Option Pfa
percpu_drain pfa cpu =
    let count = (pfa.percpu cpu).count in
    drain_from (if ltb count percpu_batch then count else percpu_batch) pfa cpu

unfoldable pub serve : Pfa → ℕ → Option (Option ℕ × Pfa)
serve pfa cpu = pop_cached pfa cpu (pfa.percpu cpu).free_list >>= λ (frame, p). some (
  some (frame_to_phys p frame),
  on_page p frame (λ pg. record pg { occupied = true; refcount = 1 }),
)

unfoldable pub malloc : Pfa → ℕ → Option (Option ℕ × Pfa)
malloc pfa cpu = (if (pfa.percpu cpu).count == 0 then percpu_refill pfa cpu else some pfa) >>= λ p.
    if ltb 0 (p.percpu cpu).count then serve p cpu else some (none, p)

abbrev pub drain_if_high : Pfa → ℕ → Option Pfa
drain_if_high pfa cpu =
    if ltb percpu_high (pfa.percpu cpu).count then percpu_drain pfa cpu else some pfa

-- The last reference to a frame is gone.
unfoldable pub released : Pfa → ℕ → ℕ → Option Pfa
released pfa cpu frame =
    let p = on_page pfa frame (λ pg. record pg {
      occupied = false;
      order = invalid;
      type = 0;
      pt_present_count = 0;
      refcount = 0;
    }) in
    drain_if_high (cache_of p cpu (pushed frame (pfa.percpu cpu))) cpu

unfoldable pub refcount_dec : Pfa → ℕ → ℕ → Option Pfa
refcount_dec pfa cpu phys =
    let frame = phys_to_frame pfa phys in
    let old = (pfa.pages frame).refcount in
    let p = on_page pfa frame (λ pg. record pg { refcount = old - 1 }) in
    if leb pfa.total_frames frame
    then some pfa
    else if old == 0
    then none
    else if old == 1
    then released p cpu frame
    else some p

unfoldable pub page_frame_free : Pfa → ℕ → ℕ → Option Pfa
page_frame_free pfa cpu phys = refcount_dec pfa cpu phys

unfoldable pub refcount_inc : Pfa → ℕ → Option Pfa
refcount_inc pfa phys =
    let frame = phys_to_frame pfa phys in
    let old = (pfa.pages frame).refcount in
    if leb pfa.total_frames frame
    then some pfa
    else if ltb 0 old && ltb old refcount_max
    then some (on_page pfa frame (λ pg. record pg { refcount = old + 1 }))
    else none

unfoldable pub refcount_get : Pfa → ℕ → ℕ
refcount_get pfa phys =
    let frame = phys_to_frame pfa phys in
    if leb pfa.total_frames frame then 0 else (pfa.pages frame).refcount % 2 ^ 8
