-- ===== src/Kernel/Frames/Bulk.antt =====
-- A number of frames freed together, `jlos_page_frame_free_n` of `kernel/page_frame_allocator.c`: the
-- frames that lose their last reference are collected, sorted, and given back in runs.
pub mod Runs
pub mod Dropped
pub mod Freed
pub mod Returned
use johnbeauty_os.Prelude.{
  ℕ, zero, suc, ◌+◌, ◌-◌, Bool, not, ◌&&◌, Option, none, some, List, [], ◌∷◌, ◌++◌, length, ◌==◌,
  ltb, leb, if◌then◌else◌, add32, mul32,
}
use johnbeauty_os.Kernel.Frames.{
  Page, Pfa, invalid, max_order, on_page, ◌>>=◌, order_to_frames, is_empty,
}
use johnbeauty_os.Kernel.Frames.Ranges.{page_frame_size, phys_to_frame, buddy_free_range}

-- `JLOS_PFA_FREE_N_MAX`.
abbrev pub free_n_max : ℕ
free_n_max = 1024

abbrev pub one_less : Page → Page
one_less pg = record pg { refcount = pg.refcount - 1 }

-- One round of the loop over the frames: the list is `frames` up to `n`.
unfoldable pub drop_one : Pfa → ℕ → List ℕ → Option (List ℕ × Pfa)
drop_one pfa frame frames =
    let old = (pfa.pages frame).refcount in
    let p = on_page pfa frame one_less in
    if leb pfa.total_frames frame
    then some (frames, pfa)
    else if old == 0
    then none
    else if old == 1
    then (if length frames == free_n_max then none else some (frames ++ frame ∷ [], p))
    else some (frames, p)

unfoldable pub drop_refs : ℕ → Pfa → ℕ → ℕ → List ℕ → Option (List ℕ × Pfa)
drop_refs zero pfa phys i frames = some (frames, pfa)
drop_refs (suc n) pfa phys i frames =
    drop_one pfa (phys_to_frame pfa (add32 phys (mul32 i page_frame_size))) frames >>= λ (fs, p).
    drop_refs n p phys (suc i) fs

-- The frames that follow one another are given back together.
unfoldable pub free_runs : Pfa → ℕ → ℕ → List ℕ → Option Pfa
free_runs pfa start len [] = buddy_free_range pfa start len
free_runs pfa start len (frame ∷ frames) =
    let longer = free_runs pfa start (len + 1) frames in
    let apart = buddy_free_range pfa start len >>= λ p. free_runs p frame 1 frames in
    if frame == start + len then longer else apart

-- The inner loop of the sort: the frames in front of the place, the last one first, each moved up while
-- it is greater than `v`, which goes in the place that is left.
unfoldable pub shift_up : List ℕ → ℕ → List ℕ
shift_up [] v = v ∷ []
shift_up (f ∷ left) v = if ltb v f then f ∷ shift_up left v else v ∷ f ∷ left

-- The outer loop over the frames that are left.
unfoldable pub shift_all : List ℕ → List ℕ → List ℕ
shift_all left [] = left
shift_all left (v ∷ todo) = shift_all (shift_up left v) todo

-- The array in its order again.
unfoldable pub in_array : List ℕ → List ℕ → List ℕ
in_array [] right = right
in_array (f ∷ left) right = in_array left (f ∷ right)

unfoldable pub sort_frames : List ℕ → List ℕ
sort_frames frames = in_array (shift_all [] frames) []

abbrev pub free_sorted : Pfa → List ℕ → Option Pfa
free_sorted pfa [] = some pfa
free_sorted pfa (frame ∷ frames) = free_runs pfa frame 1 frames

-- More frames than the block that begins at `head` had are freed.
abbrev pub over_release : Pfa → ℕ → ℕ → Bool
over_release pfa head num =
    let order = (pfa.pages head).order in
    ltb head pfa.total_frames && (not (order == invalid) && ltb (order_to_frames order) num)

unfoldable pub free_dropped : Pfa → ℕ → ℕ → List ℕ → Option Pfa
free_dropped pfa head num frames =
    if is_empty frames
    then some pfa
    else if over_release pfa head num
    then none
    else free_sorted pfa (sort_frames frames)

unfoldable pub free_n : Pfa → ℕ → ℕ → Option Pfa
free_n pfa phys num = drop_refs num pfa phys 0 [] >>= λ (frames, p).
    free_dropped p (phys_to_frame pfa phys) num frames

unfoldable pub free_order : Pfa → ℕ → ℕ → Option Pfa
free_order pfa phys order =
    if ltb max_order order then some pfa else free_n pfa phys (order_to_frames order)
