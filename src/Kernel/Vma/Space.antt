-- ===== src/Kernel/Vma/Space.antt =====
-- Address spaces made, shared, copied and destroyed, and pages mapped on demand: `jlos_mm_create` to
-- `jlos_mm_clone_user` and `jlos_vma_demand_map` of `kernel/vma.c`. The page frame allocator, the
-- slab caches and the paging are outside: their answers are arguments, the calls are listed.
use johnbeauty_os.Prelude.{
  ℕ, Bool, true, false, not, ◌&&◌, ◌||◌, Option, none, some, List, [], ◌∷◌, ◌==◌, if◌then◌else◌,
  add32, sub32,
}
use Prim.Native.Nat.{bit_and, bit_or}
use johnbeauty_os.Kernel.Vma.{Vma, Mm, page_align_down, rbtree_insert, find}

abbrev pub vma_write : ℕ
vma_write = 2

abbrev pub vma_cow : ℕ
vma_cow = 16

-- The pointer returned, where the caches have an address space and a paging context.
unfoldable pub mm_create : Bool → Bool → Option Mm
mm_create mm_room pc_room =
    if mm_room && pc_room
    then some
        (record { pc = true; tree = []; brk_start = 0; brk_end = 0; brk_limit = 0; refcount = 1 })
    else none

unfoldable pub mm_ref_inc : Mm → Mm
mm_ref_inc mm = record mm { refcount = add32 mm.refcount 1 }

-- What is freed when the last reference goes: the regions in their order, and the tables.
pub data Freed : Type 0 where
  region : Vma → Freed
  tables : Freed
  space : Freed

unfoldable pub free_regions : List Vma → List Freed → List Freed
free_regions [] after = after
free_regions (v ∷ rest) after = region v ∷ free_regions rest after

-- The frees of one `jlos_mm_destroy`, and the space if it is still there.
unfoldable pub mm_destroy : Mm → List Freed × Option Mm
mm_destroy mm =
    let count = sub32 mm.refcount 1 in
    if not (count == 0)
    then ([], some (record mm { refcount = count }))
    else (free_regions mm.tree (if mm.pc then tables ∷ space ∷ [] else space ∷ []), none)

-- The loop of the copy, with the regions given to `jlos_paging_cow_range`; `room` is the slab cache.
unfoldable pub clone_nodes : (Vma → Bool) → List Vma → Mm → Bool × List Vma × Mm
clone_nodes room [] dst = (true, [], dst)
clone_nodes room (v ∷ rest) dst =
    let copy : Vma = record v { flags = bit_or v.flags vma_cow } in
    let done = clone_nodes room rest (record dst { tree = rbtree_insert copy dst.tree }) in
    if room v then (done.0, v ∷ done.1, done.2) else (false, [], dst)

unfoldable pub clone_user : (Vma → Bool) → Mm → Mm → Bool × List Vma × Mm
clone_user room dst src =
    let sized : Mm = record dst {
      brk_start = src.brk_start;
      brk_end = src.brk_end;
      brk_limit = src.brk_limit;
    } in
    if not dst.pc || not src.pc then (false, [], dst) else clone_nodes room src.tree sized

-- The calls of the page frame allocator and the paging.
pub data Call : Type 0 where
  zeroed : ℕ → Call
  mapped : ℕ → ℕ → Bool → Call
  freed : ℕ → Call

-- A frame of the allocator, if it has one, is zeroed and mapped; `writable` is `JLOS_PG_USER_RW`.
unfoldable pub map_frame : (ℕ → ℕ → Bool → Bool) → Option ℕ → ℕ → Bool → Bool × List Call
map_frame maps none page writable = (false, [])
map_frame maps (some frame) page writable =
    if maps page frame writable
    then (true, zeroed frame ∷ mapped page frame writable ∷ [])
    else (false, zeroed frame ∷ mapped page frame writable ∷ freed frame ∷ [])

unfoldable pub demand_map : (ℕ → ℕ → Bool → Bool) → Option ℕ → Mm → ℕ → Bool × List Call
demand_map maps frame mm fault_addr = if not mm.pc then (false, []) else elim (find mm fault_addr) [
  | none ↦ (false, [])
  | some v ↦
      map_frame maps frame (page_align_down fault_addr) (not (bit_and v.flags vma_write == 0))
]
