-- ===== src/Kernel/Vma.antt =====
-- The regions of a user address space, `kernel/vma.c`. `tree` lists the nodes of the red-black tree in
-- its order, so that `rbtree_first` is the head and `rbtree_next` of a node is what follows it; a
-- cursor is the list from a node on, and the empty one is `nullptr`. `size` is the number of
-- addresses (2 ^ 32 or 2 ^ 64), where `uintptr_t` wraps. `room` says whether the slab cache has a
-- node; `pc` says whether the address space has a paging context, and the pages given to
-- `jlos_paging_unmap` are listed in the order of the calls.
pub mod Unmap
pub mod Gaps
pub mod Space
pub mod Layout
pub mod Cursor
pub mod Added
mod Copied
mod Tests
use johnbeauty_os.Prelude.{
  ℕ, zero, suc, ◌+◌, ◌-◌, ◌*◌, ◌/◌, ◌%◌, ◌≤◌, ◌<◌, Bool, true, false, not, ◌&&◌, ◌||◌, Option, none,
  some, List, [], ◌∷◌, ◌++◌, ltb, leb, ◌==◌, if◌then◌else◌,
}

pub data VmaType : Type 0 where
  anon : VmaType
  brk : VmaType
  stack : VmaType
  mapped_file : VmaType

unfoldable pub same_type : VmaType → VmaType → Bool
same_type anon anon = true
same_type brk brk = true
same_type stack stack = true
same_type mapped_file mapped_file = true
same_type _ _ = false

pub record Vma : Type 0 where
  pub start : ℕ
  pub end : ℕ
  pub flags : ℕ
  pub vma_type : VmaType
  pub file : Option ℕ
  pub offset : ℕ

pub record Mm : Type 0 where
  pub pc : Bool
  pub tree : List Vma
  pub brk_start : ℕ
  pub brk_end : ℕ
  pub brk_limit : ℕ
  pub refcount : ℕ

abbrev pub page_size : ℕ
page_size = 4096

abbrev pub page_align_down : ℕ → ℕ
page_align_down a = a / page_size * page_size

unfoldable pub page_align_up : ℕ → ℕ → ℕ
page_align_up size a = page_align_down ((a + page_size - 1) % size)

-- `cmp(z, x) < 0`, and `cmp(x, key) <= 0` for an address.
abbrev pub compare_lt : Vma → Vma → Bool
compare_lt a b = ltb a.start b.start

abbrev pub cmp_addr_le : Vma → ℕ → Bool
cmp_addr_le v addr = leb v.start addr

-- A node goes behind the nodes of its key.
unfoldable pub rbtree_insert : Vma → List Vma → List Vma
rbtree_insert z [] = z ∷ []
rbtree_insert z (x ∷ rest) = if compare_lt z x then z ∷ x ∷ rest else x ∷ rbtree_insert z rest

abbrev pub or_best : List Vma → List Vma → List Vma
or_best [] best = best
or_best (w ∷ rest) best = w ∷ rest

-- The last node whose start is at most the address.
unfoldable pub find_key_le : List Vma → ℕ → List Vma
find_key_le [] addr = []
find_key_le (v ∷ rest) addr =
    if cmp_addr_le v addr then or_best (find_key_le rest addr) (v ∷ rest) else []

abbrev pub found_at : List Vma → ℕ → Option Vma
found_at [] addr = none
found_at (v ∷ rest) addr = if ltb addr v.end then some v else none

unfoldable pub find : Mm → ℕ → Option Vma
find mm addr = found_at (find_key_le mm.tree addr) addr

unfoldable pub fresh : ℕ → ℕ → ℕ → ℕ → VmaType → Vma
fresh size start end flags vma_type = record {
  start = page_align_down start;
  end = page_align_up size end;
  flags = flags;
  vma_type = vma_type;
  file = none;
  offset = 0;
}

unfoldable pub add : (Vma → Bool) → ℕ → Mm → ℕ → ℕ → ℕ → VmaType → Option Vma × Mm
add room size mm start end flags vma_type =
    let v = fresh size start end flags vma_type in
    if leb end start || not (room v)
    then (none, mm)
    else (some v, record mm { tree = rbtree_insert v mm.tree })
