-- ===== src/Kernel/Vma/Added.antt =====
-- A region added by `jlos_vma_add` of `kernel/vma.c` where no region uses an address.
use johnbeauty_os.Prelude.{
  ℕ, ◌+◌, ◌≤◌, ◌<◌, ◌%◌, ◌≡◌, refl, Bool, true, not, ◌||◌, none, some, leb, if◌then◌else◌, arith,
  if_false,
}
use johnbeauty_os.Kernel.Vma.{VmaType, Vma, Mm, page_size, page_align_down, fresh, add}
use johnbeauty_os.Kernel.Vma.Layout.{
  IsLayout, IsUnused, within, use_at, rbtree_insert-IsLayout, use_at-rbtree_insert,
  page_align_up_lem,
}

abbrev pub region : ℕ → ℕ → ℕ → VmaType → Vma
region a e flags t = record {
  start = a;
  end = e;
  flags = flags;
  vma_type = t;
  file = none;
  offset = 0;
}

fresh_lem :
    (size a e flags : ℕ) (t : VmaType)
    → a % page_size ≡ 0
    → e % page_size ≡ 0
    → e + page_size ≤ size
    → fresh size a e flags t ≡ region a e flags t
unfolding fresh
fresh_lem size a e flags t pa pe below =
    let down : page_align_down a ≡ a = omega arith in
    λ i. region (down i) (page_align_up_lem size e pe below i) flags t

-- A region of whole pages added to a layout, where no address of it was in use and the slab cache has
-- a node: the layout is kept, its addresses have its flags and type, and the others their use.
pub add-use_at :
    (room : Vma → Bool) (size hi : ℕ) (mm : Mm) (a e flags : ℕ) (t : VmaType)
    → ((v : Vma) → room v ≡ true)
    → IsLayout 0 mm.tree hi
    → a % page_size ≡ 0
    → e % page_size ≡ 0
    → a < e
    → e ≤ hi
    → hi + page_size ≤ size
    → IsUnused a e mm.tree
    → let (r, mm') = add room size mm a e flags t in
      (r ≡ some (region a e flags t))
      × IsLayout 0 mm'.tree hi
      × ((x : ℕ) → use_at mm'.tree x ≡ (if within a e x then some (flags, t) else use_at mm.tree x))
unfolding add
add-use_at room size hi mm a e flags t r l pa pe lt le below free =
    let z = region a e flags t in
    let same = fresh_lem size a e flags t pa pe (omega arith) in
    rw (same, if_false (leb e a || not (room z)) _ _ (ground (arith, r z)))
      (
        refl,
        rbtree_insert-IsLayout z 0 mm.tree hi l (lt, pa, pe) (omega arith) le free,
        λ x. use_at-rbtree_insert z mm.tree x free,
      )
