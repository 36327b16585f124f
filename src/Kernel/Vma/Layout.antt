-- ===== src/Kernel/Vma/Layout.antt =====
-- What the tree of an address space of `kernel/vma.c` promises: regions of whole pages in ascending
-- order that do not overlap, and the use they give to each address.
use johnbeauty_os.Prelude.{
  ℕ, ◌+◌, ◌-◌, ◌%◌, ◌≤◌, ◌<◌, ◌≡◌, refl, ◌∙◌, Bool, false, ◌&&◌, Option, none, some, List, [], ◌∷◌,
  ltb, leb, if◌then◌else◌, arith, if_false, if_intro,
}
use johnbeauty_os.Kernel.Vma.{VmaType, Vma, page_size, page_align_up, rbtree_insert}

pub IsPage : ℕ → Type 0
IsPage a = a % page_size ≡ 0

abbrev pub IsRegion : Vma → Type 0
IsRegion v = (v.start < v.end) × (v.start % page_size ≡ 0) × (v.end % page_size ≡ 0)

-- Regions of whole pages, one behind the other, from `lo` to `hi` at most.
abbrev pub IsLayout : ℕ → List Vma → ℕ → Type 0
IsLayout lo [] hi = lo ≤ hi
IsLayout lo (v ∷ rest) hi = (lo ≤ v.start) × IsRegion v × IsLayout v.end rest hi

abbrev pub covers : Vma → ℕ → Bool
covers v x = leb v.start x && ltb x v.end

abbrev pub within : ℕ → ℕ → ℕ → Bool
within lo hi x = leb lo x && ltb x hi

-- What an address is used for: the flags and the type of the region that covers it.
abbrev pub uses : Vma → ℕ × VmaType
uses v = (v.flags, v.vma_type)

abbrev pub use_at : List Vma → ℕ → Option (ℕ × VmaType)
use_at [] x = none
use_at (v ∷ rest) x = if covers v x then some (uses v) else use_at rest x

pub page_align_up_lem :
    (size a : ℕ) → a % page_size ≡ 0 → a + page_size ≤ size → page_align_up size a ≡ a
unfolding page_align_up
page_align_up_lem size a page room =
    let small : (a + page_size - 1) % size ≡ a + page_size - 1 = grind arith in
    rw small (omega arith)

pub page_align_up_bounds :
    (size a : ℕ)
    → a + page_size ≤ size
    → let u = page_align_up size a in (a ≤ u) × (u < a + page_size) × (u % page_size ≡ 0)
unfolding page_align_up
page_align_up_bounds size a room =
    let small : (a + page_size - 1) % size ≡ a + page_size - 1 = grind arith in
    rw small (omega arith, omega arith, omega arith)

-- Nothing is used below the first region, nor above the last.
pub use_at-below :
    (lo : ℕ) (tree : List Vma) (hi x : ℕ) → IsLayout lo tree hi → x < lo → use_at tree x ≡ none
use_at-below lo [] hi x l h = refl
use_at-below lo (v ∷ rest) hi x (a, b, l) h =
    if_false (covers v x) _ _ (ground arith) ∙ use_at-below v.end rest hi x l (omega arith)

pub IsLayout-weaken :
    (lo lo' : ℕ) (tree : List Vma) (hi : ℕ) → IsLayout lo tree hi → lo' ≤ lo → IsLayout lo' tree hi
IsLayout-weaken lo lo' [] hi l h = omega arith
IsLayout-weaken lo lo' (v ∷ rest) hi l h = (omega (arith, l.0), l.1, l.2)

pub IsLayout-bounds : (lo : ℕ) (tree : List Vma) (hi : ℕ) → IsLayout lo tree hi → lo ≤ hi
IsLayout-bounds lo [] hi l = l
IsLayout-bounds lo (v ∷ rest) hi (a, b, l) = omega (arith, IsLayout-bounds v.end rest hi l)

-- No region uses an address from `lo` to below `hi`.
abbrev pub IsUnused : ℕ → ℕ → List Vma → Type 0
IsUnused lo hi tree = (x : ℕ) → lo ≤ x → x < hi → use_at tree x ≡ none

abbrev IsApart : ℕ → ℕ → Vma → Type 0
IsApart lo hi v = (x : ℕ) → lo ≤ x → x < hi → covers v x ≡ false

IsUnused-head :
    (lo hi : ℕ) (v : Vma) (rest : List Vma) → IsUnused lo hi (v ∷ rest) → IsApart lo hi v
IsUnused-head lo hi v rest h x p q = ground (arith, h x p q)

pub IsUnused-tail :
    (lo hi : ℕ) (v : Vma) (rest : List Vma) → IsUnused lo hi (v ∷ rest) → IsUnused lo hi rest
IsUnused-tail lo hi v rest h x p q = ground (arith, h x p q)

-- Two regions that share no address, the first of which starts first.
before :
    (z v : Vma)
    → IsRegion z
    → IsRegion v
    → z.start ≤ v.start
    → IsApart z.start z.end v
    → z.end ≤ v.start
before z v z_ok v_ok le apart = ground (arith, apart v.start)

behind :
    (z v : Vma)
    → IsRegion z
    → IsRegion v
    → v.start ≤ z.start
    → IsApart z.start z.end v
    → v.end ≤ z.start
behind z v z_ok v_ok le apart = ground (arith, apart z.start)

-- A region of whole pages that nothing used is added.
pub rbtree_insert-IsLayout :
    (z : Vma) (lo : ℕ) (tree : List Vma) (hi : ℕ)
    → IsLayout lo tree hi
    → IsRegion z
    → lo ≤ z.start
    → z.end ≤ hi
    → IsUnused z.start z.end tree
    → IsLayout lo (rbtree_insert z tree) hi
unfolding rbtree_insert
rbtree_insert-IsLayout z lo [] hi l ok a e free = (a, ok, e)
rbtree_insert-IsLayout z lo (v ∷ rest) hi (b, v_ok, l) ok a e free =
    let apart = IsUnused-head z.start z.end v rest free in
    if_intro (λ t. IsLayout lo t hi) (ltb z.start v.start) _ _
      (λ s. (a, ok, (before z v ok v_ok (ground arith) apart, v_ok, l)))
      (λ s. (
        b,
        v_ok,
        rbtree_insert-IsLayout z v.end rest hi l ok (behind z v ok v_ok (ground arith) apart) e
            (IsUnused-tail z.start z.end v rest free),
      ))

-- It is then what uses its addresses, and the uses of the others are kept.
pub use_at-rbtree_insert :
    (z : Vma) (tree : List Vma) (x : ℕ)
    → IsUnused z.start z.end tree
    → use_at (rbtree_insert z tree) x ≡ (if covers z x then some (uses z) else use_at tree x)
unfolding rbtree_insert
use_at-rbtree_insert z [] x free = refl
use_at-rbtree_insert z (v ∷ rest) x free =
    let next = use_at-rbtree_insert z rest x (IsUnused-tail z.start z.end v rest free) in
    let apart = IsUnused-head z.start z.end v rest free in ground (arith, next, apart x)
