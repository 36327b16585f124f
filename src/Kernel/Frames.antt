-- ===== src/Kernel/Frames.antt =====
-- The buddy allocator of `kernel/page_frame_allocator.c`: the free blocks by their order, and the pages
-- as the frames that they describe. A frame is its number; what runs under `s_buddy_lock` is one step.
-- Of the flags of a page there is one, and the union of a page is its owner here, the links of a free
-- one being the lists. There is no result where the source halts.
pub mod Blocks
pub mod Linked
pub mod Unlinked
pub mod Steps
pub mod Merge
pub mod Split
pub mod Ranges
pub mod Cached
pub mod Bulk
pub mod Setup
mod Tests
use Prim.Native.Nat.{bit_and, bit_or, bit_xor}
use johnbeauty_os.Prelude.{
  ℕ, zero, suc, ◌+◌, ◌-◌, ◌*◌, ◌/◌, ◌%◌, ◌^◌, Bool, true, false, not, ◌&&◌, ◌||◌, Option, none,
  some, List, [], ◌∷◌, ◌==◌, ltb, leb, if◌then◌else◌, add32,
}
use johnbeauty_os.Prelude.Members.{has}
use johnbeauty_os.Dsa.List.{unlink}

abbrev pub max_order : ℕ
max_order = 10

-- `JLOS_PFA_BUDDY_ORDER_INVALID`.
abbrev pub invalid : ℕ
invalid = 0xFF

pub record Page : Type 0 where
  pub occupied : Bool
  pub type : ℕ
  pub order : ℕ
  pub pt_present_count : ℕ
  pub refcount : ℕ
  pub owner : ℕ

pub record PerCpu : Type 0 where
  pub free_list : List ℕ
  pub count : ℕ

pub record Pfa : Type 0 where
  pub start_addr : ℕ
  pub total_frames : ℕ
  pub free_frames : ℕ
  pub free_order_bitmap : ℕ
  pub pages : ℕ → Page
  pub free_area : ℕ → List ℕ
  pub percpu : ℕ → PerCpu

abbrev pub put_at {ℓ} : {A : Type ℓ} → (ℕ → A) → ℕ → A → ℕ → A
put_at f i a k = if k == i then a else f k

abbrev pub on_page : Pfa → ℕ → (Page → Page) → Pfa
on_page pfa frame f = record pfa { pages = put_at pfa.pages frame (f (pfa.pages frame)) }

-- A chain of steps each of which may halt.
infixl 5 ◌>>=◌
abbrev pub ◌>>=◌ {ℓ κ} : {A : Type ℓ} {B : Type κ} → Option A → (A → Option B) → Option B
none >>= f = none
some a >>= f = f a

abbrev pub order_to_frames : ℕ → ℕ
order_to_frames order = 2 ^ order

-- The loop that counts the digits of `v`.
unfoldable pub order_of : ℕ → ℕ → ℕ
order_of zero v = 0
order_of (suc rounds) v = let rest = order_of rounds (v / 2) in if v == 0 then 0 else suc rest

unfoldable pub frames_to_order : ℕ → ℕ
frames_to_order n = if leb n 1 then 0 else order_of 32 (n - 1)

abbrev pub is_empty : List ℕ → Bool
is_empty [] = true
is_empty (f ∷ fs) = false

abbrev pub min_frame : ℕ → ℕ → ℕ
min_frame buddy frame = if ltb buddy frame then buddy else frame

unfoldable pub buddy_mergeable : Pfa → ℕ → ℕ → Bool
buddy_mergeable pfa frame order =
    let block = order_to_frames order in
    let buddy = bit_xor frame block in
    let page = pfa.pages buddy in
    if leb pfa.total_frames buddy
    then false
    else if ltb pfa.total_frames (add32 (min_frame buddy frame) (block * 2))
    then false
    else (page.order == order && not page.occupied)

-- The page at the head of the list of its order.
unfoldable pub linked : Pfa → ℕ → ℕ → Pfa
linked pfa frame order =
    let area = pfa.free_area order in
    on_page
      (record pfa {
        free_order_bitmap =
            if is_empty area
            then bit_or pfa.free_order_bitmap (order_to_frames order)
            else pfa.free_order_bitmap;
        free_area = put_at pfa.free_area order (frame ∷ area);
      })
      frame (λ pg. record pg { order = order % 2 ^ 8 })

abbrev pub out_of_bounds : Pfa → ℕ → ℕ → Bool
out_of_bounds pfa frame order =
    leb pfa.total_frames frame || ltb pfa.total_frames (add32 frame (order_to_frames order))

unfoldable pub buddy_insert : Pfa → ℕ → ℕ → Option Pfa
buddy_insert pfa frame order =
    let pg = pfa.pages frame in
    if out_of_bounds pfa frame order
    then none
    else if not (bit_and frame (order_to_frames order - 1) == 0)
    then none
    else if pg.occupied
    then none
    else if not (pg.order == invalid) && not (pg.order == order)
    then none
    else some (linked pfa frame order)

unfoldable pub unlinked : Pfa → ℕ → ℕ → Pfa
unlinked pfa frame order =
    let area = unlink frame (pfa.free_area order) in
    on_page
      (record pfa {
        free_order_bitmap =
            if is_empty area
            then bit_and pfa.free_order_bitmap (2 ^ 32 - 1 - order_to_frames order)
            else pfa.free_order_bitmap;
        free_area = put_at pfa.free_area order area;
      })
      frame (λ pg. record pg { order = invalid })

-- A page whose links are its own is in no list.
abbrev pub bad : Pfa → ℕ → ℕ → Bool
bad pfa frame order =
    let pg = pfa.pages frame in
    not (pg.order == order % 2 ^ 8) || pg.order == invalid || not (has frame (pfa.free_area order))

unfoldable pub buddy_remove : Pfa → ℕ → ℕ → Option Pfa
buddy_remove pfa frame order =
    if out_of_bounds pfa frame order
    then none
    else if bad pfa frame order
    then none
    else some (unlinked pfa frame order)

-- The loop of `jlos_page_frame_order_split`, which has `n` orders to go down to `target`.
unfoldable pub split : ℕ → Pfa → ℕ → ℕ → Option Pfa
split zero pfa frame target = some pfa
split (suc n) pfa frame target =
    buddy_insert pfa (bit_or frame (order_to_frames (target + n))) (target + n) >>= λ p.
    split n p frame target

-- The loop of `buddy_free_nolock`, which has `n` orders to go up.
unfoldable pub merge : ℕ → Pfa → ℕ → ℕ → Option Pfa
merge zero pfa frame order = buddy_insert pfa frame order
merge (suc n) pfa frame order =
    let buddy = bit_xor frame (order_to_frames order) in
    let merged =
      buddy_remove pfa buddy order >>= λ p. merge n p (min_frame buddy frame) (suc order) in
    if buddy_mergeable pfa frame order then merged else buddy_insert pfa frame order

unfoldable pub buddy_free_nolock : Pfa → ℕ → ℕ → Option Pfa
buddy_free_nolock pfa frame order = merge (max_order - order) pfa frame order >>= λ p.
    some (record p { free_frames = add32 p.free_frames (order_to_frames order) })
