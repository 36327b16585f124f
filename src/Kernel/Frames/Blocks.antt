-- ===== src/Kernel/Frames/Blocks.antt =====
-- The free blocks of the buddy allocator, and what keeps its lists, orders and mask together.
use johnbeauty_os.Prelude.{
  ℕ, ◌+◌, ◌^◌, ◌≤◌, ◌<◌, ◌≡◌, Bool, true, false, not, ◌&&◌, ◌==◌, ltb, if◌then◌else◌,
}
use johnbeauty_os.Prelude.Members.{has, Distinct}
use johnbeauty_os.Prelude.Digits.{digit}
use johnbeauty_os.Prelude.Align.{Aligned}
use johnbeauty_os.Kernel.Frames.{Pfa, invalid, is_empty}

-- A free block of this order begins here.
abbrev pub is_head : Pfa → ℕ → ℕ → Bool
is_head pfa f o = ltb f pfa.total_frames && ((pfa.pages f).order == o && not (pfa.pages f).occupied)

-- The frame lies in a free block.
pub record FreeAt (pfa : Pfa) (x : ℕ) : Type 0 where
  pub block : ℕ
  pub order : ℕ
  pub small : order ≤ 10
  pub head : is_head pfa block order ≡ true
  pub low : block ≤ x
  pub high : x < block + 2 ^ order

pub record IsPfa (pfa : Pfa) : Type 0 where
  pub size : pfa.total_frames ≤ 2 ^ 20
  pub lists : (f o : ℕ) → o ≤ 10 → has f (pfa.free_area o) ≡ is_head pfa f o
  pub once : (o : ℕ) → o ≤ 10 → Distinct (pfa.free_area o)
  pub aligned : (f o : ℕ) → o ≤ 10 → is_head pfa f o ≡ true → Aligned f o
  pub fits : (f o : ℕ) → o ≤ 10 → is_head pfa f o ≡ true → f + 2 ^ o ≤ pfa.total_frames
  pub apart :
      (f o g p : ℕ)
      → o ≤ 10
      → p ≤ 10
      → is_head pfa f o ≡ true
      → is_head pfa g p ≡ true
      → f < g
      → f + 2 ^ o ≤ g
  pub inner :
      (f o x : ℕ)
      → o ≤ 10
      → is_head pfa f o ≡ true
      → f < x
      → x < f + 2 ^ o
      → ((pfa.pages x).order ≡ invalid) × ((pfa.pages x).occupied ≡ false)
  pub mask :
      (o : ℕ)
      → o ≤ 10
      → digit pfa.free_order_bitmap o ≡ (if is_empty (pfa.free_area o) then 0 else 1)
  pub mask_high : (o : ℕ) → 10 < o → digit pfa.free_order_bitmap o ≡ 0
  pub mask_word : pfa.free_order_bitmap < 2 ^ 32

-- A block that is in no list, all pages of which are as the allocator wants them.
pub record IsLoose (pfa : Pfa) (frame order : ℕ) : Type 0 where
  pub small : order ≤ 10
  pub aligned : Aligned frame order
  pub fits : frame + 2 ^ order ≤ pfa.total_frames
  pub loose :
      (x : ℕ)
      → frame ≤ x
      → x < frame + 2 ^ order
      → ((pfa.pages x).order ≡ invalid) × ((pfa.pages x).occupied ≡ false)
  pub apart : (x : ℕ) → frame ≤ x → x < frame + 2 ^ order → FreeAt pfa x → ⊥
