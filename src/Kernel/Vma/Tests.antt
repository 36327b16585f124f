-- ===== src/Kernel/Vma/Tests.antt =====
-- The theorems on the regions of `kernel/vma.c` at an address space of two regions.
use johnbeauty_os.Prelude.{
  ℕ, ◌%◌, ◌^◌, ◌≡◌, refl, Bool, true, ◌&&◌, none, [], ◌∷◌, arith, ◌==◌, if◌then◌else◌,
}
use mathlib.Core.Option
use johnbeauty_os.Prelude.Members.{has}
use johnbeauty_os.Kernel.Vma.{anon, brk, Vma, Mm, page_size, page_align_down, page_align_up, find}
use johnbeauty_os.Kernel.Vma.Unmap.{remove_range}
use johnbeauty_os.Kernel.Vma.Unmap.Range.{is_used, remove_range-use_at}
use johnbeauty_os.Kernel.Vma.Space.{clone_user}
use johnbeauty_os.Kernel.Vma.Copied.{copied_or, clone_user-use_at}
use johnbeauty_os.Kernel.Vma.Layout.{IsLayout, within, uses, use_at}
use johnbeauty_os.Kernel.Vma.Cursor.{find-use_at}

abbrev heap_region : Vma
heap_region = record {
  start = 4096;
  end = 8192;
  flags = 10;
  vma_type = brk;
  file = none;
  offset = 0;
}

abbrev mapped_region : Vma
mapped_region = record {
  start = 12288;
  end = 24576;
  flags = 9;
  vma_type = anon;
  file = none;
  offset = 0;
}

abbrev two_regions : Mm
two_regions = record {
  pc = true;
  tree = heap_region ∷ mapped_region ∷ [];
  brk_start = 4096;
  brk_end = 8192;
  brk_limit = 12288;
  refcount = 1;
}

abbrev empty_mm : Mm
empty_mm = record { pc = true; tree = []; brk_start = 0; brk_end = 0; brk_limit = 0; refcount = 1 }

two_regions-IsLayout : IsLayout 0 two_regions.tree 65536
two_regions-IsLayout =
    (omega arith, (omega arith, refl, refl), (omega arith, (omega arith, refl, refl), omega arith))

abbrev always : Vma → Bool
always _ = true

find-use_at_example : Option.map uses (find two_regions 16000) ≡ use_at two_regions.tree 16000
find-use_at_example = find-use_at two_regions 65536 16000 two_regions-IsLayout

-- The middle page of the second region goes, which cuts it in two.
remove_range-use_at_example :
    let s = page_align_down 16384 in
    let e = page_align_up (2 ^ 32) 20000 in
    let (ok, pages, mm') = remove_range always (2 ^ 32) two_regions 16384 20000 in
    (ok ≡ true)
    × IsLayout 0 mm'.tree 65536
    × ((x : ℕ) → use_at mm'.tree x ≡ (if within s e x then none else use_at two_regions.tree x))
    × ((p : ℕ) → has p pages ≡ ((p % page_size == 0) && within s e p && is_used two_regions.tree p))
remove_range-use_at_example =
    remove_range-use_at always (2 ^ 32) 65536 two_regions 16384 20000 (λ v. refl) refl
      two_regions-IsLayout (omega arith) (omega arith)

clone_user-use_at_example :
    let (done, shared, dst') = clone_user always empty_mm two_regions in
    (done ≡ true)
    × (shared ≡ two_regions.tree)
    × IsLayout 0 dst'.tree 65536
    × ((x : ℕ) → use_at dst'.tree x ≡ copied_or (use_at two_regions.tree x) none)
clone_user-use_at_example =
    clone_user-use_at always 65536 empty_mm two_regions (λ v. refl) refl refl refl
      two_regions-IsLayout
