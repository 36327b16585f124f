-- ===== src/Kernel/Syscall/Tests.antt =====
-- The theorem on `mmap` of `kernel/syscall.c` at a heap of one page.
use johnbeauty_os.Prelude.{ℕ, ◌^◌, ◌⊎◌, refl, Bool, true, none, [], ◌∷◌, arith}
use johnbeauty_os.Kernel.Vma.{brk, Vma, Mm, page_align_up}
use johnbeauty_os.Kernel.Vma.Layout.{IsLayout}
use johnbeauty_os.Kernel.Syscall.{MmapArgs, mmap_in}
use johnbeauty_os.Kernel.Syscall.Mapping.{IsFull, IsMapped, mmap_in-IsMapped}

abbrev one_page : Mm
one_page = record {
  pc = true;
  tree =
      record { start = 4096; end = 8192; flags = 10; vma_type = brk; file = none; offset = 0 } ∷ [];
  brk_start = 4096;
  brk_end = 8192;
  brk_limit = 12288;
  refcount = 1;
}

abbrev anonymous : MmapArgs
anonymous = record { addr = 0; len = 5000; prot = 3; flags = 34 }

abbrev always : Vma → Bool
always _ = true

abbrev accessible : ℕ → ℕ → Bool
accessible _ _ = true

one_page-IsLayout : IsLayout 0 one_page.tree 4294963200
one_page-IsLayout = (omega arith, (omega arith, refl, refl), omega arith)

mmap_in-IsMapped_example :
    let len = page_align_up (2 ^ 32) 5000 in
    let (r, mm') = mmap_in accessible always (2 ^ 32) anonymous one_page in
    IsFull len r one_page mm' ⊎ IsMapped (2 ^ 32) 4294963200 3 len r one_page mm'
mmap_in-IsMapped_example =
    mmap_in-IsMapped accessible always (2 ^ 32) 4294963200 one_page anonymous (λ v. refl)
      one_page-IsLayout (omega arith) (omega arith) (omega arith) (omega arith) (omega arith)
      (omega arith) refl refl
