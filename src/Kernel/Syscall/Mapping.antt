-- ===== src/Kernel/Syscall/Mapping.antt =====
-- What `mmap` and `munmap` of `kernel/syscall.c` do to the uses of the addresses of a task.
use johnbeauty_os.Prelude.{
  ℕ, ◌+◌, ◌%◌, ◌^◌, ◌≤◌, ◌<◌, ◌≡◌, ◌≢◌, ◌∙◌, ◌⊎◌, inl, inr, refl, ap, Bool, true, false, not, ◌||◌,
  none, some, ◌==◌, if◌then◌else◌, if_false, if_intro, arith, add32,
}
use johnbeauty_os.Kernel.Vma.{anon, Vma, Mm, page_size, page_align_up, page_align_down}
use johnbeauty_os.Kernel.Vma.Unmap.{remove_range}
use johnbeauty_os.Kernel.Vma.Unmap.Range.{remove_range-use_at}
use johnbeauty_os.Kernel.Vma.Gaps.{find_free_area}
use johnbeauty_os.Kernel.Vma.Gaps.Room.{find_free_area-IsUnused, find_free_area-IsPage}
use johnbeauty_os.Kernel.Vma.Gaps.None.{find_free_area-none}
use johnbeauty_os.Kernel.Vma.Added.{add-use_at}
use johnbeauty_os.Kernel.Vma.Layout.{IsLayout, IsUnused, within, use_at, page_align_up_bounds}
use johnbeauty_os.Kernel.Syscall.{
  error, enomem, mmap_base, mmap_limit, mmap_fixed, mmap_anon, MmapArgs, has_flag, prot_flags,
  Place, at, place, map_at, mmap_in, syscall_munmap,
}

-- What a mapping at `r` did: it was made in the area, where nothing was in use.
pub record IsMapped (size hi prot len r : ℕ) (mm mm' : Mm) : Type 0 where
  pub above : mmap_base ≤ r
  pub below : r + len ≤ mmap_limit
  pub unused : IsUnused r (r + len) mm.tree
  pub layout : IsLayout 0 mm'.tree hi
  pub used :
      (x : ℕ)
      → use_at mm'.tree x
        ≡ (if within r (r + len) x then some (prot_flags prot, anon) else use_at mm.tree x)

module _ (room : Vma → Bool) (size hi : ℕ) (mm : Mm) (nodes : (v : Vma) → room v ≡ true)
    (l : IsLayout 0 mm.tree hi) (area : mmap_limit ≤ hi) (fits : hi + page_size ≤ size) where
  map_at-IsMapped :
      (prot len hint : ℕ)
      → len % page_size ≡ 0
      → 0 < len
      → let a = find_free_area size mm mmap_base mmap_limit hint len in
        a ≢ 0
        → let (r, mm') = map_at room size prot len mm (at a mm) in
          IsMapped size hi prot len r mm mm'
  unfolding map_at
  map_at-IsMapped prot len hint whole pos ne =
      let a : ℕ = find_free_area size mm mmap_base mmap_limit hint len in
      let (base, limit, free) =
        find_free_area-IsUnused size hi mm mmap_base mmap_limit hint len l fits (omega arith) ne in
      let pa =
        find_free_area-IsPage size hi mm mmap_base mmap_limit hint len l fits (omega arith) refl in
      let end : (a + len) % size ≡ a + len = grind arith in
      let (r, kept, uses) =
        add-use_at room size hi mm a (a + len) (prot_flags prot) anon nodes l pa (omega arith)
          (omega arith) (omega arith) fits free in
      let small : a % 2 ^ 32 ≡ a = omega arith in
      rw (end, r, small)
        (record { above = base; below = limit; unused = free; layout = kept; used = uses })

-- What a failure means: nothing changed, and every range of that length in the area has an address in
-- use.
pub record IsFull (len r : ℕ) (mm mm' : Mm) : Type 0 where
  pub answer : r ≡ error enomem
  pub same : mm' ≡ mm
  pub taken : (a : ℕ) → mmap_base ≤ a → a + len ≤ mmap_limit → IsUnused a (a + len) mm.tree → ⊥

-- In a layout, where the slab cache has nodes, `mmap` of some anonymous bytes at no fixed address
-- either fails and changes nothing, and then every range of as many whole pages in the area has an
-- address in use; or it returns the start of a range of whole pages between the base and the limit of
-- the area in which no address was in use, the layout is kept, the range then has the flags asked for,
-- and every other address its use.
pub mmap_in-IsMapped :
    (access_ok : ℕ → ℕ → Bool) (room : Vma → Bool) (size hi : ℕ) (mm : Mm) (args : MmapArgs)
    → ((v : Vma) → room v ≡ true)
    → IsLayout 0 mm.tree hi
    → mmap_limit ≤ hi
    → hi + page_size ≤ size
    → args.len ≢ 0
    → args.prot ≢ 0
    → args.len + page_size < 2 ^ 32
    → 2 ^ 32 ≤ size
    → has_flag args.flags mmap_anon ≡ true
    → has_flag args.flags mmap_fixed ≡ false
    → let len = page_align_up size args.len in
      let (r, mm') = mmap_in access_ok room size args mm in
      IsFull len r mm mm' ⊎ IsMapped size hi args.prot len r mm mm'
unfolding mmap_in place map_at
mmap_in-IsMapped access_ok room size hi mm args nodes l area fits some_len prot small wide anonymous
      loose =
    let up = page_align_up_bounds size args.len (omega arith) in
    let len : ℕ = page_align_up size args.len in
    let a : ℕ = find_free_area size mm mmap_base mmap_limit args.addr len in
    let same : len % 2 ^ 32 ≡ len = omega (arith, up.1) in
    let P : ℕ × Mm → Type 0 =
      λ p. IsFull len p.0 mm p.1 ⊎ IsMapped size hi args.prot len p.0 mm p.1 in
    let Q : Place → Type 0 = λ p. P (map_at room size args.prot len mm p) in
    rw same (
      if_intro P (args.len == 0 || args.prot == 0) _ _
        (λ t. absurd (ground (arith, some_len, prot)))
        (λ t.
          if_intro P (not (has_flag args.flags mmap_anon)) _ _
            (λ t2. absurd (ground (arith, anonymous)))
            (λ t2.
              if_intro Q (has_flag args.flags mmap_fixed) _ _ (λ t3. absurd (ground (arith, loose)))
                (λ t3.
                  if_intro Q (a == 0) _ _
                    (λ t4. inl (record {
                      answer = refl;
                      same = refl;
                      taken = λ b low high u.
                          find_free_area-none size hi mm mmap_base mmap_limit args.addr len b l fits
                            (omega arith) (omega arith) (omega (arith, up.0, some_len))
                            (ground arith) low high u;
                    }))
                    (λ t4. inr (
                      map_at-IsMapped room size hi mm nodes l area fits args.prot len args.addr up.2
                        (omega (arith, up.0, some_len)) (ground arith)))))))

-- In a layout, where the slab cache has nodes, `munmap` of some bytes from a page boundary, that do
-- not pass the end of the 32-bit addresses, returns 0; the layout is kept, no address of their pages
-- is in use after it, and every other keeps its use.
pub munmap-use_at :
    (room : Vma → Bool) (size hi : ℕ) (mm : Mm) (addr len : ℕ)
    → ((v : Vma) → room v ≡ true)
    → mm.pc ≡ true
    → IsLayout 0 mm.tree hi
    → addr % page_size ≡ 0
    → len ≢ 0
    → addr + len < 2 ^ 32
    → addr + len + page_size ≤ size
    → let e = page_align_up size (addr + len) in
      (mm' : Mm) × (syscall_munmap room size addr len (some mm) ≡ (0, some mm'))
      × IsLayout 0 mm'.tree hi
      × ((x : ℕ) → use_at mm'.tree x ≡ (if within addr e x then none else use_at mm.tree x))
unfolding syscall_munmap
munmap-use_at room size hi mm addr len nodes pc l pa some_len small fits =
    let e = page_align_up size (addr + len) in
    let wrapped : add32 addr len ≡ addr + len = omega arith in
    let (ok, kept, uses, pages) =
      remove_range-use_at room size hi mm addr (addr + len) nodes pc l (omega (arith, some_len))
        fits in
    let down : page_align_down addr ≡ addr = omega arith in
    (
      (remove_range room size mm addr (addr + len)).2,
      if_false (len == 0 || not (addr % page_size == 0)) _ _ (ground (arith, some_len, pa))
          ∙ ap (λ t. (0, some (remove_range room size mm addr t).2)) wrapped,
      kept,
      λ x. uses x ∙ ap (λ a. if within a e x then none else use_at mm.tree x) down,
    )
