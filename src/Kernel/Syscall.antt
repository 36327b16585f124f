-- ===== src/Kernel/Syscall.antt =====
-- The system calls of `kernel/syscall.c` that change an address space: `brk`, `mmap` and `munmap`.
-- `int32_t` results are words, an error being `2 ^ 32` less its code. The copy of the arguments from
-- user memory (`none` where it faults) and the paging's answer to `jlos_access_ok` are arguments; a
-- missing task or address space is `none`.
pub mod Mapping
mod Tests
use johnbeauty_os.Prelude.{
  ℕ, ◌+◌, ◌-◌, ◌%◌, ◌^◌, Bool, true, false, not, ◌&&◌, ◌||◌, Option, none, some, List, ltb, leb,
  ◌==◌, if◌then◌else◌, add32,
}
use Prim.Native.Nat.{bit_and, bit_or}
use johnbeauty_os.Kernel.Vma.{VmaType, anon, brk, Vma, Mm, page_size, page_align_up, add}
use johnbeauty_os.Kernel.Vma.Unmap.{remove_range, grow_tail, shrink_tail}
use johnbeauty_os.Kernel.Vma.Gaps.{find_free_area}

abbrev pub error : ℕ → ℕ
error code = 2 ^ 32 - code

abbrev pub einval : ℕ
einval = 1

abbrev pub enosys : ℕ
enosys = 2

abbrev pub efault : ℕ
efault = 3

abbrev pub enomem : ℕ
enomem = 5

abbrev pub mmap_base : ℕ
mmap_base = 1073741824

abbrev pub mmap_limit : ℕ
mmap_limit = 3220176896

abbrev pub mmap_fixed : ℕ
mmap_fixed = 16

abbrev pub mmap_anon : ℕ
mmap_anon = 32

pub record MmapArgs : Type 0 where
  pub addr : ℕ
  pub len : ℕ
  pub prot : ℕ
  pub flags : ℕ

abbrev pub has_flag : ℕ → ℕ → Bool
has_flag flags mask = not (bit_and flags mask == 0)

abbrev pub flag_if : Bool → ℕ → ℕ → ℕ
flag_if set mask flags = if set then bit_or flags mask else flags

-- `JLOS_VMA_USER`, and a flag for each right asked for.
unfoldable pub prot_flags : ℕ → ℕ
prot_flags prot =
    flag_if (has_flag prot 4) 4 (flag_if (has_flag prot 2) 2 (flag_if (has_flag prot 1) 1 8))

-- The address for the mapping and the address space it is made in, or the error.
pub data Place : Type 0 where
  at : ℕ → Mm → Place
  failed : ℕ → Place

unfoldable pub place_fixed : (ℕ → ℕ → Bool) → (Vma → Bool) → ℕ → MmapArgs → ℕ → Mm → Place
place_fixed access_ok room size args len mm =
    let past = (args.addr + len) % size in
    if not (args.addr % page_size == 0)
    then failed einval
    else if ltb past args.addr || not (access_ok args.addr len)
    then failed einval
    else at args.addr (remove_range room size mm args.addr past).2

abbrev pub place_found : Mm → ℕ → Place
place_found mm addr = if addr == 0 then failed enomem else at addr mm

unfoldable pub place : (ℕ → ℕ → Bool) → (Vma → Bool) → ℕ → MmapArgs → ℕ → Mm → Place
place access_ok room size args len mm =
    if has_flag args.flags mmap_fixed
    then place_fixed access_ok room size args len mm
    else place_found mm (find_free_area size mm mmap_base mmap_limit args.addr len)

-- What `jlos_vma_add` answered decides the result.
abbrev pub mapped_or : ℕ → Option Vma × Mm → ℕ × Mm
mapped_or addr (none, mm) = (error enomem, mm)
mapped_or addr (some v, mm) = (addr % 2 ^ 32, mm)

unfoldable pub map_at : (Vma → Bool) → ℕ → ℕ → ℕ → Mm → Place → ℕ × Mm
map_at room size prot len mm (failed code) = (error code, mm)
map_at room size prot len mm (at addr mm') =
    mapped_or addr (add room size mm' addr ((addr + len) % size) (prot_flags prot) anon)

unfoldable pub mmap_in : (ℕ → ℕ → Bool) → (Vma → Bool) → ℕ → MmapArgs → Mm → ℕ × Mm
mmap_in access_ok room size args mm =
    let len = page_align_up size args.len % 2 ^ 32 in
    if args.len == 0 || args.prot == 0
    then (error einval, mm)
    else if not (has_flag args.flags mmap_anon)
    then (error enosys, mm)
    else map_at room size args.prot len mm (place access_ok room size args len mm)

abbrev pub returned : ℕ × Mm → ℕ × Option Mm
returned (r, mm) = (r, some mm)

unfoldable pub syscall_mmap :
    (ℕ → ℕ → Bool) → (Vma → Bool) → ℕ → Option MmapArgs → Option Mm → ℕ × Option Mm
syscall_mmap access_ok room size args none = (error enomem, none)
syscall_mmap access_ok room size none (some mm) = (error efault, some mm)
syscall_mmap access_ok room size (some args) (some mm) =
    returned (mmap_in access_ok room size args mm)

unfoldable pub syscall_munmap : (Vma → Bool) → ℕ → ℕ → ℕ → Option Mm → ℕ × Option Mm
syscall_munmap room size addr len none = (error enomem, none)
syscall_munmap room size addr len (some mm) =
    if len == 0 || not (addr % page_size == 0)
    then (error einval, some mm)
    else (0, some (remove_range room size mm addr (add32 addr len)).2)

-- The heap region grown or cut; what the calls answer is not looked at.
unfoldable pub move_brk : (Vma → Bool) → ℕ → Mm → ℕ → Mm
move_brk room size mm new_brk =
    if ltb mm.brk_end new_brk
    then (grow_tail room size mm mm.brk_start new_brk 10 brk).1
    else if ltb new_brk mm.brk_end
    then (shrink_tail size mm new_brk brk).2
    else mm

unfoldable pub syscall_brk : (Vma → Bool) → ℕ → ℕ → Option Mm → ℕ × Option Mm
syscall_brk room size new_brk none = (error enomem, none)
syscall_brk room size new_brk (some mm) =
    if new_brk == 0
    then (mm.brk_end % 2 ^ 32, some mm)
    else if ltb new_brk mm.brk_start || ltb mm.brk_limit new_brk
    then (mm.brk_end % 2 ^ 32, some mm)
    else (new_brk, some (record (move_brk room size mm new_brk) { brk_end = new_brk }))
