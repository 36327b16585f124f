-- ===== src/Kernel/Frames/Tests.antt =====
-- The theorems on `kernel/page_frame_allocator.c` at a machine of eight frames: the first four are a free
-- block, frames 4 and 5 are in use, the first of them twice, and the others are in no list.
use johnbeauty_os.Prelude.{
  ℕ, ◌^◌, ◌≤◌, ◌<◌, ◌≡◌, ◌∙◌, refl, ap, Bool, true, false, [], ◌∷◌, some, none, arith, inl, inr,
  ◌↔◌, ◌⊎◌, ◌==◌, if◌then◌else◌, if_intro, length, add32,
}
use johnbeauty_os.Prelude.Members.{has, Distinct}
use johnbeauty_os.Prelude.Digits.{digit-pow}
use johnbeauty_os.Kernel.Frames.{Page, Pfa, invalid, buddy_free_nolock}
use johnbeauty_os.Kernel.Frames.Merge.{Freed, buddy_free_nolock-Freed}
use johnbeauty_os.Kernel.Frames.Ranges.{alloc_n, mark_reserve, frame_to_phys, phys_to_frame}
use johnbeauty_os.Kernel.Frames.Ranges.Taken.{Allocated, alloc_n-Allocated}
use johnbeauty_os.Kernel.Frames.Ranges.Changed.{Among}
use johnbeauty_os.Kernel.Frames.Bulk.{free_n}
use johnbeauty_os.Kernel.Frames.Bulk.Freed.{Dropped, free_n-Dropped}
use johnbeauty_os.Kernel.Frames.Bulk.Returned.{free_n-alloc_n}
use johnbeauty_os.Kernel.Frames.Setup.{fresh, build_lists}
use johnbeauty_os.Kernel.Frames.Setup.Built.{
  IsBare, fresh-IsBare, mark_reserve-IsBare, Built, build_lists-Built,
}
use johnbeauty_os.Kernel.Frames.Cached.{malloc, refcount_dec}
use johnbeauty_os.Kernel.Frames.Cached.Spare.{IsFrames, Avail, cache}
use johnbeauty_os.Kernel.Frames.Cached.Malloc.{IsShort, Served, malloc-Served}
use johnbeauty_os.Kernel.Frames.Cached.Release.{Released, refcount_dec-Released}
use johnbeauty_os.Kernel.Frames.Blocks.{is_head, FreeAt, IsPfa, IsLoose}

abbrev page_of : Bool → ℕ → ℕ → Page
page_of occupied order refcount = record {
  occupied = occupied;
  type = 0;
  order = order;
  pt_present_count = 0;
  refcount = refcount;
  owner = 0;
}

abbrev machine : Pfa
machine = record {
  start_addr = 0;
  total_frames = 8;
  free_frames = 4;
  free_order_bitmap = 4;
  pages = λ x.
      if x == 0
      then page_of false 2 0
      else if x == 4
      then page_of true invalid 2
      else if x == 5
      then page_of true invalid 1
      else page_of false invalid 0;
  free_area = λ o. if o == 2 then 0 ∷ [] else [];
  percpu = λ c. record { free_list = []; count = 0 };
}

-- The only block that is free.
only_head : (f o : ℕ) → o ≤ 10 → is_head machine f o ≡ true → (f ≡ 0) × (o ≡ 2)
only_head f o h e = (ground (arith, e, h), ground (arith, e, h))

machine-IsPfa : IsPfa machine
unfolding has Distinct
machine-IsPfa = record {
  size = omega arith;
  lists = λ f o h. ground arith;
  once = λ o h. if_intro Distinct (o == 2) (0 ∷ []) [] (λ e. (refl, tt)) (λ e. tt);
  aligned = λ f o h e. (0, ground (arith, only_head f o h e));
  fits = λ f o h e. let (a, b) = only_head f o h e in rw (a, b) (omega arith);
  apart =
      λ f o g p h k e e' lt. absurd (omega (arith, (only_head f o h e).0, (only_head g p k e').0));
  inner = λ f o x h e lt le.
      let (a, b) = only_head f o h e in
      let small : x < 4 = omega (arith, ap (λ k. 2 ^ k) b) in ground (arith, small, lt);
  mask = λ o h. digit-pow 2 o ∙ ground arith;
  mask_high = λ o h. digit-pow 2 o ∙ ground arith;
  mask_word = omega arith;
}

machine_free : (x : ℕ) → FreeAt machine x → x < 4
machine_free x w =
    let (a, b) = only_head w.block w.order w.small w.head in
    omega (arith, w.high, ap (λ k. 2 ^ k) b)

last_two-IsLoose : IsLoose machine 6 1
last_two-IsLoose = record {
  small = omega arith;
  aligned = (3, refl);
  fits = omega arith;
  loose = λ x a b. ground (arith, a, b);
  apart = λ x a b w. absurd (omega (arith, machine_free x w));
}

machine-IsFrames : IsFrames machine
unfolding has Distinct
machine-IsFrames = record {
  valid = machine-IsPfa;
  spare = λ c f h. absurd (ground (arith, h));
  once = λ c. tt;
  alone = λ c d f h k. absurd (ground (arith, h));
  counted = λ c. refl;
}

machine-IsShort : IsShort machine
machine-IsShort c = omega arith

frame_5_held : Avail machine 5 → ⊥
unfolding has
frame_5_held (inl w) = absurd (omega (arith, machine_free 5 w))
frame_5_held (inr (c, h)) = absurd (ground (arith, h))

buddy_free_nolock-Freed_example :
    (p : Pfa) × (buddy_free_nolock machine 6 1 ≡ some p)
    × Freed machine 6 1 p
    × (p.free_frames ≡ add32 4 (2 ^ 1))
buddy_free_nolock-Freed_example = buddy_free_nolock-Freed machine 6 1 machine-IsPfa last_two-IsLoose

alloc_n-Allocated_example :
    ((frame : ℕ) × (p : Pfa) × (alloc_n machine 3 ≡ some (some (frame_to_phys machine frame), p))
      × Allocated machine frame 3 p)
    ⊎ ((alloc_n machine 3 ≡ some (none, machine))
        × ((◌≡◌ {A = ℕ} 3 0)
            ⊎ ((8 < 3) ⊎ ((f o : ℕ) → o ≤ 10 → 3 ≤ 2 ^ o → is_head machine f o ≡ false))))
alloc_n-Allocated_example = alloc_n-Allocated machine 3 machine-IsPfa

malloc-Served_example :
    ((frame : ℕ) × (p : Pfa) × (malloc machine 0 ≡ some (some (frame_to_phys machine frame), p))
      × Served machine frame p)
    ⊎ ((malloc machine 0 ≡ some (none, machine))
        × (length (cache machine 0) ≡ 0)
        × ((x : ℕ) → FreeAt machine x → ⊥))
malloc-Served_example = malloc-Served machine 0 machine-IsFrames machine-IsShort

refcount_dec-Released_example :
    (p : Pfa) × (refcount_dec machine 0 20480 ≡ some p)
    × Released machine (phys_to_frame machine 20480) p
unfolding phys_to_frame
refcount_dec-Released_example =
    refcount_dec-Released machine 0 20480 machine-IsFrames machine-IsShort (omega arith) refl refl
      frame_5_held

in_use :
    (x : ℕ) → Among 4 2 x → ((machine.pages x).occupied ≡ true) × (0 < (machine.pages x).refcount)
in_use x (a, b) = (ground (arith, a, b), ground (arith, a, b))

free_n-Dropped_example :
    (p : Pfa) × (free_n machine 16384 2 ≡ some p)
    × Dropped machine (phys_to_frame machine 16384) 2 p
unfolding phys_to_frame
free_n-Dropped_example =
    free_n-Dropped machine 16384 2 machine-IsPfa (omega arith) (omega arith) (omega arith)
      (omega arith) in_use (inl refl)

-- Eight frames, of which the first and the sixth are in use.
abbrev marked : Pfa
marked = mark_reserve (mark_reserve (fresh 0 32768) 0) 5

marked-IsBare : IsBare marked
unfolding fresh
marked-IsBare =
    mark_reserve-IsBare (mark_reserve (fresh 0 32768) 0) 5
      (mark_reserve-IsBare (fresh 0 32768) 0 (fresh-IsBare 0 32768 (omega arith)))

build_lists-Built_example : (p : Pfa) × (build_lists marked ≡ some p) × Built marked p
build_lists-Built_example = build_lists-Built marked marked-IsBare

free_n-alloc_n_example :
    ((addr : ℕ) × (p : Pfa) × (q : Pfa) × (alloc_n machine 3 ≡ some (some addr, p))
      × (free_n p addr 3 ≡ some q)
      × IsPfa q
      × ((x : ℕ) → FreeAt q x ↔ FreeAt machine x))
    ⊎ (alloc_n machine 3 ≡ some (none, machine))
free_n-alloc_n_example = free_n-alloc_n machine 3 machine-IsPfa (omega arith)
