-- ===== src/Kernel/Frames/Merge.antt =====
-- The blocks that `buddy_free_nolock` puts together.
use Prim.Native.Nat.{bit_xor}
use native.Mathlib.Nat.{pow-suc}
use johnbeauty_os.Prelude.{
  ℕ, zero, suc, ◌+◌, ◌-◌, ◌^◌, ◌≤◌, ◌<◌, ◌≡◌, ◌≢◌, ◌∙◌, refl, sym, ap, true, some, arith,
  Bool-cases, inl, inr, ◌↔◌, ◌⊎◌, add32,
}
use johnbeauty_os.Prelude.Align.{Aligned, bit_xor-Aligned}
use johnbeauty_os.Prelude.Bits.{pow-pos}
use johnbeauty_os.Kernel.Frames.{
  Pfa, linked, unlinked, buddy_mergeable, min_frame, merge, buddy_free_nolock,
}
use johnbeauty_os.Kernel.Frames.Blocks.{is_head, FreeAt, IsPfa, IsLoose}
use johnbeauty_os.Kernel.Frames.Linked.{linked-IsPfa, free_linked, pages_linked}
use johnbeauty_os.Kernel.Frames.Unlinked.{
  unlinked-IsPfa, free_unlinked, unlinked-IsLoose, still_loose, occupied_unlinked,
  refcount_unlinked,
}
use johnbeauty_os.Kernel.Frames.Steps.{
  In, dec_In, In_halves, block_small, insert_lem, remove_lem, unlinked_order, unlinked_percpu,
  unlinked_fields, swap,
}

-- What an operation that frees a block leaves: all frames of the block are free, and nothing else is
-- that was not, no page became occupied or ceased to be, and the references are as they were.
pub record Freed (pfa : Pfa) (frame order : ℕ) (p : Pfa) : Type 0 where
  pub valid : IsPfa p
  pub free : (x : ℕ) → FreeAt p x ↔ (FreeAt pfa x ⊎ In frame order x)
  pub occupied : (x : ℕ) → (p.pages x).occupied ≡ (pfa.pages x).occupied
  pub refcount : (x : ℕ) → (p.pages x).refcount ≡ (pfa.pages x).refcount
  pub orders : (x : ℕ) → (FreeAt p x → ⊥) → (p.pages x).order ≡ (pfa.pages x).order
  pub same_percpu : p.percpu ≡ pfa.percpu
  pub total : p.total_frames ≡ pfa.total_frames
  pub start : p.start_addr ≡ pfa.start_addr

pub linked-Freed :
    (pfa : Pfa) (frame order : ℕ)
    → IsPfa pfa
    → IsLoose pfa frame order
    → Freed pfa frame order (linked pfa frame order)
unfolding linked
linked-Freed pfa frame order v l = record {
  valid = linked-IsPfa pfa frame order v l;
  free = free_linked pfa frame order v l;
  occupied = λ x. ground arith;
  refcount = λ x. ground arith;
  orders = λ x out.
      let other : x ≢ frame = λ e.
        out (
          (free_linked pfa frame order v l x).1
            (inr (omega arith, omega (arith, pow-pos order)))) in
      ap (λ pg. pg.order) (pages_linked pfa frame order v l x other);
  same_percpu = refl;
  total = refl;
  start = refl;
}

pub linked_counter :
    (pfa : Pfa) (frame order : ℕ) → (linked pfa frame order).free_frames ≡ pfa.free_frames
unfolding linked
linked_counter pfa frame order = refl

module _ (pfa : Pfa) (frame order : ℕ) (v : IsPfa pfa) (l : IsLoose pfa frame order) where
  abbrev buddy : ℕ
  buddy = bit_xor frame (2 ^ order)

  mergeable_head :
      buddy_mergeable pfa frame order ≡ true
      → (is_head pfa buddy order ≡ true)
        × (min_frame buddy frame + 2 ^ suc order ≤ pfa.total_frames)
  unfolding buddy_mergeable
  mergeable_head h = (
    ground (arith, h),
    ground (arith, h, l.fits, v.size, pow-suc 2 order, block_small order l.small, pow-pos order),
  )

  module _ (small : order < 10) (head : is_head pfa buddy order ≡ true) where
    -- The two halves and the block that they make.
    whole-IsLoose :
        (low : ℕ)
        → Aligned low (suc order)
        → low + 2 ^ suc order ≤ pfa.total_frames
        → ((x : ℕ) → In low (suc order) x → In buddy order x ⊎ In frame order x)
        → IsLoose (unlinked pfa buddy order) low (suc order)
    whole-IsLoose low al fits halves = record {
      small = omega arith;
      aligned = al;
      fits = omega (arith, (unlinked_fields pfa buddy order).0, fits);
      loose = λ x a b. elim (halves x (a, b)) [
        | inl (c, d) ↦ (unlinked-IsLoose pfa buddy order v l.small head).loose x c d
        | inr (c, d) ↦ still_loose pfa buddy order v l.small head x (l.loose x c d)
      ];
      apart = λ x a b w.
          let (old, away) = (free_unlinked pfa buddy order v l.small head x).0 w in
          elim (halves x (a, b)) [ inl c ↦ away c | inr (c, d) ↦ l.apart x c d old ];
    }

    -- Freeing the whole block is freeing the half that was not free.
    whole-Freed :
        (low : ℕ) (p : Pfa)
        → ((x : ℕ) → In low (suc order) x ↔ (In buddy order x ⊎ In frame order x))
        → Freed (unlinked pfa buddy order) low (suc order) p
        → Freed pfa frame order p
    whole-Freed low p halves f = record {
      valid = f.valid;
      free = λ x. (
        λ w. elim ((f.free x).0 w) [
          | inl u ↦ inl ((free_unlinked pfa buddy order v l.small head x).0 u).0
          | inr i ↦ elim ((halves x).0 i) [
            | inl (a, b) ↦ inl (record {
              block = buddy;
              order = order;
              small = l.small;
              head = head;
              low = a;
              high = b;
            })
            | inr c ↦ inr c
          ]
        ],
        λ s. (f.free x).1 (elim s [
          | inl w ↦ elim (dec_In buddy order x) [
            | yes i ↦ inr ((halves x).1 (inl i))
            | no out ↦ inl ((free_unlinked pfa buddy order v l.small head x).1 (w, out))
          ]
          | inr i ↦ inr ((halves x).1 (inr i))
        ]),
      );
      occupied = λ x. f.occupied x ∙ occupied_unlinked pfa buddy order v l.small head x;
      refcount = λ x. f.refcount x ∙ refcount_unlinked pfa buddy order v l.small head x;
      orders = λ x out.
          let other : x ≢ buddy = λ e.
            out (
              (f.free x).1
                (inr ((halves x).1 (inl (omega arith, omega (arith, pow-pos order)))))) in
          f.orders x out ∙ unlinked_order pfa buddy order x other;
      same_percpu = f.same_percpu ∙ unlinked_percpu pfa buddy order;
      total = f.total ∙ (unlinked_fields pfa buddy order).0;
      start = f.start ∙ (unlinked_fields pfa buddy order).1;
    }

    -- Where the block of twice the size begins, and that it is the two halves.
    merged_block :
        Aligned (min_frame buddy frame) (suc order)
        × ((x : ℕ)
            → In (min_frame buddy frame) (suc order) x ↔ (In buddy order x ⊎ In frame order x))
    merged_block = elim (bit_xor-Aligned frame order l.aligned) [
      | inl (up, al) ↦
          let low : min_frame buddy frame ≡ frame = ground (arith, up) in
          rw low (al, λ x. In_halves frame buddy order x up)
      | inr (down, al) ↦
          let low : min_frame buddy frame ≡ buddy = ground (arith, down, pow-pos order) in
          rw low (
            al,
            λ x. (
              λ i. swap ((In_halves buddy frame order x (sym down)).0 i),
              λ t. (In_halves buddy frame order x (sym down)).1 (swap t),
            ),
          )
    ]

-- A block is freed, with its buddies as far as they are free.
pub merge-Freed :
    (n : ℕ) (pfa : Pfa) (frame order : ℕ)
    → n + order ≡ 10
    → IsPfa pfa
    → IsLoose pfa frame order
    → (p : Pfa) × (merge n pfa frame order ≡ some p)
      × Freed pfa frame order p
      × (p.free_frames ≡ pfa.free_frames)
unfolding merge
merge-Freed zero pfa frame order e v l = (
  linked pfa frame order,
  insert_lem pfa frame order v l,
  linked-Freed pfa frame order v l,
  linked_counter pfa frame order,
)
merge-Freed (suc n) pfa frame order e v l =
    let buddy = bit_xor frame (2 ^ order) in
    elim (Bool-cases (buddy_mergeable pfa frame order)) [
      | inl m ↦
          let (head, fits) = mergeable_head pfa frame order v l m in
          let small : order < 10 = omega arith in
          let (al, halves) = merged_block pfa frame order v l small head in
          let low = min_frame buddy frame in
          let (p, run, freed, count) =
            merge-Freed n (unlinked pfa buddy order) low (suc order) (omega arith)
              (unlinked-IsPfa pfa buddy order v l.small head)
              (whole-IsLoose pfa frame order v l small head low al fits (λ x. (halves x).0)) in
          (
            p,
            rw (m, remove_lem pfa buddy order v l.small head) run,
            whole-Freed pfa frame order v l small head low p halves freed,
            count ∙ (unlinked_fields pfa buddy order).2,
          )
      | inr m ↦ (
        linked pfa frame order,
        rw m (insert_lem pfa frame order v l),
        linked-Freed pfa frame order v l,
        linked_counter pfa frame order,
      )
    ]

-- The number that counts the free frames is no part of what they are.
pub FreeAt-counter :
    (pfa : Pfa) (n x : ℕ) → FreeAt pfa x ↔ FreeAt (record pfa { free_frames = n }) x
FreeAt-counter pfa n x = (
  λ w. record {
    block = w.block;
    order = w.order;
    small = w.small;
    head = w.head;
    low = w.low;
    high = w.high;
  },
  λ w. record {
    block = w.block;
    order = w.order;
    small = w.small;
    head = w.head;
    low = w.low;
    high = w.high;
  },
)

pub counter-IsPfa : (pfa : Pfa) (n : ℕ) → IsPfa pfa → IsPfa (record pfa { free_frames = n })
counter-IsPfa pfa n v = record {
  size = v.size;
  lists = v.lists;
  once = v.once;
  aligned = v.aligned;
  fits = v.fits;
  apart = v.apart;
  inner = v.inner;
  mask = v.mask;
  mask_high = v.mask_high;
  mask_word = v.mask_word;
}

-- A block of the allocator is freed: on lists that are well formed and a block of which no frame is
-- free, `buddy_free_nolock` does not halt, leaves the lists well formed, makes the frames of the block
-- free and no others, changes no page from occupied or to it and no number of references, and counts
-- the frames.
pub buddy_free_nolock-Freed :
    (pfa : Pfa) (frame order : ℕ)
    → IsPfa pfa
    → IsLoose pfa frame order
    → (p : Pfa) × (buddy_free_nolock pfa frame order ≡ some p)
      × Freed pfa frame order p
      × (p.free_frames ≡ add32 pfa.free_frames (2 ^ order))
unfolding buddy_free_nolock
buddy_free_nolock-Freed pfa frame order v l =
    let (p, run, f, count) =
      merge-Freed (10 - order) pfa frame order (omega (arith, l.small)) v l in
    let n = add32 p.free_frames (2 ^ order) in
    (
      record p { free_frames = n },
      rw run,
      record {
        valid = counter-IsPfa p n f.valid;
        free = λ x. (
          λ w. (f.free x).0 ((FreeAt-counter p n x).1 w),
          λ s. (FreeAt-counter p n x).0 ((f.free x).1 s),
        );
        occupied = f.occupied;
        refcount = f.refcount;
        orders = λ x out. f.orders x (λ w. out ((FreeAt-counter p n x).0 w));
        same_percpu = f.same_percpu;
        total = f.total;
        start = f.start;
      },
      ap (λ c. add32 c (2 ^ order)) count,
    )
