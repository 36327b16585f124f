-- ===== src/Kernel/Frames/Ranges/Taken.antt =====
-- `jlos_page_frame_alloc_n` hands out frames that were free.
use johnbeauty_os.Prelude.{
  ℕ, ◌+◌, ◌-◌, ◌%◌, ◌^◌, ◌≤◌, ◌<◌, ◌≡◌, ◌∙◌, refl, sym, ap, true, false, ◌||◌, some, none, arith,
  Bool-cases, inl, inr, ◌↔◌, ◌⊎◌, dec_lt, ◌==◌, ltb, if_false, if_true, add32, mul32, ℕ_discrete,
  ==_iff,
}
use johnbeauty_os.Prelude.Align.{Aligned}
use johnbeauty_os.Dsa.Bitmap.{trailing_zeros}
use johnbeauty_os.Kernel.Frames.{Pfa, unlinked, split, frames_to_order}
use johnbeauty_os.Kernel.Frames.Blocks.{is_head, FreeAt, IsPfa}
use johnbeauty_os.Kernel.Frames.Unlinked.{
  unlinked-IsPfa, free_unlinked, unlinked-IsLoose, occupied_unlinked,
}
use johnbeauty_os.Kernel.Frames.Steps.{In, dec_In, remove_lem, unlinked_fields}
use johnbeauty_os.Kernel.Frames.Split.{Halved, split-Halved}
use johnbeauty_os.Kernel.Frames.Ranges.{
  buddy_free_range, range_from, first, frame_to_phys, page_frame_size, give_back, split_if,
  handed_out, take_block, alloc_n,
}
use johnbeauty_os.Kernel.Frames.Ranges.Changed.{Among}
use johnbeauty_os.Kernel.Frames.Ranges.Given.{Given}
use johnbeauty_os.Kernel.Frames.Ranges.Marked.{
  handed_out-IsPfa, handed_out-FreeAt, handed_out_fields, reserved_inside, counted_inside,
  order_first, same_outside,
}
use johnbeauty_os.Kernel.Frames.Ranges.Back.{buddy_free_range-Given}
use johnbeauty_os.Kernel.Frames.Ranges.Orders.{
  pow-le, frames_to_order_lem, masked, found, none_found,
}

-- What an allocation leaves: the frames handed out were free and are occupied, with one reference, no others ceased to be
-- free or changed in that, and they begin at a multiple of a power of two that is large enough.
pub record Allocated (pfa : Pfa) (frame num : ℕ) (p : Pfa) : Type 0 where
  pub valid : IsPfa p
  pub was_free : (x : ℕ) → Among frame num x → FreeAt pfa x
  pub free : (x : ℕ) → FreeAt p x ↔ (FreeAt pfa x × (Among frame num x → ⊥))
  pub reserved : (x : ℕ) → Among frame num x → (p.pages x).occupied ≡ true
  pub others :
      (x : ℕ)
      → (Among frame num x → ⊥)
      → FreeAt pfa x ⊎ ((p.pages x).occupied ≡ (pfa.pages x).occupied)
  pub aligned : Aligned frame (frames_to_order num)
  pub counted : (x : ℕ) → Among frame num x → (p.pages x).refcount ≡ 1
  pub order_first : (p.pages frame).order ≡ frames_to_order num
  pub room :
      (0 < num)
      × (num ≤ 2 ^ frames_to_order num)
      × (frames_to_order num ≤ 10)
      × (frame + num ≤ p.total_frames)
  pub start : p.start_addr ≡ pfa.start_addr
  pub total : p.total_frames ≡ pfa.total_frames
  pub counter :
      p.free_frames ≡ (pfa.free_frames + (2 ^ frames_to_order num - num) + (2 ^ 32 - num)) % 2 ^ 32

split_if_lem :
    (pfa : Pfa) (frame order target : ℕ)
    → target ≤ order
    → split_if pfa frame order target ≡ split (order - target) pfa frame target
unfolding split
split_if_lem pfa frame order target h = elim (Bool-cases (ltb target order)) [
  | inl e ↦ if_true (ltb target order) _ _ e
  | inr e ↦
      let done : order - target ≡ 0 = ground (arith, e) in
      if_false (ltb target order) _ _ e ∙ ap (λ n. split n pfa frame target) (sym done)
]

give_back_lem :
    (pfa : Pfa) (base extra : ℕ) → give_back pfa base extra ≡ buddy_free_range pfa base extra
unfolding buddy_free_range range_from
give_back_lem pfa base extra = elim (Bool-cases (extra == 0)) [
  | inl e ↦
      let done : extra ≡ 0 = (==_iff extra 0).0 e in
      if_true (extra == 0) _ _ e ∙ ap (λ n. range_from n pfa base n) (sym done)
  | inr e ↦ if_false (extra == 0) _ _ e
]

module _ (pfa : Pfa) (frame order num t : ℕ) (v : IsPfa pfa) (small : order ≤ 10)
    (head : is_head pfa frame order ≡ true) (le : t ≤ order) (some_frame : 0 < num)
    (enough : num ≤ 2 ^ t) where
  abbrev without_block : Pfa
  without_block = unlinked pfa frame order

  module _ (q : Pfa) (h : Halved without_block frame order t q) where
    -- Before the rest is given back, the frames that were free are those there were but the block kept.
    free_halved : (x : ℕ) → FreeAt q x ↔ (FreeAt pfa x × (In frame t x → ⊥))
    free_halved x = (
      λ w. elim ((h.free x).0 w) [
        | inl u ↦
            let (old, away) = (free_unlinked pfa frame order v small head x).0 u in
            (old, λ (a, b). away (a, omega (arith, pow-le t order le)))
        | inr ((a, b), out) ↦ (
          record { block = frame; order = order; small = small; head = head; low = a; high = b },
          out,
        )
      ],
      λ (w, out). (h.free x).1 (elim (dec_In frame order x) [
        | yes i ↦ inr (i, out)
        | no away ↦ inl ((free_unlinked pfa frame order v small head x).1 (w, away))
      ]),
    )

    rest_taken : (x : ℕ) → Among (frame + num) (2 ^ t - num) x → FreeAt q x → ⊥
    rest_taken x (a, b) w = ((free_halved x).0 w).1 (omega arith, omega arith)

    rest_fits : (frame + num) + (2 ^ t - num) ≤ q.total_frames
    rest_fits = omega (arith, h.kept.fits)

    module _ (r : Pfa) (g : Given q (frame + num) (2 ^ t - num) r) where
      free_given : (x : ℕ) → FreeAt r x ↔ (FreeAt pfa x × (Among frame num x → ⊥))
      free_given x = (
        λ w. elim ((g.free x).0 w) [
          | inl u ↦ let (old, out) = (free_halved x).0 u in (old, λ (a, b). out (a, omega arith))
          | inr (a, b) ↦ (
            record {
              block = frame;
              order = order;
              small = small;
              head = head;
              low = omega arith;
              high = omega (arith, pow-le t order le);
            },
            λ (c, d). absurd (omega arith),
          )
        ],
        λ (w, out). (g.free x).1 (elim (dec_In frame t x) [
          | yes (a, b) ↦ elim (dec_lt x (frame + num)) [
            | yes lt ↦ absurd (out (a, lt))
            | no ge ↦ inr (omega arith, omega arith)
          ]
          | no away ↦ inl ((free_halved x).1 (w, away))
        ]),
      )

      given_fits : frame + num ≤ r.total_frames
      given_fits = omega (arith, h.kept.fits, g.total)

      given_taken : (x : ℕ) → Among frame num x → FreeAt r x → ⊥
      given_taken x i w = ((free_given x).0 w).1 i

      block-Allocated : frames_to_order num ≡ t → Allocated pfa frame num (handed_out r frame num t)
      block-Allocated same =
          let fields = handed_out_fields r frame num t g.valid some_frame given_fits given_taken in
          let marks = handed_out-FreeAt r frame num t g.valid some_frame given_fits given_taken in
          record {
            valid = handed_out-IsPfa r frame num t g.valid some_frame given_fits given_taken;
            was_free = λ x (a, b). record {
              block = frame;
              order = order;
              small = small;
              head = head;
              low = a;
              high = omega (arith, pow-le t order le);
            };
            free =
                λ x. (λ w. (free_given x).0 ((marks x).0 w), λ s. (marks x).1 ((free_given x).1 s));
            reserved = reserved_inside r frame num t g.valid some_frame given_fits given_taken;
            others = λ x out. elim (dec_In frame t x) [
              | yes (a, b) ↦ inl (record {
                block = frame;
                order = order;
                small = small;
                head = head;
                low = a;
                high = omega (arith, pow-le t order le);
              })
              | no away ↦ inr (
                  ap (λ pg. pg.occupied)
                    (same_outside r frame num t g.valid some_frame given_fits given_taken x out)
                  ∙ g.occupied x (λ i. away (omega arith, omega arith))
                  ∙ h.occupied x
                  ∙ occupied_unlinked pfa frame order v small head x)
            ];
            aligned = rw same h.kept.aligned;
            counted = counted_inside r frame num t g.valid some_frame given_fits given_taken;
            order_first =
                order_first r frame num t g.valid some_frame given_fits given_taken
                ∙ omega (arith, le, small, same);
            room = (
              some_frame,
              omega (arith, enough, ap (λ k. 2 ^ k) same),
              omega (arith, le, small, same),
              omega (arith, given_fits, fields.0),
            );
            start = fields.1 ∙ g.start ∙ h.start ∙ (unlinked_fields pfa frame order).1;
            total = fields.0 ∙ g.total ∙ h.total ∙ (unlinked_fields pfa frame order).0;
            counter = omega (
              arith,
              fields.2,
              g.counter,
              h.counter,
              (unlinked_fields pfa frame order).2,
              ap (λ k. 2 ^ k) same,
              pow-le t 10 (omega arith),
            );
          }

module _ (pfa : Pfa) (num t : ℕ) (v : IsPfa pfa) (some_frame : 0 < num) (enough : num ≤ 2 ^ t)
    (same : frames_to_order num ≡ t) where
  -- A block of an order that is large enough serves the request.
  take_block-Allocated :
      (frame order : ℕ)
      → order ≤ 10
      → t ≤ order
      → first (pfa.free_area order) ≡ some frame
      → is_head pfa frame order ≡ true
      → (p : Pfa) × (take_block pfa num t order ≡ some (some (frame_to_phys pfa frame), p))
        × Allocated pfa frame num p
  unfolding take_block
  take_block-Allocated frame order small le at_front head =
      let p1 = without_block pfa frame order num t v small head le some_frame enough in
      let (q, halves, h) =
        split-Halved (order - t) p1 frame order t (omega arith)
          (unlinked-IsPfa pfa frame order v small head)
          (unlinked-IsLoose pfa frame order v small head) in
      let args = rest_taken pfa frame order num t v small head le some_frame enough q h in
      let (r, back, g) =
        buddy_free_range-Given q (frame + num) (2 ^ t - num)
          (omega (arith, pow-le t 10 (omega arith))) h.valid
          (rest_fits pfa frame order num t v small head le some_frame enough q h) args in
      let starts : r.start_addr ≡ pfa.start_addr =
        g.start ∙ h.start ∙ (unlinked_fields pfa frame order).1 in
      (
        handed_out r frame num t,
        rw
            (
              at_front,
              remove_lem pfa frame order v small head,
              split_if_lem p1 frame order t le,
              halves,
              give_back_lem q (frame + num) (2 ^ t - num),
              back,
            )
            (ap (λ a. some (some (add32 a (mul32 frame page_frame_size)), handed_out r frame num t))
              starts),
        block-Allocated pfa frame order num t v small head le some_frame enough q h r g same,
      )

-- On well-formed lists `alloc_n` does not halt. It hands out `num` frames as `Allocated` says, with the
-- address of the first, or nothing and leaves everything as it was; that only for no frame, for more
-- than there are, or where no free block is as large as the smallest power of two that they fit in.
pub alloc_n-Allocated :
    (pfa : Pfa) (num : ℕ)
    → IsPfa pfa
    → ((frame : ℕ) × (p : Pfa) × (alloc_n pfa num ≡ some (some (frame_to_phys pfa frame), p))
        × Allocated pfa frame num p)
      ⊎ ((alloc_n pfa num ≡ some (none, pfa))
          × ((num ≡ 0)
              ⊎ ((pfa.total_frames < num)
                  ⊎ ((f o : ℕ) → o ≤ 10 → num ≤ 2 ^ o → is_head pfa f o ≡ false))))
unfolding alloc_n
alloc_n-Allocated pfa num v = elim (Bool-cases (num == 0 || ltb pfa.total_frames num)) [
  | inl bad ↦ inr (
    rw bad,
    elim (ℕ_discrete num 0) [ yes e ↦ inl e | no ne ↦ inr (inl (ground (arith, bad, ne))) ],
  )
  | inr good ↦
      let t = frames_to_order num in
      let sized : num < 2 ^ 32 = ground (arith, good, v.size) in
      let (enough, least) = frames_to_order_lem num 20 sized in
      let short : t < 32 = omega (arith, least (ground (arith, good, v.size))) in
      let some_frame : 0 < num = ground (arith, good) in
      elim (Bool-cases (masked pfa t v short == 0)) [
        | inl e ↦ inr (
          rw (good, e),
          inr (
              inr (λ f o h le.
                none_found pfa t v short ((==_iff _ 0).0 e) f o h
                  ((frames_to_order_lem num o sized).1 le))),
        )
        | inr e ↦
            let (small, le, (frame, at_front, head)) = found pfa t v short (ground (arith, e)) in
            let (p, run, taken) =
              take_block-Allocated pfa num t v some_frame enough refl frame
                (trailing_zeros 32 (masked pfa t v short)) small le at_front head in
            inl (frame, p, rw (good, e) run, taken)
      ]
]
