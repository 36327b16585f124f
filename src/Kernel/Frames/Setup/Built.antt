-- ===== src/Kernel/Frames/Setup/Built.antt =====
-- The lists that the set-up builds.
use johnbeauty_os.Prelude.{
  ℕ, ◌^◌, ◌≤◌, ◌<◌, ◌≡◌, ◌∙◌, refl, sym, ap, false, some, [], arith, inl, inr, ◌↔◌, ◌==◌, if_intro,
  leb,
}
use johnbeauty_os.Prelude.Members.{has, Distinct}
use johnbeauty_os.Prelude.Digits.{digit, digit_zero}
use johnbeauty_os.Kernel.Frames.{Page, Pfa, invalid, on_page}
use johnbeauty_os.Kernel.Frames.Blocks.{is_head, FreeAt, IsPfa}
use johnbeauty_os.Kernel.Frames.Merge.{counter-IsPfa, FreeAt-counter}
use johnbeauty_os.Kernel.Frames.Ranges.{mark_reserve, reserved_page}
use johnbeauty_os.Kernel.Frames.Setup.{fresh, count_orders, build_lists}
use johnbeauty_os.Kernel.Frames.Setup.Levels.{pair_levels-Alike}
use johnbeauty_os.Kernel.Frames.Setup.Inserted.{IsUnset, insert_frames-Inserted}

-- No block is free, and no page heads one.
pub record IsBare (pfa : Pfa) : Type 0 where
  pub size : pfa.total_frames ≤ 2 ^ 20
  pub no_order : (x : ℕ) → (pfa.pages x).order ≡ invalid
  pub no_list : (o : ℕ) → pfa.free_area o ≡ []
  pub no_mask : pfa.free_order_bitmap ≡ 0

module _ (pfa : Pfa) (b : IsBare pfa) where
  no_head : (f o : ℕ) → o ≤ 10 → is_head pfa f o ≡ false
  no_head f o h = ground (arith, b.no_order f)

  no_block : (x : ℕ) → FreeAt pfa x → ⊥
  no_block x w = absurd (ground (arith, no_head w.block w.order w.small, w.head))

  bare-IsPfa : IsPfa pfa
  unfolding has Distinct
  bare-IsPfa = record {
    size = b.size;
    lists = λ f o h. rw (b.no_list o) (sym (no_head f o h));
    once = λ o h. rw (b.no_list o) tt;
    aligned = λ f o h e. absurd (ground (arith, no_head f o h, e));
    fits = λ f o h e. absurd (ground (arith, no_head f o h, e));
    apart = λ f o g p h k e e' lt. absurd (ground (arith, no_head f o h, e));
    inner = λ f o x h e lt le. absurd (ground (arith, no_head f o h, e));
    mask = λ o h. rw (b.no_list o) (ap (λ m. digit m o) b.no_mask ∙ digit_zero o);
    mask_high = λ o h. ap (λ m. digit m o) b.no_mask ∙ digit_zero o;
    mask_word = omega (arith, b.no_mask);
  }

pub fresh-IsBare :
    (phys_start phys_end : ℕ)
    → (fresh phys_start phys_end).total_frames ≤ 2 ^ 20
    → IsBare (fresh phys_start phys_end)
unfolding fresh
fresh-IsBare phys_start phys_end h = record {
  size = h;
  no_order = λ x. refl;
  no_list = λ o. refl;
  no_mask = refl;
}

-- A frame that is marked as in use heads no block.
pub mark_reserve-IsBare : (pfa : Pfa) (frame : ℕ) → IsBare pfa → IsBare (mark_reserve pfa frame)
unfolding mark_reserve
mark_reserve-IsBare pfa frame b =
    if_intro IsBare (leb pfa.total_frames frame) pfa (on_page pfa frame reserved_page) (λ e. b)
      (λ e. record {
        size = b.size;
        no_order = λ x.
            if_intro {A = Page} (λ pg. pg.order ≡ invalid) (x == frame) _ _ (λ e. refl)
              (λ e. b.no_order x);
        no_list = b.no_list;
        no_mask = b.no_mask;
      })

-- What the set-up leaves: a frame is free if and only if it is not in use.
pub record Built (pfa p : Pfa) : Type 0 where
  pub valid : IsPfa p
  pub free : (x : ℕ) → FreeAt p x ↔ ((x < pfa.total_frames) × ((pfa.pages x).occupied ≡ false))
  pub occupied : (x : ℕ) → (p.pages x).occupied ≡ (pfa.pages x).occupied
  pub total : p.total_frames ≡ pfa.total_frames

-- From pages that head no block and empty lists, the loops of the set-up do not halt; they leave the
-- lists well formed, with exactly those frames in the blocks that are not in use.
pub build_lists-Built :
    (pfa : Pfa) → IsBare pfa → (p : Pfa) × (build_lists pfa ≡ some p) × Built pfa p
unfolding build_lists
build_lists-Built pfa b =
    let unset : IsUnset pfa 0 = record {
      no_order = λ x le. b.no_order x;
      not_free = λ x le. no_block pfa b x;
    } in
    let (p, first, i) =
      insert_frames-Inserted pfa.total_frames pfa 0 (bare-IsPfa pfa b) (λ x e. b.no_order x) unset
        (omega arith) in
    let (q, second, a) = pair_levels-Alike 10 p 0 refl i.valid i.tidy in
    let n = count_orders 11 q 0 0 in
    (
      record q { free_frames = n },
      rw (first, second) refl,
      record {
        valid = counter-IsPfa q n a.valid;
        free = λ x. (
          λ w. elim ((i.free x).0 ((a.free x).0 ((FreeAt-counter q n x).1 w))) [
            | inl old ↦ absurd (no_block pfa b x old)
            | inr ((c, d), e) ↦ (omega arith, e)
          ],
          λ (lt, e).
              (FreeAt-counter q n x).0
                ((a.free x).1 ((i.free x).1 (inr ((omega arith, omega arith), e)))),
        );
        occupied = λ x. a.occupied x ∙ i.occupied x;
        total = a.total ∙ i.total;
      },
    )
