-- ===== src/Kernel/Frames/Split.antt =====
-- A block split down to a smaller order, the upper halves of which go to the lists.
use Prim.Native.Nat.{bit_or}
use native.Mathlib.Nat.{pow-suc, add-suc, add-zero}
use mathlib.Core.Path.{subst}
use johnbeauty_os.Prelude.{
  ℕ, zero, suc, ◌+◌, ◌^◌, ◌≤◌, ◌≡◌, ◌∙◌, refl, sym, some, arith, inl, inr, ◌↔◌, ◌⊎◌, dec_lt,
}
use johnbeauty_os.Prelude.Align.{bit_or-Aligned, Aligned-down, Aligned-up_half}
use johnbeauty_os.Kernel.Frames.{Pfa, linked, buddy_insert, split}
use johnbeauty_os.Kernel.Frames.Blocks.{FreeAt, IsPfa, IsLoose}
use johnbeauty_os.Kernel.Frames.Linked.{free_linked, pages_linked}
use johnbeauty_os.Kernel.Frames.Steps.{In, insert_lem}
use johnbeauty_os.Kernel.Frames.Merge.{linked-Freed, linked_counter}

-- What a split leaves: of the block, all frames but those of the lower one of the order wanted are free.
pub record Halved (pfa : Pfa) (frame order target : ℕ) (p : Pfa) : Type 0 where
  pub valid : IsPfa p
  pub kept : IsLoose p frame target
  pub free : (x : ℕ) → FreeAt p x ↔ (FreeAt pfa x ⊎ (In frame order x × (In frame target x → ⊥)))
  pub occupied : (x : ℕ) → (p.pages x).occupied ≡ (pfa.pages x).occupied
  pub orders : (x : ℕ) → (FreeAt p x → ⊥) → (p.pages x).order ≡ (pfa.pages x).order
  pub same_percpu : p.percpu ≡ pfa.percpu
  pub total : p.total_frames ≡ pfa.total_frames
  pub start : p.start_addr ≡ pfa.start_addr
  pub counter : p.free_frames ≡ pfa.free_frames

module _ (pfa : Pfa) (frame o : ℕ) (v : IsPfa pfa) (l : IsLoose pfa frame (suc o)) where
  upper : ℕ
  upper = frame + 2 ^ o

  upper-IsLoose : IsLoose pfa upper o
  unfolding upper
  upper-IsLoose = record {
    small = omega (arith, l.small);
    aligned = Aligned-up_half frame o l.aligned;
    fits = omega (arith, l.fits, pow-suc 2 o);
    loose = λ x a b. l.loose x (omega arith) (omega (arith, pow-suc 2 o));
    apart = λ x a b. l.apart x (omega arith) (omega (arith, pow-suc 2 o));
  }

  lower-IsLoose : IsLoose (linked pfa upper o) frame o
  unfolding upper
  lower-IsLoose =
      let f = linked-Freed pfa upper o v upper-IsLoose in
      record {
        small = omega (arith, l.small);
        aligned = Aligned-down frame o l.aligned;
        fits = omega (arith, l.fits, pow-suc 2 o, f.total);
        loose = λ x a b.
            rw (pages_linked pfa upper o v upper-IsLoose x (λ e. absurd (omega arith)))
              (l.loose x a (omega (arith, pow-suc 2 o)));
        apart = λ x a b w. elim ((free_linked pfa upper o v upper-IsLoose x).0 w) [
          | inl old ↦ l.apart x a (omega (arith, pow-suc 2 o)) old
          | inr (c, d) ↦ absurd (omega arith)
        ];
      }

  inserted : buddy_insert pfa (bit_or frame (2 ^ o)) o ≡ some (linked pfa upper o)
  unfolding upper
  inserted = rw (bit_or-Aligned frame o l.aligned) (insert_lem pfa upper o v upper-IsLoose)

  -- The split goes on with the lower half.
  lower-Halved :
      (t : ℕ) (p : Pfa)
      → 2 ^ t ≤ 2 ^ o
      → Halved (linked pfa upper o) frame o t p
      → Halved pfa frame (suc o) t p
  unfolding upper
  lower-Halved t p le f =
      let g = linked-Freed pfa upper o v upper-IsLoose in
      record {
        valid = f.valid;
        kept = f.kept;
        free = λ x. (
          λ w. elim ((f.free x).0 w) [
            | inl u ↦ elim ((g.free x).0 u) [
              | inl old ↦ inl old
              | inr (a, b) ↦
                  inr ((omega arith, omega (arith, pow-suc 2 o)), λ i. absurd (omega arith))
            ]
            | inr ((a, b), out) ↦ inr ((a, omega (arith, pow-suc 2 o)), out)
          ],
          λ s. (f.free x).1 (elim s [
            | inl old ↦ inl ((g.free x).1 (inl old))
            | inr ((a, b), out) ↦ elim (dec_lt x upper) [
              | yes lt ↦ inr ((a, lt), out)
              | no ge ↦ inl ((g.free x).1 (inr (omega arith, omega (arith, pow-suc 2 o))))
            ]
          ]),
        );
        occupied = λ x. f.occupied x ∙ g.occupied x;
        orders = λ x out. f.orders x out ∙ g.orders x (λ w. out ((f.free x).1 (inl w)));
        same_percpu = f.same_percpu ∙ g.same_percpu;
        total = f.total ∙ g.total;
        start = f.start ∙ g.start;
        counter = f.counter ∙ linked_counter pfa upper o;
      }

pow-le-add : (n t : ℕ) → 2 ^ t ≤ 2 ^ (t + n)
pow-le-add zero t = rw (add-zero t) (omega arith)
pow-le-add (suc n) t = rw (add-suc t n) (omega (arith, pow-suc 2 (t + n), pow-le-add n t))

whole-Halved :
    (pfa : Pfa) (frame target : ℕ)
    → IsPfa pfa
    → IsLoose pfa frame target
    → Halved pfa frame target target pfa
whole-Halved pfa frame target v l = record {
  valid = v;
  kept = l;
  free = λ x. (λ w. inl w, λ s. elim s [ inl w ↦ w | inr (i, out) ↦ absurd (out i) ]);
  occupied = λ x. refl;
  orders = λ x out. refl;
  same_percpu = refl;
  total = refl;
  start = refl;
  counter = refl;
}

-- A block taken out of its list is split down to `target`.
pub split-Halved :
    (n : ℕ) (pfa : Pfa) (frame order target : ℕ)
    → order ≡ target + n
    → IsPfa pfa
    → IsLoose pfa frame order
    → (p : Pfa) × (split n pfa frame target ≡ some p) × Halved pfa frame order target p
unfolding split
split-Halved zero pfa frame order target e v l =
    let same : order ≡ target = omega arith in
    rw same ((pfa, refl, whole-Halved pfa frame target v (subst (λ o. IsLoose pfa frame o) same l)))
split-Halved (suc n) pfa frame order target e v l =
    let o = target + n in
    let next : order ≡ suc o = omega arith in
    let whole : IsLoose pfa frame (suc o) = subst (λ k. IsLoose pfa frame k) next l in
    let (p, run, halved) =
      split-Halved n (linked pfa (upper pfa frame o v whole) o) frame o target refl
        (linked-Freed pfa (upper pfa frame o v whole) o v (upper-IsLoose pfa frame o v whole)).valid
        (lower-IsLoose pfa frame o v whole) in
    (
      p,
      rw (inserted pfa frame o v whole) run,
      subst (λ k. Halved pfa frame k target p) (sym next)
          (lower-Halved pfa frame o v whole target p (pow-le-add n target) halved),
    )
