-- ===== src/Kernel/Frames/Steps.antt =====
-- One block put in its list or taken out of it: `buddy_insert` and `buddy_remove` do not halt.
use native.Mathlib.Nat.{pow-suc}
use johnbeauty_os.Prelude.{
  ℕ, suc, ◌+◌, ◌^◌, ◌≤◌, ◌<◌, ◌≡◌, ◌≢◌, refl, true, some, arith, inl, inr, ◌↔◌, ◌⊎◌, dec_lt,
}
use johnbeauty_os.Prelude.Align.{Aligned-bit_and}
use johnbeauty_os.Prelude.Bits.{pow-pos}
use johnbeauty_os.Prelude.Digits.{pow_less}
use johnbeauty_os.Kernel.Frames.{Pfa, linked, unlinked, buddy_insert, buddy_remove}
use johnbeauty_os.Kernel.Frames.Blocks.{is_head, IsPfa, IsLoose}

-- The frames of a block.
abbrev pub In : ℕ → ℕ → ℕ → Type 0
In frame order x = (frame ≤ x) × (x < frame + 2 ^ order)

pub dec_In : (frame order x : ℕ) → Dec (In frame order x)
dec_In frame order x = elim (dec_lt x frame) [
  | yes lt ↦ no (λ i. absurd (omega arith))
  | no ge ↦ elim (dec_lt x (frame + 2 ^ order)) [
    | yes lt ↦ yes (omega arith, lt)
    | no ge ↦ no (λ i. absurd (omega arith))
  ]
]

-- A block is its two halves.
pub In_halves :
    (low high order x : ℕ)
    → high ≡ low + 2 ^ order
    → In low (suc order) x ↔ (In high order x ⊎ In low order x)
In_halves low high order x e = (
  λ (a, b). elim (dec_lt x high) [
    | yes lt ↦ inr (a, omega arith)
    | no ge ↦ inl (omega arith, omega (arith, pow-suc 2 order))
  ],
  λ s. elim s [
    | inl i ↦ (omega arith, omega (arith, pow-suc 2 order))
    | inr i ↦ (omega arith, omega (arith, pow-suc 2 order))
  ],
)

pub swap : {A B : Type 0} → A ⊎ B → B ⊎ A
swap (inl a) = inr a
swap (inr b) = inl b

pub block_small : (order : ℕ) → order ≤ 10 → 2 ^ order < 2 ^ 11
block_small order h = pow_less order 11 (omega arith)

module _ (pfa : Pfa) (frame order : ℕ) (v : IsPfa pfa) where
  pub insert_lem :
      IsLoose pfa frame order → buddy_insert pfa frame order ≡ some (linked pfa frame order)
  unfolding buddy_insert
  insert_lem l =
      let (a, b) = l.loose frame (omega arith) (omega (arith, pow-pos order)) in
      ground (
        arith,
        a,
        b,
        l.fits,
        v.size,
        pow-pos order,
        Aligned-bit_and frame order l.aligned,
        block_small order l.small,
      )

  pub remove_lem :
      order ≤ 10
      → is_head pfa frame order ≡ true
      → buddy_remove pfa frame order ≡ some (unlinked pfa frame order)
  unfolding buddy_remove
  remove_lem small head = ground (
    arith,
    v.lists frame order small,
    v.fits frame order small head,
    v.size,
    pow-pos order,
    block_small order small,
    head,
  )

pub unlinked_order :
    (pfa : Pfa) (frame order x : ℕ)
    → x ≢ frame
    → ((unlinked pfa frame order).pages x).order ≡ (pfa.pages x).order
unfolding unlinked
unlinked_order pfa frame order x ne = ground (arith, ne)

pub unlinked_percpu : (pfa : Pfa) (frame order : ℕ) → (unlinked pfa frame order).percpu ≡ pfa.percpu
unfolding unlinked
unlinked_percpu pfa frame order = refl

pub unlinked_fields :
    (pfa : Pfa) (frame order : ℕ)
    → let p = unlinked pfa frame order in
      (p.total_frames ≡ pfa.total_frames)
      × (p.start_addr ≡ pfa.start_addr)
      × (p.free_frames ≡ pfa.free_frames)
unfolding unlinked
unlinked_fields pfa frame order = (refl, refl, refl)
