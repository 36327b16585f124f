-- ===== src/Kernel/Frames/Setup/Levels.antt =====
-- The levels of pairs that the set-up makes one block of.
use native.Mathlib.Nat.{pow-suc, suc-mul, mod-add-div'}
use johnbeauty_os.Prelude.{ℕ, zero, suc, ◌+◌, ◌*◌, ◌/◌, ◌^◌, ◌≤◌, ◌<◌, ◌≡◌, ◌∙◌, refl, some, arith}
use johnbeauty_os.Prelude.Align.{Aligned}
use johnbeauty_os.Kernel.Frames.{Pfa}
use johnbeauty_os.Kernel.Frames.Blocks.{IsPfa}
use johnbeauty_os.Kernel.Frames.Setup.{pair_level, pair_levels}
use johnbeauty_os.Kernel.Frames.Setup.Paired.{IsTidy, Alike, nothing-Alike, pair_up-Alike}

Alike-trans : (a b c : Pfa) → Alike a b → Alike b c → Alike a c
Alike-trans a b c f g = record {
  valid = g.valid;
  tidy = g.tidy;
  free = λ x. (λ w. (f.free x).0 ((g.free x).0 w), λ w. (g.free x).1 ((f.free x).1 w));
  occupied = λ x. g.occupied x ∙ f.occupied x;
  total = g.total ∙ f.total;
}

-- A block of twice the size later.
Aligned-next : (n k : ℕ) → Aligned n (suc k) → Aligned (n + 2 ^ k * 2) (suc k)
Aligned-next n k (q, e) = (suc q, omega (arith, e, suc-mul q (2 ^ suc k), pow-suc 2 k))

pair_level-Alike :
    (n : ℕ) (pfa : Pfa) (order frame : ℕ)
    → IsPfa pfa
    → IsTidy pfa
    → order < 10
    → Aligned frame (suc order)
    → frame + n * 2 ^ suc order ≤ pfa.total_frames
    → (p : Pfa) × (pair_level n pfa order frame ≡ some p) × Alike pfa p
unfolding pair_level
pair_level-Alike zero pfa order frame v t small al fits = (pfa, refl, nothing-Alike pfa v t)
pair_level-Alike (suc n) pfa order frame v t small al fits =
    let more = suc-mul n (2 ^ suc order) in
    let (p, one, a) = pair_up-Alike pfa order frame v t small al (omega (arith, fits, more)) in
    let (q, rest, b) =
      pair_level-Alike n p order (frame + 2 ^ order * 2) a.valid a.tidy small
        (Aligned-next frame order al) (omega (arith, fits, more, a.total, pow-suc 2 order)) in
    (q, rw one rest, Alike-trans pfa p q a b)

level_fits : (total order : ℕ) → 0 + total / (2 ^ order * 2) * 2 ^ suc order ≤ total
level_fits total order =
    let double : 2 ^ suc order ≡ 2 ^ order * 2 = omega (arith, pow-suc 2 order) in
    rw double (omega (arith, mod-add-div' total (2 ^ order * 2)))

-- All levels of pairs, from the smallest on.
pub pair_levels-Alike :
    (n : ℕ) (pfa : Pfa) (order : ℕ)
    → n + order ≡ 10
    → IsPfa pfa
    → IsTidy pfa
    → (p : Pfa) × (pair_levels n pfa order ≡ some p) × Alike pfa p
unfolding pair_levels
pair_levels-Alike zero pfa order e v t = (pfa, refl, nothing-Alike pfa v t)
pair_levels-Alike (suc n) pfa order e v t =
    let (p, one, a) =
      pair_level-Alike (pfa.total_frames / (2 ^ order * 2)) pfa order 0 v t (omega arith)
        (0, omega arith) (level_fits pfa.total_frames order) in
    let (q, rest, b) = pair_levels-Alike n p (suc order) (omega arith) a.valid a.tidy in
    (q, rw one rest, Alike-trans pfa p q a b)
