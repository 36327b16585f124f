-- ===== src/Dsa/List.antt =====
-- The lists of `dsa/list.h`, by the numbers of the nodes that are linked.
use johnbeauty_os.Prelude.{
  ℕ, suc, ◌≡◌, refl, true, not, ◌&&◌, List, [], ◌∷◌, ◌==◌, arith, length, if◌then◌else◌, if_intro,
}
use johnbeauty_os.Prelude.Members.{has, Distinct}

-- `jlos_list_del` of a node.
unfoldable pub unlink : ℕ → List ℕ → List ℕ
unlink t [] = []
unlink t (u ∷ rest) = if u == t then rest else u ∷ unlink t rest

pub has-unlink :
    (u t : ℕ) (q : List ℕ) → Distinct q → has u (unlink t q) ≡ (has u q && not (u == t))
unfolding has unlink Distinct
has-unlink u t [] d = refl
has-unlink u t (x ∷ q) (fresh, d) = ground (arith, has-unlink u t q d, fresh)

pub Distinct-unlink : (t : ℕ) (q : List ℕ) → Distinct q → Distinct (unlink t q)
unfolding unlink Distinct
Distinct-unlink t [] d = tt
Distinct-unlink t (x ∷ q) (fresh, d) =
    if_intro Distinct (x == t) q (x ∷ unlink t q) (λ e. d)
      (λ e. (ground (arith, has-unlink x t q d, fresh), Distinct-unlink t q d))

pub length-unlink : (t : ℕ) (q : List ℕ) → has t q ≡ true → length q ≡ suc (length (unlink t q))
unfolding has unlink
length-unlink t [] h = absurd (ground (arith, h))
length-unlink t (x ∷ q) h = ground (arith, length-unlink t q)
