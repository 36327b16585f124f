-- ===== src/Dsa/Sort/Order.antt =====
-- The insertion sort of `dsa/sort.c` orders its array and keeps its elements.
use johnbeauty_os.Prelude.{◌≡◌, Bool, true, false, List, [], ◌∷◌, ◌++◌, if_intro, append-nil}
use johnbeauty_os.Prelude.Predicates.{All}
use mathlib.Core.List.{Perm, perm_middle}
use mathlib.Core.List.Perm
use johnbeauty_os.Dsa.Sort.{swap_down, sort_from, in_array, insertion_sort}

-- What the sort asks of a comparison.
pub record IsOrder {ℓ} {A : Type ℓ} (gt : A → A → Bool) : Type ℓ where
  pub asymm : (a b : A) → gt a b ≡ true → gt b a ≡ false
  pub trans : (a b c : A) → gt a b ≡ false → gt b c ≡ false → gt a c ≡ false

module _ {ℓ} {A : Type ℓ} (gt : A → A → Bool) where
  -- No element is greater than a later one.
  abbrev pub IsAscending : List A → Type ℓ
  IsAscending [] = Unit
  IsAscending (x ∷ xs) = All (λ y. gt x y ≡ false) xs × IsAscending xs

  abbrev IsDescending : List A → Type 0
  IsDescending [] = Unit
  IsDescending (x ∷ xs) = All (λ y. gt y x ≡ false) xs × IsDescending xs

  module _ (o : IsOrder gt) where
    rest_below :
        (a b : A) (xs : List A)
        → gt a b ≡ false
        → All (λ y. gt y a ≡ false) xs
        → All (λ y. gt y b ≡ false) xs
    rest_below a b [] h all = tt
    rest_below a b (x ∷ xs) h all = (o.trans x a b all.0 h, rest_below a b xs h all.1)

    swapped_below :
        (b x : A) (left : List A)
        → All (λ y. gt y b ≡ false) left
        → gt x b ≡ false
        → All (λ y. gt y b ≡ false) (swap_down gt left x)
    unfolding swap_down
    swapped_below b x [] all h = (h, tt)
    swapped_below b x (y ∷ left) all h =
        if_intro (All (λ z. gt z b ≡ false)) (gt y x) _ _
          (λ e. (all.0, swapped_below b x left all.1 h)) (λ e. (h, all))

    swap_down-IsDescending :
        (left : List A) (x : A) → IsDescending left → IsDescending (swap_down gt left x)
    unfolding swap_down
    swap_down-IsDescending [] x d = (tt, tt)
    swap_down-IsDescending (y ∷ left) x d =
        if_intro IsDescending (gt y x) _ _
          (λ e. (swapped_below y x left d.0 (o.asymm y x e), swap_down-IsDescending left x d.1))
          (λ e. ((e, rest_below y x left e d.0), d))

    sort_from-IsDescending :
        (todo left : List A) → IsDescending left → IsDescending (sort_from gt left todo)
    unfolding sort_from
    sort_from-IsDescending [] left d = d
    sort_from-IsDescending (x ∷ todo) left d =
        sort_from-IsDescending todo (swap_down gt left x) (swap_down-IsDescending left x d)

    -- All of `left` are at most all of `right`.
    abbrev Below : List A → List A → Type 0
    Below left right = All (λ x. All (λ y. gt x y ≡ false) right) left

    more_above :
        (x : A) (left right : List A)
        → All (λ y. gt y x ≡ false) left
        → Below left right
        → Below left (x ∷ right)
    more_above x [] right all b = tt
    more_above x (y ∷ left) right all b = ((all.0, b.0), more_above x left right all.1 b.1)

    in_array-IsAscending :
        (left right : List A)
        → IsDescending left
        → IsAscending right
        → Below left right
        → IsAscending (in_array gt left right)
    unfolding in_array
    in_array-IsAscending [] right d a b = a
    in_array-IsAscending (x ∷ left) right d a b =
        in_array-IsAscending left (x ∷ right) d.1 (b.0, a) (more_above x left right d.0 b.1)

    nothing_above : (left : List A) → Below left []
    nothing_above [] = tt
    nothing_above (x ∷ left) = (tt, nothing_above left)

  swap_down-perm : (left : List A) (x : A) → Perm (swap_down gt left x) (x ∷ left)
  unfolding swap_down
  swap_down-perm [] x = Perm.rfl
  swap_down-perm (y ∷ left) x =
      if_intro (λ l. Perm l (x ∷ y ∷ left)) (gt y x) _ _
        (λ e. Perm.trans (Perm.cons y (swap_down-perm left x)) (Perm.swap x y left)) (λ e. Perm.rfl)

  sort_from-perm : (todo left : List A) → Perm (sort_from gt left todo) (todo ++ left)
  unfolding sort_from
  sort_from-perm [] left = Perm.rfl
  sort_from-perm (x ∷ todo) left =
      Perm.trans (sort_from-perm todo (swap_down gt left x))
        (Perm.trans (Perm.append_left todo (swap_down-perm left x)) (perm_middle todo left))

  in_array-perm : (left right : List A) → Perm (in_array gt left right) (left ++ right)
  unfolding in_array
  in_array-perm [] right = Perm.rfl
  in_array-perm (x ∷ left) right =
      Perm.trans (in_array-perm left (x ∷ right)) (perm_middle left right)

  -- For a comparison that is an order, `jlos_insertion_sort` leaves the elements that were in the array,
  -- each as often, and none in front of a smaller one.
  pub insertion_sort-IsAscending :
      (xs : List A)
      → IsOrder gt
      → IsAscending (insertion_sort gt xs) × Perm (insertion_sort gt xs) xs
  unfolding insertion_sort
  insertion_sort-IsAscending xs o =
      let sorted = sort_from gt [] xs in
      let kept : Perm sorted xs = rw append-nil at (sort_from-perm xs []) in
      let turned : Perm (in_array gt sorted []) sorted =
        rw append-nil at (in_array-perm sorted []) in
      (
        in_array-IsAscending o sorted [] (sort_from-IsDescending o xs [] tt) tt
            (nothing_above o sorted),
        Perm.trans turned kept,
      )
