-- ===== src/Prelude/Arrays.antt =====
-- Byte arrays as lists: a block copied in, a block read out, and lists built by index.
use Prim.Native.Nat.{ℕ, zero, suc, ◌+◌, ◌≤◌, ◌<◌}
use mathlib.Core.Path.{◌≡◌, refl, ap, ap₂}
use mathlib.Core.Logic.{◌⊎◌}
use mathlib.Core.List.{List, [], ◌∷◌, ◌++◌}
use native.Mathlib.Omega.{arith}
use native.Mathlib.Nat.{zero-add}
use Prim.Native.Nat.add
use johnbeauty_os.Prelude.Lists.{length, get_or, take, drop}

module _ {ℓ} {A : Type ℓ} where
  -- `memcpy(buf + off, src, length src)`; what lies past the end of the array is not written.
  pub copy_to : List A → ℕ → List A → List A
  copy_to buf off [] = buf
  copy_to [] off (x ∷ xs) = []
  copy_to (b ∷ buf) zero (x ∷ xs) = x ∷ copy_to buf zero xs
  copy_to (b ∷ buf) (suc off) (x ∷ xs) = b ∷ copy_to buf off (x ∷ xs)

  pub length-copy_to :
      (buf : List A) (off : ℕ) (xs : List A) → length (copy_to buf off xs) ≡ length buf
  unfolding copy_to
  length-copy_to buf off [] = refl
  length-copy_to [] off (x ∷ xs) = refl
  length-copy_to (b ∷ buf) zero (x ∷ xs) = ap suc (length-copy_to buf zero xs)
  length-copy_to (b ∷ buf) (suc off) (x ∷ xs) = ap suc (length-copy_to buf off (x ∷ xs))

  pub get_or-copy_to_in :
      (buf : List A) (off : ℕ) (xs : List A) (i : ℕ) (d : A)
      → i < length xs
      → off + length xs ≤ length buf
      → get_or (copy_to buf off xs) (off + i) d ≡ get_or xs i d
  unfolding copy_to
  get_or-copy_to_in buf off [] i d h r = absurd (omega arith)
  get_or-copy_to_in [] off (x ∷ xs) i d h r = absurd (omega arith)
  get_or-copy_to_in (b ∷ buf) zero (x ∷ xs) zero d h r = refl
  get_or-copy_to_in (b ∷ buf) zero (x ∷ xs) (suc i) d h r =
      rw add.zero (rw add.zero at (get_or-copy_to_in buf zero xs i d (omega arith) (omega arith)))
  get_or-copy_to_in (b ∷ buf) (suc off) (x ∷ xs) i d h r =
      rw add.suc (get_or-copy_to_in buf off (x ∷ xs) i d h (omega arith))

  pub get_or-copy_to_out :
      (buf : List A) (off : ℕ) (xs : List A) (j : ℕ) (d : A)
      → (j < off) ⊎ (off + length xs ≤ j)
      → get_or (copy_to buf off xs) j d ≡ get_or buf j d
  unfolding copy_to
  get_or-copy_to_out buf off [] j d h = refl
  get_or-copy_to_out [] off (x ∷ xs) j d h = refl
  get_or-copy_to_out (b ∷ buf) zero (x ∷ xs) zero d h = absurd (omega arith)
  get_or-copy_to_out (b ∷ buf) zero (x ∷ xs) (suc j) d h =
      get_or-copy_to_out buf zero xs j d (omega arith)
  get_or-copy_to_out (b ∷ buf) (suc off) (x ∷ xs) zero d h = refl
  get_or-copy_to_out (b ∷ buf) (suc off) (x ∷ xs) (suc j) d h =
      get_or-copy_to_out buf off (x ∷ xs) j d (omega arith)

  -- The list `f 0, f 1, …, f (n - 1)`.
  unfoldable pub tabulate : ℕ → (ℕ → A) → List A
  tabulate zero f = []
  tabulate (suc n) f = f 0 ∷ tabulate n (λ i. f (suc i))

  pub length-tabulate : (n : ℕ) (f : ℕ → A) → length (tabulate n f) ≡ n
  unfolding tabulate
  length-tabulate zero f = refl
  length-tabulate (suc n) f = ap suc (length-tabulate n (λ i. f (suc i)))

  pub tabulate_ext :
      (n : ℕ) (f g : ℕ → A) → ((i : ℕ) → i < n → f i ≡ g i) → tabulate n f ≡ tabulate n g
  unfolding tabulate
  tabulate_ext zero f g h = refl
  tabulate_ext (suc n) f g h =
      ap₂ ◌∷◌ (h 0 (omega arith)) (tabulate_ext n _ _ (λ i p. h (suc i) (omega arith)))

  pub tabulate-get_or : (xs : List A) (d : A) → tabulate (length xs) (λ i. get_or xs i d) ≡ xs
  unfolding tabulate
  tabulate-get_or [] d = refl
  tabulate-get_or (x ∷ xs) d = ap (λ t. x ∷ t) (tabulate-get_or xs d)

  pub tabulate-append :
      (m n : ℕ) (f : ℕ → A) → tabulate (m + n) f ≡ tabulate m f ++ tabulate n (λ i. f (m + i))
  unfolding tabulate
  tabulate-append zero n f = simp add.zero
  tabulate-append (suc m) n f = simp (add.suc, tabulate-append m n (λ i. f (suc i)))

  pub get_or-take :
      (n : ℕ) (xs : List A) (i : ℕ) (d : A) → i < n → get_or (take n xs) i d ≡ get_or xs i d
  get_or-take zero xs i d h = absurd (omega arith)
  get_or-take (suc n) [] i d h = refl
  get_or-take (suc n) (x ∷ xs) zero d h = refl
  get_or-take (suc n) (x ∷ xs) (suc i) d h = get_or-take n xs i d (omega arith)

  pub get_or-drop :
      (n : ℕ) (xs : List A) (i : ℕ) (d : A) → get_or (drop n xs) i d ≡ get_or xs (n + i) d
  get_or-drop zero xs i d = rw zero-add
  get_or-drop (suc n) [] i d = refl
  get_or-drop (suc n) (x ∷ xs) i d = rw add.suc (get_or-drop n xs i d)

  pub get_or-append_left :
      (xs ys : List A) (i : ℕ) (d : A) → i < length xs → get_or (xs ++ ys) i d ≡ get_or xs i d
  get_or-append_left [] ys i d h = absurd (omega arith)
  get_or-append_left (x ∷ xs) ys zero d h = refl
  get_or-append_left (x ∷ xs) ys (suc i) d h = get_or-append_left xs ys i d (omega arith)

  pub get_or-append_right :
      (xs ys : List A) (i : ℕ) (d : A) → get_or (xs ++ ys) (length xs + i) d ≡ get_or ys i d
  get_or-append_right [] ys i d = rw zero-add
  get_or-append_right (x ∷ xs) ys i d = rw add.suc (get_or-append_right xs ys i d)

  pub take-tabulate : (n c : ℕ) (f : ℕ → A) → n ≤ c → take n (tabulate c f) ≡ tabulate n f
  unfolding tabulate
  take-tabulate zero c f h = refl
  take-tabulate (suc n) zero f h = absurd (omega arith)
  take-tabulate (suc n) (suc c) f h =
      ap (λ t. f 0 ∷ t) (take-tabulate n c (λ i. f (suc i)) (omega arith))

  pub drop-tabulate :
      (n m : ℕ) (f : ℕ → A) → drop n (tabulate (n + m) f) ≡ tabulate m (λ i. f (n + i))
  unfolding tabulate
  drop-tabulate zero m f = simp add.zero
  drop-tabulate (suc n) m f = simp (add.suc, drop-tabulate n m (λ i. f (suc i)))

  pub tabulate_all :
      (n : ℕ) (xs : List A) (d : A) → length xs ≡ n → tabulate n (λ i. get_or xs i d) ≡ xs
  tabulate_all n xs d e = rw (← e) (tabulate-get_or xs d)

  pub nil_of_length : (xs : List A) → length xs ≡ 0 → xs ≡ []
  nil_of_length [] h = refl
  nil_of_length (x ∷ xs) h = absurd (omega arith)
