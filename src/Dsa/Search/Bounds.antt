-- ===== src/Dsa/Search/Bounds.antt =====
-- What the searches of `dsa/search.c` find in a sorted array.
use johnbeauty_os.Prelude.{
  ℕ, zero, suc, ◌+◌, ◌-◌, ◌/◌, ◌≤◌, ◌<◌, ◌≡◌, ◌≢◌, ◌∙◌, inl, inr, refl, sym, ap, Bool, true, false,
  not, ◌&&◌, none, some, arith, ◌==◌, ltb, if_intro, if_true, Bool-cases,
}
use johnbeauty_os.Dsa.Search.{
  Sign, less, equal, greater, is_greater, is_less, is_equal, narrow, lower_bound, upper_bound,
  bsearch,
}

sign_equal : (s : Sign) → is_greater s ≡ false → not (is_less s) ≡ true → s ≡ equal
unfolding is_greater is_less
sign_equal less g l = cc
sign_equal equal g l = refl
sign_equal greater g l = cc

equal_sign : (s : Sign) → is_equal s ≡ true → s ≡ equal
unfolding is_equal
equal_sign less h = cc
equal_sign equal h = refl
equal_sign greater h = cc

-- `r` is where `behind` changes from true to false among `count` elements.
pub record IsBoundary {ℓ} {A : Type ℓ} (element : ℕ → A) (behind : A → Bool) (count r : ℕ)
    : Type ℓ where
  pub inside : r ≤ count
  pub before : (i : ℕ) → i < r → behind (element i) ≡ true
  pub from : (i : ℕ) → r ≤ i → i < count → behind (element i) ≡ false

module _ {ℓ} {A : Type ℓ} (element : ℕ → A) where
  -- The elements of which `behind` is true come first.
  unfoldable pub IsSplit : (A → Bool) → ℕ → Type 0
  IsSplit behind count =
      (i j : ℕ) → i ≤ j → j < count → behind (element j) ≡ true → behind (element i) ≡ true

  module _ (behind : A → Bool) (count : ℕ) (split : IsSplit behind count) where
    not_after :
        (m i : ℕ) → m ≤ i → i < count → behind (element m) ≡ false → behind (element i) ≡ false
    unfolding IsSplit
    not_after m i le u no_m = elim (Bool-cases (behind (element i))) [
      | inl here ↦ absurd (let m_behind = split m i le u here in cc)
      | inr no_i ↦ no_i
    ]

    narrow-IsBoundary :
        (fuel lo n : ℕ)
        → n ≤ fuel
        → lo + n ≤ count
        → ((i : ℕ) → i < lo → behind (element i) ≡ true)
        → ((i : ℕ) → lo + n ≤ i → i < count → behind (element i) ≡ false)
        → IsBoundary element behind count (narrow element behind fuel lo n)
    unfolding narrow IsSplit
    narrow-IsBoundary zero lo n enough fits below above = record {
      inside = omega arith;
      before = below;
      from = λ i l u. above i (omega arith) u;
    }
    narrow-IsBoundary (suc fuel) lo n enough fits below above =
        let m : ℕ = lo + n / 2 in
        if_intro (IsBoundary element behind count) (n == 0) _ _
          (λ e. record {
            inside = omega arith;
            before = below;
            from = λ i l u. above i (let z : n ≡ 0 = ground (arith, e) in omega arith) u;
          })
          (λ e.
            let pos : n ≢ 0 = ground (arith, e) in
            if_intro (IsBoundary element behind count) (behind (element m)) _ _
              (λ here.
                narrow-IsBoundary fuel (m + 1) (n - (n / 2 + 1)) (omega arith) (omega arith)
                  (λ i l. split i m (omega arith) (omega arith) here)
                  (λ i l u. above i (omega arith) u))
              (λ not_behind.
                narrow-IsBoundary fuel lo (n / 2) (omega arith) (omega arith) below
                  (λ i l u. not_after m i (omega arith) u not_behind)))

  module _ {κ} {K : Type κ} (cmp : K → A → Sign) (key : K) (count : ℕ) where
    -- The array is sorted as far as the key can tell.
    pub record IsSorted : Type 0 where
      pub greater_first : IsSplit (λ x. is_greater (cmp key x)) count
      pub less_last : IsSplit (λ x. not (is_less (cmp key x))) count

    -- In a sorted array the lower bound is the first element that is not before the key, or the end.
    pub lower_bound-IsBoundary :
        IsSorted
        → IsBoundary element (λ x. is_greater (cmp key x)) count (lower_bound element cmp key count)
    unfolding lower_bound
    lower_bound-IsBoundary s =
        narrow-IsBoundary (λ x. is_greater (cmp key x)) count s.greater_first count 0 count
          (omega arith) (omega arith) (λ i l. absurd (omega arith)) (λ i l u. absurd (omega arith))

    -- In a sorted array the upper bound is the first element behind the key, or the end.
    pub upper_bound-IsBoundary :
        IsSorted
        → IsBoundary element
            (λ x. not (is_less (cmp key x)))
            count
            (upper_bound element cmp key count)
    unfolding upper_bound
    upper_bound-IsBoundary s =
        narrow-IsBoundary (λ x. not (is_less (cmp key x))) count s.less_last count 0 count
          (omega arith) (omega arith) (λ i l. absurd (omega arith)) (λ i l u. absurd (omega arith))

    first_equal :
        (r i : ℕ)
        → IsSorted
        → IsBoundary element (λ x. is_greater (cmp key x)) count r
        → i < count
        → cmp key (element i) ≡ equal
        → (r ≤ i) × (cmp key (element r) ≡ equal)
    unfolding is_greater is_less IsSplit
    first_equal r i s b l e =
        let le : r ≤ i = elim (Bool-cases (ltb i r)) [
          | inl lt ↦ absurd (let g = ap is_greater (sym e) ∙ b.before i (ground arith) in cc)
          | inr ge ↦ ground (arith, ge)
        ] in
        (
          le,
          sign_equal (cmp key (element r)) (b.from r (omega arith) (omega arith))
              (s.less_last r i le l (ap (λ x. not (is_less x)) e)),
        )

    -- In a sorted array the search for a key that is there finds the first element equal to it, and
    -- for a key that is not there finds nothing.
    pub bsearch_finds_first :
        IsSorted
        → ((i : ℕ)
            → i < count
            → cmp key (element i) ≡ equal
            → (r : ℕ) × (bsearch element cmp key count ≡ some r)
              × (r ≤ i)
              × (cmp key (element r) ≡ equal))
          × (((i : ℕ) → i < count → cmp key (element i) ≢ equal)
              → bsearch element cmp key count ≡ none)
    unfolding bsearch is_equal
    bsearch_finds_first s =
        let r : ℕ = lower_bound element cmp key count in
        let b = lower_bound-IsBoundary s in
        (
          λ i l e. (
            r,
            let (le, q) = first_equal r i s b l e in
                if_true (ltb r count && is_equal (cmp key (element r))) _ _
                  (ground (arith, le, ap is_equal q)),
            (first_equal r i s b l e).0,
            (first_equal r i s b l e).1,
          ),
          λ missing.
              if_intro (λ x. x ≡ none) (ltb r count && is_equal (cmp key (element r))) (some r) none
                (λ hit.
                  absurd (missing r (ground (arith, hit)) (equal_sign _ (ground (arith, hit)))))
                (λ miss. refl),
        )
