-- ===== src/Kernel/Pipe/Ring.antt =====
-- The buffer of the pipe of `kernel/ipc.c` as a ring: the bytes it holds after a chunk.
use native.Mathlib.Nat.{mod-lt, mod-eq_of_lt, mod-eq-sub-mod, mod-add-mod}
use johnbeauty_os.Prelude.{
  ℕ, zero, suc, ◌+◌, ◌-◌, ◌%◌, ◌^◌, ◌≤◌, ◌<◌, ◌≡◌, ◌≢◌, ◌∙◌, refl, sym, ap, ap₂, List, [], ◌∷◌,
  ◌++◌, arith, ltb, if◌then◌else◌, if_intro, set, get_or, get_or-set_self, get_or-set_ne, length,
  length-set, take, tabulate, tabulate_ext, tabulate-append, add32, append_assoc, append-nil,
}
use johnbeauty_os.Kernel.Pipe.{limit_range, put_bytes, get_bytes}

-- The `c` bytes from the reading position on.
unfoldable pub held : ℕ → List ℕ → ℕ → ℕ → List ℕ
held size buffer r c = tabulate c (λ i. get_or buffer ((r + i) % size) 0)

wrap_once : (s x : ℕ) → x < s + s → x % s ≡ (if ltb x s then x else x - s)
wrap_once s x h =
    if_intro (λ y. x % s ≡ y) (ltb x s) _ _ (λ t. mod-eq_of_lt (ground arith))
      (λ t. mod-eq-sub-mod (ground arith) ∙ mod-eq_of_lt (ground arith))

apart : (s r i c : ℕ) → r < s → i < c → c < s → (r + c) % s ≢ (r + i) % s
apart s r i c a b d e =
    ground (arith, wrap_once s (r + i) (omega arith), wrap_once s (r + c) (omega arith))

limit_next : (s x : ℕ) → s < 2 ^ 32 → 0 < s → limit_range (x % s) s ≡ (x + 1) % s
limit_next s x small pos =
    let low = mod-lt x pos in
    let word : add32 (x % s) 1 ≡ x % s + 1 = omega arith in ap (λ t. t % s) word ∙ mod-add-mod x s 1

limit_small : (s r : ℕ) → s < 2 ^ 32 → r < s → limit_range r s ≡ (r + 1) % s
limit_small s r small a = let word : add32 r 1 ≡ r + 1 = omega arith in ap (λ t. t % s) word

module _ (s : ℕ) (small : s < 2 ^ 32) where
  held_push :
      (buffer : List ℕ) (r c x : ℕ)
      → length buffer ≡ s
      → r < s
      → c < s
      → held s (set buffer ((r + c) % s) x) r (c + 1) ≡ held s buffer r c ++ (x ∷ [])
  unfolding held tabulate
  held_push buffer r c x len a b =
      let w : ℕ = (r + c) % s in
      let inside : w < length buffer = omega (arith, len, mod-lt (r + c) {m = s} (omega arith)) in
      tabulate-append c 1 _
      ∙ ap₂ (λ xs y. xs ++ (y ∷ []))
          (tabulate_ext c _ _
            (λ i h. get_or-set_ne buffer w ((r + i) % s) x 0 (apart s r i c a h b)))
          (ap (λ t. get_or (set buffer w x) (t % s) 0) (omega arith)
            ∙ get_or-set_self buffer w x 0 inside)

  pub put_bytes-held :
      (buffer : List ℕ) (r c w : ℕ) (xs : List ℕ) (n : ℕ)
      → w ≡ (r + c) % s
      → length buffer ≡ s
      → r < s
      → c + n ≤ s
      → n ≤ length xs
      → let (buffer', pos) = put_bytes s buffer w xs n in
        (length buffer' ≡ s)
        × (pos ≡ (r + (c + n)) % s)
        × (held s buffer' r (c + n) ≡ held s buffer r c ++ take n xs)
  unfolding put_bytes
  put_bytes-held buffer r c w xs zero e len a b h = (
    len,
    e ∙ ap (λ t. (r + t) % s) (omega arith),
    ap (held s buffer r) (omega arith) ∙ sym (append-nil _),
  )
  put_bytes-held buffer r c w [] (suc n) e len a b h = absurd (omega arith)
  put_bytes-held buffer r c w (x ∷ xs) (suc n) e len a b h =
      let pos : limit_range w s ≡ (r + (c + 1)) % s =
        ap (λ t. limit_range t s) e
        ∙ limit_next s (r + c) small (omega arith)
        ∙ ap (λ t. t % s) (omega arith) in
      let next =
        put_bytes-held (set buffer w x) r (c + 1) (limit_range w s) xs n pos
          (length-set buffer w x ∙ len) a (omega arith) (omega arith) in
      let more : c + 1 + n ≡ c + suc n = omega arith in
      (
        next.0,
        next.1 ∙ ap (λ t. (r + t) % s) more,
        ap (held s _ r) (sym more)
            ∙ next.2
            ∙ ap (λ t. held s (set buffer t x) r (c + 1) ++ take n xs) e
            ∙ ap (λ t. t ++ take n xs) (held_push buffer r c x len a (omega arith))
            ∙ append_assoc (held s buffer r c) (x ∷ []) (take n xs),
      )

  held_shift :
      (buffer : List ℕ) (r k : ℕ)
      → r < s
      → held s buffer r (suc k) ≡ get_or buffer r 0 ∷ held s buffer (limit_range r s) k
  unfolding held tabulate
  held_shift buffer r k a =
      let here : (r + 0) % s ≡ r = ap (λ t. t % s) (omega arith) ∙ mod-eq_of_lt a in
      let place : (i : ℕ) → (r + suc i) % s ≡ (limit_range r s + i) % s = λ i.
        ap (λ t. t % s) (omega arith)
        ∙ sym (mod-add-mod (r + 1) s i)
        ∙ ap (λ t. (t + i) % s) (sym (limit_small s r small a)) in
      ap₂ (λ y ys. y ∷ ys) (ap (λ t. get_or buffer t 0) here)
        (tabulate_ext k _ _ (λ i h. ap (λ t. get_or buffer t 0) (place i)))

  pub get_bytes-held :
      (buffer : List ℕ) (r n m : ℕ)
      → r < s
      → let (xs, pos) = get_bytes s buffer r n in
        (length xs ≡ n)
        × (pos ≡ (r + n) % s)
        × (held s buffer r (n + m) ≡ xs ++ held s buffer pos m)
  unfolding get_bytes
  get_bytes-held buffer r zero m a = (
    refl,
    sym (ap (λ t. t % s) (omega arith) ∙ mod-eq_of_lt a),
    ap (held s buffer r) (omega arith),
  )
  get_bytes-held buffer r (suc n) m a =
      let r' : ℕ = limit_range r s in
      let next = get_bytes-held buffer r' n m (mod-lt (add32 r 1) {m = s} (omega arith)) in
      (
        ap suc next.0,
        next.1
            ∙ ap (λ t. (t + n) % s) (limit_small s r small a)
            ∙ mod-add-mod (r + 1) s n
            ∙ ap (λ t. t % s) (omega arith),
        ap (held s buffer r) (omega arith)
            ∙ held_shift buffer r (n + m) a
            ∙ ap (λ t. get_or buffer r 0 ∷ t) next.2,
      )
