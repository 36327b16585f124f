-- ===== src/Net/Arp/Resolve.antt =====
-- The waiting of `jlos_arp_resolve`: what it returns as a function of the caches that its looks see.
use johnbeauty_os.Prelude.{
  ℕ, zero, suc, ◌+◌, ◌≤◌, ◌<◌, ◌≡◌, ◌≢◌, ◌∙◌, sym, ap, Bool, none, some, arith, ◌==◌, if_intro,
  if_true, if_false, Option, ◌^◌, ◌⊎◌, inl, inr, false, true, length, refl, dec_lt, ℕ_discrete,
}
use johnbeauty_os.Net.Arp.{
  unresolved, Message, Arp, uint64_to_mac, get_mac_from_cache, request_mac_address, request_for,
  poll, resolve,
}
use johnbeauty_os.Net.Arp.Answers.{IsOurs, value_of, value_of-uint64_to_mac}

module _ (seen : ℕ → Arp) (ip : ℕ) where
  -- What the k-th look finds.
  abbrev pub look : ℕ → ℕ
  look k = get_mac_from_cache (seen k) ip

  poll_first :
      (k left n : ℕ)
      → n ≤ left
      → ((j : ℕ) → j < n → look (k + j) ≡ unresolved)
      → look (k + n) ≢ unresolved
      → poll seen ip (k + 1) left (look k) ≡ look (k + n)
  unfolding poll
  poll_first k zero zero le none_before found = ap look (omega arith)
  poll_first k (suc left) zero le none_before found =
      let here : look (k + 0) ≡ look k = ap look {x = k + 0} {y = k} (omega arith) in
      if_false (look k == unresolved) _ _ (ground (arith, here, found)) ∙ sym here
  poll_first k zero (suc n) le none_before found = absurd (omega arith)
  poll_first k (suc left) (suc n) le none_before found =
      let here : look (k + 0) ≡ look k = ap look {x = k + 0} {y = k} (omega arith) in
      let later =
        poll_first (k + 1) left n (omega arith)
          (λ j l.
            ap look {x = k + 1 + j} {y = k + suc j} (omega arith)
            ∙ none_before (suc j) (omega arith))
          (λ e. found (ap look {x = k + suc n} {y = k + 1 + n} (omega arith) ∙ e)) in
      if_true (look k == unresolved) _ _ (ground (arith, here, none_before 0 (omega arith)))
      ∙ later
      ∙ ap look {x = k + 1 + n} {y = k + suc n} (omega arith)

  poll_timeout :
      (k left : ℕ)
      → ((j : ℕ) → j ≤ left → look (k + j) ≡ unresolved)
      → poll seen ip (k + 1) left (look k) ≡ unresolved
  unfolding poll
  poll_timeout k zero all = ap look {x = k} {y = k + 0} (omega arith) ∙ all 0 (omega arith)
  poll_timeout k (suc left) all =
      let here : look k ≡ unresolved =
        ap look {x = k} {y = k + 0} (omega arith) ∙ all 0 (omega arith) in
      if_true (look k == unresolved) _ _ (ground (arith, here))
      ∙ poll_timeout (k + 1) left
          (λ j l. ap look {x = k + 1 + j} {y = k + suc j} (omega arith) ∙ all (suc j) (omega arith))

  -- The first number up to a bound where a look finds something, or none of them does.
  first_found :
      (m : ℕ)
      → ((n : ℕ) × (n ≤ m) × ((j : ℕ) → j < n → look j ≡ unresolved) × (look n ≢ unresolved))
        ⊎ ((j : ℕ) → j ≤ m → look j ≡ unresolved)
  first_found zero = elim (ℕ_discrete (look 0) unresolved) [
    | yes e ↦ inr (λ j l. ap look {x = j} {y = 0} (omega arith) ∙ e)
    | no found ↦ inl (0, omega arith, (λ j l. absurd (omega arith)), found)
  ]
  first_found (suc m) = elim (first_found m) [
    | inl (n, le, before, found) ↦ inl (n, omega arith, before, found)
    | inr none_yet ↦ elim (ℕ_discrete (look (suc m)) unresolved) [
      | yes e ↦ inr (λ j l. elim (dec_lt j (suc m)) [
        | yes le ↦ none_yet j (omega arith)
        | no gt ↦ ap look {x = j} {y = suc m} (omega arith) ∙ e
      ])
      | no found ↦ inl (suc m, omega arith, (λ j l. none_yet j (omega arith)), found)
    ]
  ]

  module _ (timeout : ℕ) (allocated : Bool) (my_ip my_mac : ℕ) where
    -- The request, broadcast, where it can be allocated: a whole message that asks who has the
    -- address, from this machine.
    pub data IsAsked : Option (ℕ × Message) → Type 0 where
      not_allocated : allocated ≡ false → IsAsked none
      asked :
          {arp : Message}
          → allocated ≡ true
          → IsOurs ip 28 arp
          → arp.command ≡ 0x0100
          → arp.src_ip ≡ my_ip
          → length arp.src_mac ≡ 6
          → value_of arp.src_mac ≡ my_mac
          → IsAsked (some (0xFFFFFFFFFFFF, arp))

    request-IsAsked : my_mac < 2 ^ 48 → IsAsked (request_mac_address allocated my_ip my_mac ip)
    unfolding request_mac_address request_for uint64_to_mac
    request-IsAsked small =
        let whole : IsOurs ip 28 (request_for my_ip my_mac ip) = record {
          whole = omega arith;
          hardware = refl;
          protocol = refl;
          hardware_size = refl;
          protocol_size = refl;
          address = refl;
        } in
        let request : ℕ × Message = (unresolved, request_for my_ip my_mac ip) in
        if_intro IsAsked allocated (some request) none
          (λ e. asked e whole refl refl refl (value_of-uint64_to_mac my_mac small))
          (λ e. not_allocated e)

    resolve_later :
        look 0 ≡ unresolved
        → resolve timeout allocated my_ip my_mac seen ip
          ≡ (poll seen ip 2 timeout (look 1), request_mac_address allocated my_ip my_mac ip)
    unfolding resolve
    resolve_later first = if_true (look 0 == unresolved) _ _ (ground (arith, first))

    -- What a resolve comes to.
    pub data IsResolved : ℕ × Option (ℕ × Message) → Type 0 where
      known : look 0 ≢ unresolved → IsResolved (look 0, none)
      answered :
          {n : ℕ} {sent : Option (ℕ × Message)}
          → n ≤ timeout
          → ((j : ℕ) → j ≤ n → look j ≡ unresolved)
          → look (n + 1) ≢ unresolved
          → IsAsked sent
          → IsResolved (look (n + 1), sent)
      timed_out :
          {sent : Option (ℕ × Message)}
          → ((j : ℕ) → j ≤ timeout + 1 → look j ≡ unresolved)
          → IsAsked sent
          → IsResolved (0xFFFFFFFFFFFF, sent)

    -- A resolve at a machine whose hardware address has 48 bits, whatever the caches that its looks
    -- see. Where the first look finds the address, that is the result, and nothing is sent. Where
    -- it does not, a request for the address is broadcast from this machine, if it can be
    -- allocated, and the result is what the first successful look finds among the one right after
    -- it and the `timeout` ones of the loop, or the mark of an unresolved address, where all of
    -- them fail.
    pub resolve-IsResolved :
        my_mac < 2 ^ 48 → IsResolved (resolve timeout allocated my_ip my_mac seen ip)
    unfolding resolve
    resolve-IsResolved small =
        let ask = request-IsAsked small in
        elim (first_found (suc timeout)) [
          | inl (zero, le, before, found) ↦
              let e : resolve timeout allocated my_ip my_mac seen ip ≡ (look 0, none) =
                if_false (look 0 == unresolved) _ _ (ground (arith, found)) in
              rw e (known found)
          | inl (suc n, le, before, found) ↦
              let found' : look (n + 1) ≢ unresolved =
                λ e. found (ap look {x = suc n} {y = n + 1} (omega arith) ∙ e) in
              let later =
                poll_first 1 timeout n (omega arith)
                  (λ j l.
                    ap look {x = 1 + j} {y = suc j} (omega arith) ∙ before (suc j) (omega arith))
                  (λ e. found (ap look {x = suc n} {y = 1 + n} (omega arith) ∙ e)) in
              let there : poll seen ip 2 timeout (look 1) ≡ look (n + 1) =
                later ∙ ap look {x = 1 + n} {y = n + 1} (omega arith) in
              rw (resolve_later (before 0 (omega arith)), there)
                (answered (omega arith) (λ j l. before j (omega arith)) found' ask)
          | inr none_found ↦
              let later : poll seen ip 2 timeout (look 1) ≡ unresolved =
                poll_timeout 1 timeout (λ j l.
                  ap look {x = 1 + j} {y = suc j} (omega arith)
                  ∙ none_found (suc j) (omega arith)) in
              rw (resolve_later (none_found 0 (omega arith)), later)
                (timed_out (λ j l. none_found j (omega arith)) ask)
        ]
