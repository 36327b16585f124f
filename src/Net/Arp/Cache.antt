-- ===== src/Net/Arp/Cache.antt =====
-- The cache of `net/arp.c` as a list of pairs, in the order of arrival.
use johnbeauty_os.Prelude.{
  ℕ, zero, suc, ◌+◌, ◌≤◌, ◌<◌, ◌≡◌, ◌≢◌, ◌∙◌, refl, sym, ap, ap₂, not, ◌&&◌, List, [], ◌∷◌, ◌++◌,
  arith, ◌==◌, ltb, if◌then◌else◌, if_true, if_false, if_intro, Bool-cases, inl, inr, get_or, set,
  length, length-set, tabulate, tabulate_ext, tabulate-append, length-tabulate,
}
use johnbeauty_os.Net.Arp.{
  mac_to_uint64, unresolved, Message, Arp, for_us, reply_to, learn, on_ether_frame_received, scan,
  get_mac_from_cache,
}

pub record IsCache (self : Arp) : Type 0 where
  pub ips : length self.ip_cache ≡ 128
  pub macs : length self.mac_cache ≡ 128
  pub within : self.num_cache_entries ≤ 128

-- The pairs of an address and a hardware address that the cache holds.
unfoldable pub entries : Arp → List (ℕ × ℕ)
unfolding tabulate
entries self =
    tabulate self.num_cache_entries (λ i. (get_or self.ip_cache i 0, get_or self.mac_cache i 0))

-- The first entry for an address.
unfoldable pub find : List (ℕ × ℕ) → ℕ → ℕ
find [] ip = unresolved
find ((a, m) ∷ es) ip = if a == ip then m else find es ip

entry : Arp → ℕ → ℕ × ℕ
entry self i = (get_or self.ip_cache i 0, get_or self.mac_cache i 0)

scan-find :
    (self : Arp) (ip i n : ℕ) (f : ℕ → ℕ × ℕ)
    → ((j : ℕ) → entry self (i + j) ≡ f j)
    → scan self ip i n ≡ find (tabulate n f) ip
unfolding scan find tabulate entry
scan-find self ip i zero f h = refl
scan-find self ip i (suc n) f h =
    let here : entry self i ≡ f 0 = ap (entry self) (omega arith) ∙ h 0 in
    let rest =
      scan-find self ip (i + 1) n (λ j. f (suc j))
        (λ j. ap (entry self) (omega arith) ∙ h (suc j)) in
    λ k. if (here k).0 == ip then (here k).1 else rest k

-- A lookup gives the first entry for the address, or the mark of an unresolved one.
pub get_mac_from_cache-find :
    (self : Arp) (ip : ℕ) → get_mac_from_cache self ip ≡ find (entries self) ip
unfolding get_mac_from_cache entries entry
get_mac_from_cache-find self ip =
    scan-find self ip 0 self.num_cache_entries _ (λ j. ap (entry self) (omega arith))

get_or-set_self : (xs : List ℕ) (i v : ℕ) → i < length xs → get_or (set xs i v) i 0 ≡ v
get_or-set_self [] i v h = absurd (omega arith)
get_or-set_self (x ∷ xs) zero v h = refl
get_or-set_self (x ∷ xs) (suc i) v h = get_or-set_self xs i v (omega arith)

get_or-set_before : (xs : List ℕ) (i j v : ℕ) → j < i → get_or (set xs i v) j 0 ≡ get_or xs j 0
get_or-set_before [] i j v h = refl
get_or-set_before (x ∷ xs) zero j v h = absurd (omega arith)
get_or-set_before (x ∷ xs) (suc i) zero v h = refl
get_or-set_before (x ∷ xs) (suc i) (suc j) v h = get_or-set_before xs i j v (omega arith)

length-entries : (self : Arp) → length (entries self) ≡ self.num_cache_entries
unfolding entries
length-entries self = length-tabulate self.num_cache_entries _

-- A pair is remembered behind those before it, up to 128.
unfoldable pub remember : List (ℕ × ℕ) → ℕ × ℕ → List (ℕ × ℕ)
remember es p = if ltb (length es) 128 then es ++ (p ∷ []) else es

learned : Arp → Message → Arp
learned self arp = record {
  ip_cache = set self.ip_cache self.num_cache_entries arp.src_ip;
  mac_cache = set self.mac_cache self.num_cache_entries (mac_to_uint64 arp.src_mac);
  num_cache_entries = self.num_cache_entries + 1;
}

learned-entries :
    (self : Arp) (arp : Message)
    → IsCache self
    → self.num_cache_entries < 128
    → entries (learned self arp) ≡ entries self ++ ((arp.src_ip, mac_to_uint64 arp.src_mac) ∷ [])
unfolding entries learned tabulate
learned-entries self arp c room =
    let n = self.num_cache_entries in
    let m = mac_to_uint64 arp.src_mac in
    let here : n + 0 ≡ n = omega arith in
    let at_end = get_or-set_self self.ip_cache n arp.src_ip (omega (arith, c.ips)) in
    let at_end' = get_or-set_self self.mac_cache n m (omega (arith, c.macs)) in
    tabulate-append n 1 _
    ∙ ap₂ (λ xs x. xs ++ (x ∷ []))
        (tabulate_ext n _ _ (λ i l. λ k. (
          get_or-set_before self.ip_cache n i arp.src_ip l k,
          get_or-set_before self.mac_cache n i m l k,
        )))
        (λ k. (
          (ap (λ z. get_or (set self.ip_cache n arp.src_ip) z 0) here ∙ at_end) k,
          (ap (λ z. get_or (set self.mac_cache n m) z 0) here ∙ at_end') k,
        ))

learned-IsCache :
    (self : Arp) (arp : Message)
    → IsCache self
    → self.num_cache_entries < 128
    → IsCache (learned self arp)
unfolding learned
learned-IsCache self arp c room = record {
  ips = length-set self.ip_cache _ _ ∙ c.ips;
  macs = length-set self.mac_cache _ _ ∙ c.macs;
  within = omega arith;
}

-- The cache stays within its arrays, and a reply is remembered.
pub learn-entries :
    (self : Arp) (arp : Message)
    → IsCache self
    → IsCache (learn self arp)
      × (entries (learn self arp) ≡ remember (entries self) (arp.src_ip, mac_to_uint64 arp.src_mac))
unfolding learn remember learned
learn-entries self arp c =
    let n = self.num_cache_entries in
    let p : ℕ × ℕ = (arp.src_ip, mac_to_uint64 arp.src_mac) in
    let size = length-entries self in
    elim (Bool-cases (ltb n 128)) [
      | inl yes_room ↦
          let e : learn self arp ≡ learned self arp = if_true (ltb n 128) _ _ yes_room in
          let e' =
            if_true (ltb (length (entries self)) 128) (entries self ++ (p ∷ [])) (entries self)
              (ground (arith, size, yes_room)) in
          (
            rw e (learned-IsCache self arp c (ground arith)),
            rw (e, e') (learned-entries self arp c (ground arith)),
          )
      | inr full ↦
          let e : learn self arp ≡ self = if_false (ltb n 128) _ _ full in
          let e' =
            if_false (ltb (length (entries self)) 128) (entries self ++ (p ∷ [])) (entries self)
              (ground (arith, size, full)) in
          (rw e c, rw (e, e') refl)
    ]

find-kept :
    (es more : List (ℕ × ℕ)) (ip : ℕ) → find es ip ≢ unresolved → find (es ++ more) ip ≡ find es ip
unfolding find
find-kept [] more ip h = absurd (h refl)
find-kept ((a, m) ∷ es) more ip h = ground (arith, find-kept es more ip)

-- The handler in terms of its own tests, on a cache within its arrays, which it stays in.
on_ether_frame_received_lem :
    (my_ip my_mac len : ℕ) (self : Arp) (arp : Message)
    → IsCache self
    → let (back, self', arp') = on_ether_frame_received my_ip my_mac len self arp in
      let ours = not (ltb len 28) && for_us my_ip arp in
      IsCache self'
      × (entries self' ≡ (
          if ours && arp.command == 0x0200
          then remember (entries self) (arp.src_ip, mac_to_uint64 arp.src_mac)
          else entries self))
      × (back ≡ (ours && arp.command == 0x0100))
      × (arp' ≡ (if back then reply_to my_ip my_mac arp else arp))
unfolding on_ether_frame_received
on_ether_frame_received_lem my_ip my_mac len self arp c = ground (arith, learn-entries self arp c)

remember-kept :
    (es : List (ℕ × ℕ)) (p : ℕ × ℕ) (ip : ℕ)
    → find es ip ≢ unresolved
    → find (remember es p) ip ≡ find es ip
unfolding remember
remember-kept es p ip known =
    if_intro (λ fs. find fs ip ≡ find es ip) (ltb (length es) 128) (es ++ (p ∷ [])) es
      (λ _. find-kept es (p ∷ []) ip known) (λ _. refl)

-- A hardware address that a cache within its arrays knows is never replaced: whatever message
-- arrives, a lookup gives what it gave before.
pub known_kept :
    (my_ip my_mac len ip : ℕ) (self : Arp) (arp : Message)
    → IsCache self
    → get_mac_from_cache self ip ≢ unresolved
    → let (_, self', _) = on_ether_frame_received my_ip my_mac len self arp in
      get_mac_from_cache self' ip ≡ get_mac_from_cache self ip
known_kept my_ip my_mac len ip self arp c known =
    let (_, self', _) = on_ether_frame_received my_ip my_mac len self arp in
    let now = get_mac_from_cache-find self' ip in
    let before = get_mac_from_cache-find self ip in
    let p : ℕ × ℕ = (arp.src_ip, mac_to_uint64 arp.src_mac) in
    let kept = remember-kept (entries self) p ip (λ e. known (before ∙ e)) in
    let (_, e, _, _) = on_ether_frame_received_lem my_ip my_mac len self arp c in
    now
    ∙ ap (λ es. find es ip) e
    ∙ if_intro (λ es. find es ip ≡ find (entries self) ip)
        ((not (ltb len 28) && for_us my_ip arp) && arp.command == 0x0200)
        (remember (entries self) p) (entries self) (λ _. kept) (λ _. refl)
    ∙ sym before
