-- ===== src/Net/Arp/Answers.antt =====
-- What `jlos_arp_on_ether_frame_received` does with a message, without the handler's own functions.
use johnbeauty_os.Prelude.{
  ℕ, ◌+◌, ◌*◌, ◌^◌, ◌≤◌, ◌<◌, ◌≡◌, ◌≢◌, ◌∙◌, refl, ap, Bool, true, false, List, [], ◌∷◌, arith,
  ◌==◌, ltb, length, if_intro, if◌then◌else◌,
}
use johnbeauty_os.Net.Arp.{
  uint64_to_mac, mac_to_uint64, Message, Arp, for_us, reply_to, learn, on_ether_frame_received,
}
use johnbeauty_os.Net.Arp.Cache.{IsCache, entries, remember, learn-entries}

-- The number that bytes write, the lowest first.
unfoldable pub value_of : List ℕ → ℕ
value_of [] = 0
value_of (b ∷ bs) = b + 256 * value_of bs

-- A message of Ethernet and IPv4, whole, for the machine of that address.
pub record IsOurs (my_ip len : ℕ) (arp : Message) : Type 0 where
  pub whole : 28 ≤ len
  pub hardware : arp.hardware_type ≡ 0x0100
  pub protocol : arp.protocol ≡ 0x0008
  pub hardware_size : arp.hardware_address_size ≡ 6
  pub protocol_size : arp.protocol_address_size ≡ 4
  pub address : arp.dst_ip ≡ my_ip

-- The answer to a request: from this machine to the sender, of the same kind.
pub record IsReply (my_ip my_mac : ℕ) (arp arp' : Message) : Type 0 where
  pub command : arp'.command ≡ 0x0200
  pub to_ip : arp'.dst_ip ≡ arp.src_ip
  pub to_mac : arp'.dst_mac ≡ arp.src_mac
  pub from_ip : arp'.src_ip ≡ my_ip
  pub from_mac_size : length arp'.src_mac ≡ 6
  pub from_mac : value_of arp'.src_mac ≡ my_mac
  pub hardware : arp'.hardware_type ≡ arp.hardware_type
  pub protocol : arp'.protocol ≡ arp.protocol
  pub hardware_size : arp'.hardware_address_size ≡ arp.hardware_address_size
  pub protocol_size : arp'.protocol_address_size ≡ arp.protocol_address_size

-- A number of 48 bits is what its six bytes write.
pub value_of-uint64_to_mac : (m : ℕ) → m < 2 ^ 48 → value_of (uint64_to_mac m) ≡ m
unfolding value_of uint64_to_mac
value_of-uint64_to_mac m h = omega arith

mac_to_uint64-value_of : (mac : List ℕ) → length mac ≡ 6 → mac_to_uint64 mac ≡ value_of mac
unfolding mac_to_uint64 value_of
mac_to_uint64-value_of [] h = absurd (omega arith)
mac_to_uint64-value_of (a ∷ []) h = absurd (omega arith)
mac_to_uint64-value_of (a ∷ b ∷ []) h = absurd (omega arith)
mac_to_uint64-value_of (a ∷ b ∷ c ∷ []) h = absurd (omega arith)
mac_to_uint64-value_of (a ∷ b ∷ c ∷ d ∷ []) h = absurd (omega arith)
mac_to_uint64-value_of (a ∷ b ∷ c ∷ d ∷ e ∷ []) h = absurd (omega arith)
mac_to_uint64-value_of (a ∷ b ∷ c ∷ d ∷ e ∷ f ∷ []) h = omega arith
mac_to_uint64-value_of (a ∷ b ∷ c ∷ d ∷ e ∷ f ∷ g ∷ r) h = absurd (omega arith)

for_us-IsOurs :
    (my_ip len : ℕ) (arp : Message)
    → ltb len 28 ≡ false
    → for_us my_ip arp ≡ true
    → IsOurs my_ip len arp
unfolding for_us
for_us-IsOurs my_ip len arp long ours = record {
  whole = ground arith;
  hardware = ground arith;
  protocol = ground arith;
  hardware_size = ground arith;
  protocol_size = ground arith;
  address = ground arith;
}

IsOurs-for_us : (my_ip len : ℕ) (arp : Message) → IsOurs my_ip len arp → for_us my_ip arp ≡ true
unfolding for_us
IsOurs-for_us my_ip len arp o =
    ground (arith, o.hardware, o.protocol, o.hardware_size, o.protocol_size, o.address)

reply_to-IsReply :
    (my_ip my_mac : ℕ) (arp : Message)
    → my_mac < 2 ^ 48
    → IsReply my_ip my_mac arp (reply_to my_ip my_mac arp)
unfolding reply_to uint64_to_mac
reply_to-IsReply my_ip my_mac arp small = record {
  command = refl;
  to_ip = refl;
  to_mac = refl;
  from_ip = refl;
  from_mac_size = refl;
  from_mac = value_of-uint64_to_mac my_mac small;
  hardware = refl;
  protocol = refl;
  hardware_size = refl;
  protocol_size = refl;
}

-- What the handler can do with a message.
pub data IsAnswered (my_ip my_mac len : ℕ) (self : Arp) (arp : Message)
    : Bool × Arp × Message → Type 0 where
  answers :
      {arp' : Message}
      → IsOurs my_ip len arp
      → arp.command ≡ 0x0100
      → IsReply my_ip my_mac arp arp'
      → IsAnswered my_ip my_mac len self arp (true, self, arp')
  remembers :
      {self' : Arp}
      → IsOurs my_ip len arp
      → arp.command ≡ 0x0200
      → IsCache self'
      → entries self' ≡ remember (entries self) (arp.src_ip, value_of arp.src_mac)
      → IsAnswered my_ip my_mac len self arp (false, self', arp)
  drops :
      (IsOurs my_ip len arp → (arp.command ≢ 0x0100) × (arp.command ≢ 0x0200))
      → IsAnswered my_ip my_mac len self arp (false, self, arp)

-- A message that holds a hardware address of 6 bytes for its sender, on a cache within its arrays,
-- at a machine whose hardware address has 48 bits. A request of at least 28 bytes, of Ethernet and
-- IPv4, for this machine's address is answered by the message turned into the reply from this
-- machine to the sender, and the cache is as before. A reply of that kind is remembered, the
-- sender's address with its hardware address, behind those that are there, up to 128, within the
-- arrays, and is not answered. Every other message changes nothing and is not answered.
pub received :
    (my_ip my_mac len : ℕ) (self : Arp) (arp : Message)
    → IsCache self
    → my_mac < 2 ^ 48
    → length arp.src_mac ≡ 6
    → IsAnswered my_ip my_mac len self arp (on_ether_frame_received my_ip my_mac len self arp)
unfolding on_ether_frame_received
received my_ip my_mac len self arp c small six =
    let Answered : Bool × Arp × Message → Type 0 = IsAnswered my_ip my_mac len self arp in
    let dropped : Bool × Arp × Message = (false, self, arp) in
    let told : Bool × Arp × Message =
      if arp.command == 0x0200 then (false, learn self arp, arp) else dropped in
    let done : Bool × Arp × Message =
      if arp.command == 0x0100 then (true, self, reply_to my_ip my_mac arp) else told in
    let (kept, es) = learn-entries self arp c in
    let es' =
      ap (λ m. remember (entries self) (arp.src_ip, m)) (mac_to_uint64-value_of arp.src_mac six) in
    if_intro Answered (ltb len 28) dropped (if for_us my_ip arp then done else dropped)
      (λ short. drops (λ o. absurd (ground (arith, short, o.whole))))
      (λ long.
        if_intro Answered (for_us my_ip arp) done dropped
          (λ ours.
            let o = for_us-IsOurs my_ip len arp long ours in
            if_intro Answered (arp.command == 0x0100) (true, self, reply_to my_ip my_mac arp) told
              (λ request.
                answers o (ground (arith, request)) (reply_to-IsReply my_ip my_mac arp small))
              (λ no_request.
                if_intro Answered (arp.command == 0x0200) (false, learn self arp, arp) dropped
                  (λ reply. remembers o (ground (arith, reply)) kept (es ∙ es'))
                  (λ no_reply.
                    drops (λ _. (ground (arith, no_request), ground (arith, no_reply))))))
          (λ other. drops (λ o. absurd (ground (arith, other, IsOurs-for_us my_ip len arp o)))))
