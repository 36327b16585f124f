-- ===== src/Kernel/MessageQueue/Chain.antt =====
-- Chains of nodes in the heap of the message queue of `kernel/ipc.c`.
use johnbeauty_os.Prelude.{
  ℕ, zero, suc, ◌≡◌, ◌≢◌, ◌∙◌, refl, ap, ap₂, false, List, [], ◌∷◌, ◌++◌, arith, ◌==◌, if_false,
  take,
}
use johnbeauty_os.Prelude.Members.{has, Distinct}
use johnbeauty_os.Kernel.MessageQueue.{Node, Heap, store}

-- The nodes from `p` on stand at these addresses.
unfoldable pub IsChain : Heap → ℕ → List ℕ → Type 0
IsChain heap p [] = p ≡ 0
IsChain heap p (a ∷ rest) = (p ≡ a) × (a ≢ 0) × IsChain heap (heap a).next rest

unfoldable pub last_of : ℕ → List ℕ → ℕ
last_of d [] = d
last_of d (a ∷ rest) = last_of a rest

-- The messages that the nodes hold, the oldest first.
unfoldable pub messages : Heap → List ℕ → List (List ℕ)
messages heap [] = []
messages heap (a ∷ rest) = take (heap a).len (heap a).bytes ∷ messages heap rest

store_other :
    (heap : Heap) (address p : ℕ) (node : Node)
    → (p == address) ≡ false
    → store heap address node p ≡ heap p
unfolding store
store_other heap address p node ne = if_false (p == address) _ _ ne

pub store_self : (heap : Heap) (address : ℕ) (node : Node) → store heap address node address ≡ node
unfolding store
store_self heap address node = ground arith

has_head :
    (address a : ℕ) (nodes : List ℕ) → has address (a ∷ nodes) ≡ false → (a == address) ≡ false
unfolding has
has_head address a nodes out = ground arith

has_tail :
    (address a : ℕ) (nodes : List ℕ) → has address (a ∷ nodes) ≡ false → has address nodes ≡ false
unfolding has
has_tail address a nodes out = ground arith

pub take_twice : (n : ℕ) (xs : List ℕ) → take n (take n xs) ≡ take n xs
take_twice zero xs = refl
take_twice (suc n) [] = refl
take_twice (suc n) (x ∷ xs) = ap (λ ys. x ∷ ys) (take_twice n xs)

-- A store outside the chain leaves it as it was.
pub IsChain-store :
    (heap : Heap) (p address : ℕ) (node : Node) (nodes : List ℕ)
    → has address nodes ≡ false
    → IsChain heap p nodes
    → IsChain (store heap address node) p nodes
unfolding IsChain
IsChain-store heap p address node [] out c = c
IsChain-store heap p address node (a ∷ nodes) out c =
    let same = store_other heap address a node (has_head address a nodes out) in
    (c.0, c.1, rw same (IsChain-store heap _ address node nodes (has_tail address a nodes out) c.2))

pub messages-store :
    (heap : Heap) (address : ℕ) (node : Node) (nodes : List ℕ)
    → has address nodes ≡ false
    → messages (store heap address node) nodes ≡ messages heap nodes
unfolding messages
messages-store heap address node [] out = refl
messages-store heap address node (a ∷ nodes) out =
    let same = store_other heap address a node (has_head address a nodes out) in
    rw (same, messages-store heap address node nodes (has_tail address a nodes out)) refl

last_fresh : (u b : ℕ) (nodes : List ℕ) → has u (b ∷ nodes) ≡ false → (u == last_of b nodes) ≡ false
unfolding last_of has
last_fresh u b [] out = ground arith
last_fresh u b (c ∷ nodes) out = last_fresh u c nodes (ground arith)

pub text_kept :
    (heap : Heap) (l a address : ℕ)
    → let n = store heap l (record (heap l) { next = address }) a in
      take n.len n.bytes ≡ take (heap a).len (heap a).bytes
unfolding store
text_kept heap l a address = grind arith

pub messages-relink :
    (heap : Heap) (l address : ℕ) (nodes : List ℕ)
    → messages (store heap l (record (heap l) { next = address })) nodes ≡ messages heap nodes
unfolding messages
messages-relink heap l address [] = refl
messages-relink heap l address (a ∷ nodes) =
    ap₂ (λ m ms. m ∷ ms) (text_kept heap l a address) (messages-relink heap l address nodes)

-- A node linked behind the last one.
pub IsChain-link :
    (heap : Heap) (p a address : ℕ) (nodes : List ℕ)
    → address ≢ 0
    → (heap address).next ≡ 0
    → has address (a ∷ nodes) ≡ false
    → Distinct (a ∷ nodes)
    → IsChain heap p (a ∷ nodes)
    → let l = last_of a nodes in
      let heap' = store heap l (record (heap l) { next = address }) in
      IsChain heap' p (a ∷ (nodes ++ (address ∷ [])))
unfolding IsChain store has last_of Distinct
IsChain-link heap p a address [] pos end out once (e, ne, c) =
    let self = store_self heap a (record (heap a) { next = address }) in
    let other =
      store_other heap a address (record (heap a) { next = address })
        (ground (arith, has_head address a [] out)) in
    (e, ne, (ap (λ n. n.next) self, pos, ap (λ n. n.next) other ∙ end))
IsChain-link heap p a address (b ∷ nodes) pos end out (fresh, once) (e, ne, c) =
    let l = last_of b nodes in
    let same =
      store_other heap l a (record (heap l) { next = address }) (last_fresh a b nodes fresh) in
    (
      e,
      ne,
      rw same
          (IsChain-link heap _ b address nodes pos end (has_tail address a (b ∷ nodes) out) once c),
    )

pub messages-append :
    (heap : Heap) (nodes : List ℕ) (a : ℕ)
    → messages heap (nodes ++ (a ∷ []))
      ≡ messages heap nodes ++ (take (heap a).len (heap a).bytes ∷ [])
unfolding messages
messages-append heap [] a = refl
messages-append heap (b ∷ nodes) a = rw (messages-append heap nodes a) refl

pub last_of-append : (d : ℕ) (nodes : List ℕ) (a : ℕ) → last_of d (nodes ++ (a ∷ [])) ≡ a
unfolding last_of
last_of-append d [] a = refl
last_of-append d (b ∷ nodes) a = last_of-append b nodes a

pub last_not_null :
    (heap : Heap) (p a : ℕ) (nodes : List ℕ) → IsChain heap p (a ∷ nodes) → last_of a nodes ≢ 0
unfolding IsChain last_of
last_not_null heap p a [] c = c.1
last_not_null heap p a (b ∷ nodes) c = last_not_null heap (heap a).next b nodes c.2
