-- ===== src/PeerList/Order.antt =====
-- The order of the list by rate: what `sorted_insert_peer` and `get_addr_head` make of it.
use karmanet.Common.{
  ℕ, zero, suc, ◌+◌, ◌≤◌, ◌<◌, ◌≡◌, refl, sym, ap, ◌∙◌, ◌⊎◌, inl, inr, true, false, none, some,
  List, [], ◌∷◌, ◌++◌, arith, ltb, if◌then◌else◌, Bool-cases, Option-cases, length,
}
use mathlib.Core.Path.{subst}
use karmanet.Common.Positions.{is_empty, insert_at, change_at, next, next-some, length-insert_at}
use karmanet.Wire.{SockaddrIn, addrcmp, btol}
use karmanet.Packet.{Packet}
use karmanet.PeerList.{
  PeerNode, PeerState, new_peer_node, get_node_peer, search_place, sorted_insert_peer,
  get_addr_head, update_peer_flag,
}
use karmanet.PeerList.Places.{
  AllBelow, IsSorted, occurrences, search_place_here, search_place_further, IsSorted-insert_at,
  IsValid,
}

count_reset :
    (s : PeerState)
    → IsValid s
    → (if is_empty s.peer_list_head then 0 else s.curr_p_count) ≡ length s.peer_list_head
count_reset s v = go s.peer_list_head v.count
  where
    go :
        (ns : List PeerNode)
        → s.curr_p_count ≡ length ns
        → (if is_empty ns then 0 else s.curr_p_count) ≡ length ns
    go [] e = refl
    go (n ∷ ns) e = e

module _ (a : SockaddrIn) (rate port : ℕ) (s : PeerState) where
  insert_known :
      search_place a rate s.peer_list_head ≡ none
      → sorted_insert_peer a rate port s
        ≡ record s { curr_p_count = if is_empty s.peer_list_head then 0 else s.curr_p_count }
  unfolding sorted_insert_peer
  insert_known e = rw (e, sorted_insert_peer)

  insert_new :
      (i : ℕ)
      → search_place a rate s.peer_list_head ≡ some i
      → sorted_insert_peer a rate port s ≡ record {
        peer_list_head = insert_at i (new_peer_node a rate port) s.peer_list_head;
        curr_p_count = (if is_empty s.peer_list_head then 0 else s.curr_p_count) + 1;
      }
  unfolding sorted_insert_peer
  insert_new i e = rw (e, sorted_insert_peer)

-- Whatever address and rate join, the list stays in the order of the rates, and `curr_p_count`
-- stays its length.
pub sorted_insert_peer-IsValid :
    (a : SockaddrIn) (rate port : ℕ) (s : PeerState)
    → IsValid s
    → IsValid (sorted_insert_peer a rate port s)
unfolding new_peer_node
sorted_insert_peer-IsValid a rate port s v =
    elim (Option-cases (search_place a rate s.peer_list_head)) [
      | inl known ↦
          subst IsValid (sym (insert_known a rate port s known))
            (record { sorted = v.sorted; count = count_reset s v })
      | inr (i, found) ↦
          let x = new_peer_node a rate port in
          subst IsValid (sym (insert_new a rate port s i found)) (record {
            sorted = IsSorted-insert_at a x s.peer_list_head i found v.sorted;
            count = omega (arith, count_reset s v, length-insert_at i x s.peer_list_head);
          })
    ]

unknown-insert_at :
    (a : SockaddrIn) (x : PeerNode) (ns : List PeerNode)
    → occurrences a ns ≡ 0
    → (i : ℕ) × (l r : List PeerNode) × (search_place a x.peer_rate ns ≡ some i)
      × (ns ≡ l ++ r)
      × (insert_at i x ns ≡ l ++ x ∷ r)
unknown-insert_at a x [] e = (0, [], [], (unfold search_place in refl), refl, refl)
unknown-insert_at a x (n ∷ ns) e = elim (Bool-cases (addrcmp a n.peer_addr)) [
  | inl known ↦ absurd (omega (arith, sym (rw known at e)))
  | inr unknown ↦ elim (Bool-cases (ltb n.peer_rate x.peer_rate)) [
    | inl faster ↦ (0, [], n ∷ ns, search_place_here a x.peer_rate n ns unknown faster, refl, refl)
    | inr slower ↦
        let (i, l, r, found, split, put) = unknown-insert_at a x ns (rw unknown at e) in
        (
          suc i,
          n ∷ l,
          r,
          search_place_further a x.peer_rate n ns unknown slower ∙ ap next found,
          ap (λ t. n ∷ t) split,
          ap (λ t. n ∷ t) put,
        )
  ]
]

-- A peer whose address is not in the list gets one new entry, and the other entries stay as they
-- are and in their order.
pub sorted_insert_peer-unknown :
    (a : SockaddrIn) (rate port : ℕ) (s : PeerState)
    → occurrences a s.peer_list_head ≡ 0
    → (l r : List PeerNode) × (s.peer_list_head ≡ l ++ r)
      × ((sorted_insert_peer a rate port s).peer_list_head ≡ l ++ new_peer_node a rate port ∷ r)
unfolding sorted_insert_peer new_peer_node
sorted_insert_peer-unknown a rate port s e =
    let x = new_peer_node a rate port in
    let (i, l, r, found, split, put) = unknown-insert_at a x s.peer_list_head e in
    (l, r, split, ap (λ t. t.peer_list_head) (insert_new a rate port s i found) ∙ put)

-- A peer that joins with a rate above that of the head, whose address it has not, gets a new entry
-- even if it has one already.
pub occurrences-sorted_insert_peer :
    (a : SockaddrIn) (rate port : ℕ) (s : PeerState) (m : PeerNode) (ns : List PeerNode)
    → s.peer_list_head ≡ m ∷ ns
    → addrcmp a m.peer_addr ≡ false
    → m.peer_rate < rate
    → occurrences a (sorted_insert_peer a rate port s).peer_list_head
      ≡ suc (occurrences a s.peer_list_head)
unfolding sorted_insert_peer new_peer_node
occurrences-sorted_insert_peer a rate port s m ns e other faster =
    let self : addrcmp a a ≡ true = ground arith in
    let found : search_place a rate s.peer_list_head ≡ some 0 =
      ap (search_place a rate) e ∙ search_place_here a rate m ns other (ground arith) in
    ap (λ t. occurrences a t.peer_list_head) (insert_new a rate port s 0 found) ∙ rw self

-- `get_addr_head` finds a peer with the greatest rate, if there is any peer.
pub get_addr_head-AllBelow :
    (s : PeerState)
    → IsValid s
    → (s.peer_list_head ≡ []) × (get_addr_head s ≡ none)
      ⊎ ((n : PeerNode) × (ns : List PeerNode) × (s.peer_list_head ≡ n ∷ ns)
          × (get_addr_head s ≡ some n.peer_addr)
          × AllBelow n.peer_rate s.peer_list_head)
unfolding get_addr_head
get_addr_head-AllBelow s v = go s.peer_list_head v.sorted
  where
    go :
        (xs : List PeerNode)
        → IsSorted xs
        → (xs ≡ []) × (elim xs [ [] ↦ none | n ∷ ns ↦ some n.peer_addr ] ≡ none)
          ⊎ ((n : PeerNode) × (ns : List PeerNode) × (xs ≡ n ∷ ns)
              × (elim xs [ [] ↦ none | m ∷ ms ↦ some m.peer_addr ] ≡ some n.peer_addr)
              × AllBelow n.peer_rate xs)
    go [] h = inl (refl, refl)
    go (n ∷ ns) h = inr (n, ns, refl, refl, (omega arith, h.0))

module _ (a : SockaddrIn) (pck : Packet) (s : PeerState) where
  update_known :
      (i : ℕ)
      → get_node_peer a s.peer_list_head ≡ some i
      → update_peer_flag a pck s ≡ record s {
        peer_list_head =
            change_at i (λ n. record n { flag = 1; peer_rate = btol pck.payload }) s.peer_list_head;
      }
  unfolding update_peer_flag
  update_known i e = rw (e, update_peer_flag)

module _ (a : SockaddrIn) (n : PeerNode) (ns : List PeerNode) where
  get_node_peer_here : addrcmp n.peer_addr a ≡ true → get_node_peer a (n ∷ ns) ≡ some 0
  unfolding get_node_peer
  get_node_peer_here e = rw e

  get_node_peer_further :
      addrcmp n.peer_addr a ≡ false → get_node_peer a (n ∷ ns) ≡ next (get_node_peer a ns)
  unfolding get_node_peer
  get_node_peer_further e = rw e

get_node_peer_nil : (a : SockaddrIn) → get_node_peer a [] ≡ none
unfolding get_node_peer
get_node_peer_nil a = refl

changed_rate :
    (a : SockaddrIn) (ns : List PeerNode) (i r : ℕ) (f : PeerNode → PeerNode) (v : ℕ)
    → ((n : PeerNode) → (f n).peer_rate ≡ v)
    → get_node_peer a ns ≡ some i
    → AllBelow r (change_at i f ns)
    → v ≤ r
changed_rate a [] i r f v fv e h = cc (sym (get_node_peer_nil a) ∙ e)
changed_rate a (n ∷ ns) zero r f v fv e h = omega (arith, h.0, fv n)
changed_rate a (n ∷ ns) (suc i) r f v fv e h = elim (Bool-cases (addrcmp n.peer_addr a)) [
  | inl here ↦ absurd (ground (arith, sym (get_node_peer_here a n ns here) ∙ e))
  | inr further ↦
      let (j, found, same) =
        next-some (get_node_peer a ns) (sym (get_node_peer_further a n ns further) ∙ e) in
      let q : j ≡ i = omega (arith, same) in changed_rate a ns i r f v fv (rw q at found) h.1
]

-- A ping that raises the rate of a peer above that of the head, another peer, leaves the list
-- out of order, and `get_addr_head` still returns the old head.
pub update_peer_flag-IsSorted :
    (a : SockaddrIn) (pck : Packet) (s : PeerState) (m : PeerNode) (ns : List PeerNode) (i : ℕ)
    → s.peer_list_head ≡ m ∷ ns
    → addrcmp m.peer_addr a ≡ false
    → get_node_peer a ns ≡ some i
    → m.peer_rate < btol pck.payload
    → (¬ IsSorted (update_peer_flag a pck s).peer_list_head)
      × (get_addr_head (update_peer_flag a pck s) ≡ some m.peer_addr)
unfolding update_peer_flag get_addr_head
update_peer_flag-IsSorted a pck s m ns i e other known faster =
    let found : get_node_peer a s.peer_list_head ≡ some (suc i) =
      ap (get_node_peer a) e ∙ get_node_peer_further a m ns other ∙ ap next known in
    let f : PeerNode → PeerNode = λ n. record n { flag = 1; peer_rate = btol pck.payload } in
    let after : update_peer_flag a pck s
        ≡ record { peer_list_head = m ∷ change_at i f ns; curr_p_count = s.curr_p_count } =
      update_known a pck s (suc i) found
      ∙ ap (λ l. record { peer_list_head = change_at (suc i) f l; curr_p_count = s.curr_p_count })
          e in
    (
      λ h.
          let h' = subst (λ t. IsSorted t.peer_list_head) after h in
          absurd (
            omega (
              arith,
              faster,
              changed_rate a ns i m.peer_rate f (btol pck.payload) (λ n. refl) known h'.0,
            )),
      ap get_addr_head after,
    )
