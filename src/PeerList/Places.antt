-- ===== src/PeerList/Places.antt =====
-- The search for the place of a peer in the list.
use karmanet.Common.{
  ℕ, zero, suc, ◌≤◌, ◌≡◌, sym, ◌∙◌, inl, inr, true, false, none, some, List, [], ◌∷◌, arith, ltb,
  if◌then◌else◌, Bool-cases, length,
}
use karmanet.Common.Positions.{insert_at, next, next-some}
use karmanet.Wire.{SockaddrIn, addrcmp}
use karmanet.PeerList.{PeerNode, PeerState, search_place}

-- no rate above that of `n`
abbrev pub AllBelow : ℕ → List PeerNode → Type 0
AllBelow r [] = Unit
AllBelow r (n ∷ ns) = (n.peer_rate ≤ r) × AllBelow r ns

-- the rates do not go up along the list
abbrev pub IsSorted : List PeerNode → Type 0
IsSorted [] = Unit
IsSorted (n ∷ ns) = AllBelow n.peer_rate ns × IsSorted ns

pub record IsValid (s : PeerState) : Type 0 where
  pub sorted : IsSorted s.peer_list_head
  pub count : s.curr_p_count ≡ length s.peer_list_head

-- how many entries have the address
abbrev pub occurrences : SockaddrIn → List PeerNode → ℕ
occurrences a [] = 0
occurrences a (n ∷ ns) = if addrcmp a n.peer_addr then suc (occurrences a ns) else occurrences a ns

-- what the search does at the first node
module _ (a : SockaddrIn) (r : ℕ) (n : PeerNode) (ns : List PeerNode) where
  search_place_known : addrcmp a n.peer_addr ≡ true → search_place a r (n ∷ ns) ≡ none
  unfolding search_place
  search_place_known e = rw e

  pub search_place_here :
      addrcmp a n.peer_addr ≡ false → ltb n.peer_rate r ≡ true → search_place a r (n ∷ ns) ≡ some 0
  unfolding search_place
  search_place_here e lt = rw (e, lt)

  pub search_place_further :
      addrcmp a n.peer_addr ≡ false
      → ltb n.peer_rate r ≡ false
      → search_place a r (n ∷ ns) ≡ next (search_place a r ns)
  unfolding search_place
  search_place_further e ge = rw (e, ge)

AllBelow-weaken : (r q : ℕ) (ns : List PeerNode) → AllBelow r ns → r ≤ q → AllBelow q ns
AllBelow-weaken r q [] h le = tt
AllBelow-weaken r q (n ∷ ns) h le = (omega (arith, h.0), AllBelow-weaken r q ns h.1 le)

AllBelow-insert_at :
    (r i : ℕ) (x : PeerNode) (ns : List PeerNode)
    → x.peer_rate ≤ r
    → AllBelow r ns
    → AllBelow r (insert_at i x ns)
AllBelow-insert_at r zero x ns le h = (le, h)
AllBelow-insert_at r (suc i) x [] le h = (le, tt)
AllBelow-insert_at r (suc i) x (n ∷ ns) le h = (h.0, AllBelow-insert_at r i x ns le h.1)

pub IsSorted-insert_at :
    (a : SockaddrIn) (x : PeerNode) (ns : List PeerNode) (i : ℕ)
    → search_place a x.peer_rate ns ≡ some i
    → IsSorted ns
    → IsSorted (insert_at i x ns)
IsSorted-insert_at a x [] zero e h = (tt, tt)
IsSorted-insert_at a x [] (suc i) e h = (tt, tt)
IsSorted-insert_at a x (n ∷ ns) i e h = elim (Bool-cases (addrcmp a n.peer_addr)) [
  | inl known ↦ cc (sym (search_place_known a x.peer_rate n ns known) ∙ e)
  | inr unknown ↦ elim (Bool-cases (ltb n.peer_rate x.peer_rate)) [
    | inl faster ↦
        let here : 0 ≡ i =
          ground (arith, sym (search_place_here a x.peer_rate n ns unknown faster) ∙ e) in
        let lt : n.peer_rate ≤ x.peer_rate = ground arith in
        rw (← here) ((lt, AllBelow-weaken n.peer_rate x.peer_rate ns h.0 lt), (h.0, h.1))
    | inr slower ↦
        let (j, found, further) =
          next-some (search_place a x.peer_rate ns)
            (sym (search_place_further a x.peer_rate n ns unknown slower) ∙ e) in
        let le : x.peer_rate ≤ n.peer_rate = ground arith in
        rw further
          (AllBelow-insert_at n.peer_rate j x ns le h.0, IsSorted-insert_at a x ns j found h.1)
  ]
]
