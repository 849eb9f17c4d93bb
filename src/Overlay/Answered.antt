-- ===== src/Overlay/Answered.antt =====
-- Which addresses of a list `join_overlay` of src/client/superpeer.c joins.
use karmanet.Common.{
  ℕ, ◌≡◌, refl, ap, ◌∙◌, ◌⊎◌, inl, inr, Bool, true, false, ◌||◌, Option, none, some, List, [], ◌∷◌,
  ◌++◌, arith, if◌then◌else◌, Bool-cases, Option-cases,
}
use karmanet.Wire.{SockaddrIn, addrcmp}
use karmanet.Wire.Addresses.{any_addr}
use karmanet.Overlay.{
  NearNode, get_near_node, get_near_by_addr, insert_near, create_new_near_node, same_sockaddr,
}
use karmanet.Overlay.Join.{Attempt, acknowledged}

-- the address, if the other side sends an ACK and its port
abbrev pub answers : SockaddrIn → Attempt → List SockaddrIn
answers a (acknowledged sock true) = a ∷ []
answers a _ = []

-- the addresses of the list that answer, in order
abbrev pub answered : List (SockaddrIn × Attempt) → List SockaddrIn
answered [] = []
answered ((a, attempt) ∷ it) = answers a attempt ++ answered it

-- the first list is what is left of the second when some are taken away
pub data Sub : List SockaddrIn → List SockaddrIn → Type 0 where
  nil : Sub [] []
  skip : (x : SockaddrIn) (xs ys : List SockaddrIn) → Sub xs ys → Sub xs (x ∷ ys)
  keep : (x : SockaddrIn) (xs ys : List SockaddrIn) → Sub xs ys → Sub (x ∷ xs) (x ∷ ys)

-- a neighbour has this address
abbrev pub has_near : SockaddrIn → List NearNode → Bool
has_near a [] = false
has_near a (n ∷ ns) = addrcmp n.addr a || has_near a ns

pub Sub-empty : (ys : List SockaddrIn) → Sub [] ys
Sub-empty [] = nil
Sub-empty (y ∷ ys) = skip y [] ys (Sub-empty ys)

pub Sub-skip : (front xs ys : List SockaddrIn) → Sub xs ys → Sub xs (front ++ ys)
Sub-skip [] xs ys s = s
Sub-skip (f ∷ front) xs ys s = skip f xs (front ++ ys) (Sub-skip front xs ys s)

pub Sub-keep : (front xs ys : List SockaddrIn) → Sub xs ys → Sub (front ++ xs) (front ++ ys)
Sub-keep [] xs ys s = s
Sub-keep (f ∷ front) xs ys s = keep f (front ++ xs) (front ++ ys) (Sub-keep front xs ys s)

pub or-true : (a b : Bool) → (a || b) ≡ true → (a ≡ true) ⊎ (b ≡ true)
or-true true b h = inl refl
or-true false b h = inr h

pub or-left : (a b : Bool) → a ≡ true → (a || b) ≡ true
or-left true b h = refl
or-left false b h = absurd (cc)

pub or-right : (a b : Bool) → b ≡ true → (a || b) ≡ true
or-right true b h = refl
or-right false b h = h

pub any_addr-append :
    (a : SockaddrIn) (xs ys : List SockaddrIn)
    → any_addr a (xs ++ ys) ≡ (any_addr a xs || any_addr a ys)
any_addr-append a [] ys = refl
any_addr-append a (x ∷ xs) ys =
    ap (λ b. addrcmp x a || b) (any_addr-append a xs ys)
    ∙ assoc (addrcmp x a) (any_addr a xs) (any_addr a ys)
  where
    assoc : (p q r : Bool) → (p || (q || r)) ≡ ((p || q) || r)
    assoc true q r = refl
    assoc false q r = refl

-- an address that is there is there in a longer list
pub any_addr_wider :
    (a : SockaddrIn) (xs ys : List SockaddrIn) (b : Bool)
    → (any_addr a xs || b) ≡ true
    → (any_addr a (xs ++ ys) || b) ≡ true
any_addr_wider a xs ys b h =
    ap (λ p. p || b) (any_addr-append a xs ys) ∙ wider (any_addr a xs) (any_addr a ys) b h
  where
    wider : (p q r : Bool) → (p || r) ≡ true → ((p || q) || r) ≡ true
    wider true q r e = refl
    wider false q r e = or-right q r e

addrcmp_same : (x a b : SockaddrIn) → addrcmp x a ≡ true → addrcmp b x ≡ addrcmp b a
addrcmp_same x a b h = ground arith

pub any_addr_same :
    (x a : SockaddrIn) (ms : List SockaddrIn) → addrcmp x a ≡ true → any_addr x ms ≡ any_addr a ms
any_addr_same x a [] h = refl
any_addr_same x a (m ∷ ms) h =
    ap (λ p. p || any_addr x ms) (addrcmp_same x a m h)
    ∙ ap (λ p. addrcmp m a || p) (any_addr_same x a ms h)

pub has_near_same :
    (x a : SockaddrIn) (ns : List NearNode) → addrcmp x a ≡ true → has_near x ns ≡ has_near a ns
has_near_same x a [] h = refl
has_near_same x a (n ∷ ns) h =
    ap (λ p. p || has_near x ns) (addrcmp_same x a n.addr h)
    ∙ ap (λ p. addrcmp n.addr a || p) (has_near_same x a ns h)

pub answers_same :
    (x a : SockaddrIn) (attempt : Attempt)
    → any_addr a (answers x attempt) ≡ true
    → addrcmp x a ≡ true
answers_same x a (acknowledged sock true) h = elim (or-true (addrcmp x a) false h) [
  | inl e ↦ e
  | inr e ↦ absurd (cc)
]
answers_same x a (acknowledged sock false) h = absurd (cc)
answers_same x a _ h = absurd (cc)

pub get_near_by_addr-has_near :
    (a : SockaddrIn) (ns : List NearNode) (n : NearNode)
    → get_near_by_addr a ns ≡ some n
    → has_near a ns ≡ true
unfolding get_near_by_addr
get_near_by_addr-has_near a [] n h = absurd (cc)
get_near_by_addr-has_near a (m ∷ ms) n h = elim (Bool-cases (addrcmp m.addr a)) [
  | inl e ↦ or-left (addrcmp m.addr a) _ e
  | inr e ↦ or-right (addrcmp m.addr a) _ (get_near_by_addr-has_near a ms n (rw e at h))
]

abbrev list_of : List NearNode → Option (List NearNode) → List NearNode
list_of d none = d
list_of d (some l) = l

-- an insertion brings no other address than its own
pub insert_near-has_near :
    (raw : List ℕ) (number sock : ℕ) (addr a : SockaddrIn) (ns list : List NearNode)
    → insert_near raw number sock addr ns ≡ some list
    → has_near a list ≡ true
    → (addrcmp addr a || has_near a ns) ≡ true
unfolding insert_near
insert_near-has_near raw number sock addr a [] list h k = ap (has_near a) (ap (list_of []) h) ∙ k
insert_near-has_near raw number sock addr a (n ∷ ns) list h k =
    elim (Option-cases (get_near_node sock (n ∷ ns))) [
      | inl e ↦
          let made : some (n ∷ create_new_near_node raw number sock addr ∷ ns) ≡ some list =
            rw (e, insert_near) at h in
          swap (addrcmp n.addr a) (addrcmp addr a) (has_near a ns)
            (ap (has_near a) (ap (list_of []) made) ∙ k)
      | inr (m, e) ↦
          let kept : (if same_sockaddr m.addr addr then some (n ∷ ns) else none) ≡ some list =
            rw (e, insert_near) at h in
          or-right (addrcmp addr a) _ (ap (has_near a) (old (same_sockaddr m.addr addr) kept) ∙ k)
    ]
  where
    swap : (p q r : Bool) → (p || (q || r)) ≡ true → (q || (p || r)) ≡ true
    swap p q r e = ground arith

    old : (b : Bool) → (if b then some (n ∷ ns) else none) ≡ some list → n ∷ ns ≡ list
    old true e = ap (list_of []) e
    old false e = absurd (cc)
