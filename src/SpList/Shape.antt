-- ===== src/SpList/Shape.antt =====
-- The search for an address, and the operations in the middle of the list.
use karmanet.Common.{
  ◌≡◌, refl, sym, ◌∙◌, ◌≢◌, ◌⊎◌, inl, inr, true, false, not, ◌&&◌, [], ◌∷◌, ◌++◌, arith, ◌==◌,
  ==_iff, Bool-cases, or-eq-false, ==-eq-false,
}
use mathlib.Core.Path.{subst}
use karmanet.DList.{Ptr, null}
use karmanet.Wire.{SockaddrIn, addrcmp}
use karmanet.SpList.{SpaddrNode, Entries, erase, modify, get_node_sp}
use karmanet.SpList.Cells.{
  has, knows, IsDistinct, has-append, knows-append, addrcmp_symm, addrcmp_refl, knows_congr,
  erase_hit, erase_skip,
}

module _ (a : SockaddrIn) (p : Ptr) (n : SpaddrNode) (xs : Entries) where
  pub get_node_sp_hit : addrcmp n.sp_addr a ≡ true → get_node_sp a ((p, n) ∷ xs) ≡ p
  unfolding get_node_sp
  get_node_sp_hit e = rw e

  pub get_node_sp_skip :
      addrcmp n.sp_addr a ≡ false → get_node_sp a ((p, n) ∷ xs) ≡ get_node_sp a xs
  unfolding get_node_sp
  get_node_sp_skip e = rw e

-- the outcome `q` of a search
abbrev pub Search : SockaddrIn → Entries → Ptr → Type 0
Search a xs q =
    (q ≡ null) × (knows a xs ≡ false) ⊎ (q ≢ null) × (has q xs ≡ true) × (knows a xs ≡ true)

Search-skip :
    (a : SockaddrIn) (p : Ptr) (n : SpaddrNode) (xs : Entries) (q : Ptr)
    → addrcmp n.sp_addr a ≡ false
    → Search a xs q
    → Search a ((p, n) ∷ xs) q
Search-skip a p n xs q e (inl out) = inl (out.0, rw e out.1)
Search-skip a p n xs q e (inr found) = inr (found.0, ground (arith, found.1), rw e found.2)

-- the search finds a node exactly for a known address
pub get_node_sp-cases :
    (a : SockaddrIn) (xs : Entries) → IsDistinct xs → Search a xs (get_node_sp a xs)
get_node_sp-cases a [] d = unfold get_node_sp in inl (refl, refl)
get_node_sp-cases a ((p, n) ∷ xs) d = elim (Bool-cases (addrcmp n.sp_addr a)) [
  | inl hit ↦
      subst (Search a ((p, n) ∷ xs)) (sym (get_node_sp_hit a p n xs hit))
        (inr (d.0, ground arith, rw hit))
  | inr miss ↦
      subst (Search a ((p, n) ∷ xs)) (sym (get_node_sp_skip a p n xs miss))
        (Search-skip a p n xs (get_node_sp a xs) miss (get_node_sp-cases a xs d.3))
]

-- in the middle of a list with distinct addresses the search finds the node there
pub get_node_sp-middle :
    (xs ys : Entries) (p : Ptr) (n : SpaddrNode)
    → IsDistinct (xs ++ (p, n) ∷ ys)
    → get_node_sp n.sp_addr (xs ++ (p, n) ∷ ys) ≡ p
unfolding get_node_sp
get_node_sp-middle [] ys p n d = rw (addrcmp_refl n.sp_addr)
get_node_sp-middle ((q, m) ∷ xs) ys p n d =
    let out =
      or-eq-false (knows m.sp_addr xs) (knows m.sp_addr ((p, n) ∷ ys))
        (sym (knows-append m.sp_addr xs ((p, n) ∷ ys)) ∙ d.2) in
    let apart = or-eq-false (addrcmp n.sp_addr m.sp_addr) (knows m.sp_addr ys) out.1 in
    rw (addrcmp_symm m.sp_addr n.sp_addr, apart.0) (get_node_sp-middle xs ys p n d.3)

pub IsDistinct-middle :
    (xs ys : Entries) (p : Ptr) (n : SpaddrNode)
    → IsDistinct (xs ++ (p, n) ∷ ys)
    → (p ≢ null) × (has p xs ≡ false)
IsDistinct-middle [] ys p n d = (d.0, refl)
IsDistinct-middle ((q, m) ∷ xs) ys p n d =
    let out =
      or-eq-false (has q xs) (has q ((p, n) ∷ ys)) (sym (has-append q xs ((p, n) ∷ ys)) ∙ d.1) in
    let apart = or-eq-false (q == p) (has q ys) out.1 in
    let rest = IsDistinct-middle xs ys p n d.3 in (rest.0, ground (arith, apart.0, rest.1))

pub erase-middle :
    (xs ys : Entries) (p : Ptr) (n : SpaddrNode)
    → has p xs ≡ false
    → erase p (xs ++ (p, n) ∷ ys) ≡ xs ++ ys
unfolding erase
erase-middle [] ys p n out = ground arith
erase-middle ((q, m) ∷ xs) ys p n out =
    let parts = or-eq-false (p == q) (has p xs) out in
    let apart : (q == p) ≡ false = ground (arith, parts.0) in
    rw (apart, erase-middle xs ys p n parts.1)

pub modify-middle :
    (xs ys : Entries) (p : Ptr) (n : SpaddrNode) (f : SpaddrNode → SpaddrNode)
    → has p xs ≡ false
    → modify p f (xs ++ (p, n) ∷ ys) ≡ xs ++ (p, f n) ∷ ys
unfolding modify
modify-middle [] ys p n f out = ground arith
modify-middle ((q, m) ∷ xs) ys p n f out =
    let parts = or-eq-false (p == q) (has p xs) out in
    let apart : (q == p) ≡ false = ground (arith, parts.0) in
    rw (apart, modify-middle xs ys p n f parts.1)

-- The search finds no node that stands before it.
get_node_sp_ne :
    (a : SockaddrIn) (q : Ptr) (xs : Entries)
    → q ≢ null
    → has q xs ≡ false
    → IsDistinct xs
    → (q == get_node_sp a xs) ≡ false
get_node_sp_ne a q xs nq out d = elim (get_node_sp-cases a xs d) [
  | inl missing ↦ (==-eq-false q (get_node_sp a xs)).1 (λ e. nq (e ∙ missing.0))
  | inr found ↦ (==-eq-false q (get_node_sp a xs)).1 (λ e. apart e found.1)
]
  where
    apart : q ≡ get_node_sp a xs → has (get_node_sp a xs) xs ≡ true → ⊥
    apart e h = cc (sym (rw (← e) at h) ∙ out)

-- after the node of an address is erased, exactly that address is gone
pub knows-erase_found :
    (a b : SockaddrIn) (xs : Entries)
    → IsDistinct xs
    → knows b (erase (get_node_sp a xs) xs) ≡ (not (addrcmp a b) && knows b xs)
knows-erase_found a b [] d = unfold get_node_sp erase in ground arith
knows-erase_found a b ((q, n) ∷ xs) d = elim (Bool-cases (addrcmp n.sp_addr a)) [
  | inl hit ↦
      rw (get_node_sp_hit a q n xs hit, erase_hit q q n xs ((==_iff q q).1 refl))
        (ground (arith, knows_congr n.sp_addr b xs, d.2))
  | inr miss ↦
      rw
        (
          get_node_sp_skip a q n xs miss,
          erase_skip (get_node_sp a xs) q n xs (get_node_sp_ne a q xs d.0 d.1 d.3),
          knows-erase_found a b xs d.3,
        )
        (ground arith)
]
