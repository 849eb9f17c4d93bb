-- ===== src/SpList/Cells.antt =====
-- Entries at distinct nodes with distinct addresses, and what the list operations do to them.
use karmanet.Common.{
  ◌+◌, ◌≡◌, refl, ◌≢◌, inl, inr, Bool, true, false, not, ◌&&◌, ◌||◌, [], ◌∷◌, ◌++◌, arith, ◌==◌,
  ==_iff, Bool-cases, length,
}
use karmanet.DList.{Ptr, null}
use karmanet.Wire.{SockaddrIn, addrcmp}
use karmanet.SpList.{SpaddrNode, Entries, erase, modify}

abbrev pub has : Ptr → Entries → Bool
has a [] = false
has a ((p, n) ∷ xs) = (a == p) || has a xs

-- some entry has this address and port
abbrev pub knows : SockaddrIn → Entries → Bool
knows a [] = false
knows a ((p, n) ∷ xs) = addrcmp n.sp_addr a || knows a xs

abbrev pub IsDistinct : Entries → Type 0
IsDistinct [] = Unit
IsDistinct ((p, n) ∷ xs) =
    (p ≢ null) × (has p xs ≡ false) × (knows n.sp_addr xs ≡ false) × IsDistinct xs

pub has-append : (a : Ptr) (xs ys : Entries) → has a (xs ++ ys) ≡ (has a xs || has a ys)
has-append a [] ys = refl
has-append a ((p, n) ∷ xs) ys = ground (arith, has-append a xs ys)

pub knows-append :
    (a : SockaddrIn) (xs ys : Entries) → knows a (xs ++ ys) ≡ (knows a xs || knows a ys)
knows-append a [] ys = refl
knows-append a ((p, n) ∷ xs) ys = ground (arith, knows-append a xs ys)

pub addrcmp_symm : (a b : SockaddrIn) → addrcmp a b ≡ addrcmp b a
addrcmp_symm a b = ground arith

pub addrcmp_refl : (a : SockaddrIn) → addrcmp a a ≡ true
addrcmp_refl a = ground arith

-- addresses that compare equal are known together
pub knows_congr : (a b : SockaddrIn) (xs : Entries) → addrcmp a b ≡ true → knows a xs ≡ knows b xs
knows_congr a b [] e = refl
knows_congr a b ((p, n) ∷ xs) e = ground (arith, knows_congr a b xs)

pub not-mem_null : (xs : Entries) → IsDistinct xs → has null xs ≡ false
not-mem_null [] d = refl
not-mem_null ((p, n) ∷ xs) d = ground (arith, not-mem_null xs d.3)

module _ (p q : Ptr) (n : SpaddrNode) (xs : Entries) where
  pub erase_hit : (q == p) ≡ true → erase p ((q, n) ∷ xs) ≡ xs
  unfolding erase
  erase_hit e = rw e

  pub erase_skip : (q == p) ≡ false → erase p ((q, n) ∷ xs) ≡ (q, n) ∷ erase p xs
  unfolding erase
  erase_skip e = rw e

pub has-erase :
    (p a : Ptr) (xs : Entries) → IsDistinct xs → has a (erase p xs) ≡ (not (a == p) && has a xs)
unfolding erase
has-erase p a [] d = ground arith
has-erase p a ((q, n) ∷ xs) d = elim (Bool-cases (q == p)) [
  | inl hit ↦ let e = (==_iff q p).0 hit in rw (hit, ← e) (ground (arith, d.1))
  | inr miss ↦ rw (miss, has-erase p a xs d.3) (ground arith)
]

pub length-erase : (p : Ptr) (xs : Entries) → has p xs ≡ true → length (erase p xs) + 1 ≡ length xs
unfolding erase
length-erase p [] h = cc
length-erase p ((q, n) ∷ xs) h = ground (arith, length-erase p xs)

pub knows-erase :
    (a : SockaddrIn) (p : Ptr) (xs : Entries) → knows a xs ≡ false → knows a (erase p xs) ≡ false
unfolding erase
knows-erase a p [] h = refl
knows-erase a p ((q, n) ∷ xs) h = ground (arith, knows-erase a p xs)

pub erase-IsDistinct : (p : Ptr) (xs : Entries) → IsDistinct xs → IsDistinct (erase p xs)
unfolding erase
erase-IsDistinct p [] d = tt
erase-IsDistinct p ((q, n) ∷ xs) d = elim (Bool-cases (q == p)) [
  | inl hit ↦ rw hit d.3
  | inr miss ↦ rw miss (
    d.0,
    rw (has-erase p q xs d.3, d.1, miss),
    knows-erase n.sp_addr p xs d.2,
    erase-IsDistinct p xs d.3,
  )
]

-- a change of the data that leaves the address alone
module _ (f : SpaddrNode → SpaddrNode) (same : (n : SpaddrNode) → (f n).sp_addr ≡ n.sp_addr)
    (p : Ptr) where
  pub has-modify : (a : Ptr) (xs : Entries) → has a (modify p f xs) ≡ has a xs
  unfolding modify
  has-modify a [] = refl
  has-modify a ((q, n) ∷ xs) = ground (arith, has-modify a xs)

  pub knows-modify : (a : SockaddrIn) (xs : Entries) → knows a (modify p f xs) ≡ knows a xs
  unfolding modify
  knows-modify a [] = refl
  knows-modify a ((q, n) ∷ xs) = ground (arith, knows-modify a xs, same n)

  pub length-modify : (xs : Entries) → length (modify p f xs) ≡ length xs
  unfolding modify
  length-modify [] = refl
  length-modify ((q, n) ∷ xs) = ground (arith, length-modify xs)

  pub modify-IsDistinct : (xs : Entries) → IsDistinct xs → IsDistinct (modify p f xs)
  unfolding modify
  modify-IsDistinct [] d = tt
  modify-IsDistinct ((q, n) ∷ xs) d = elim (Bool-cases (q == p)) [
    | inl hit ↦ rw (hit, same n) d
    | inr miss ↦ rw miss (
      d.0,
      rw (has-modify q xs) d.1,
      rw (knows-modify n.sp_addr xs) d.2,
      modify-IsDistinct xs d.3,
    )
  ]
