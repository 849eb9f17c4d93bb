-- ===== src/DList/Shape.antt =====
-- What a chain of nodes represents: its cells in order, each with its address and its payload.
use karmanet.Common.{
  ◌≡◌, refl, sym, ◌∙◌, ◌≢◌, ◌⊎◌, inl, inr, Bool, true, false, ◌||◌, Option, none, some, List, [],
  ◌∷◌, ◌++◌, arith, ◌==◌, or-eq-false, ==-eq-false,
}
use karmanet.DList.{Ptr, null, Node, node, Heap}

abbrev pub Cells : Type 0
Cells = List (Ptr × Ptr)

abbrev pub has : Ptr → Cells → Bool
has a [] = false
has a ((p, _) ∷ xs) = (a == p) || has a xs

abbrev pub first : Cells → Ptr
first [] = null
first ((p, _) ∷ xs) = p

-- the address before what follows `xs`, given the one before `xs`
abbrev pub last : Ptr → Cells → Ptr
last b [] = b
last b ((p, _) ∷ xs) = last p xs

-- The cells stand in the heap at distinct addresses, each with the addresses of both neighbours;
-- `b` is the address before the first.
abbrev pub Linked : Heap → Ptr → Cells → Type 0
Linked h b [] = Unit
Linked h b ((a, d) ∷ xs) =
    (a ≢ null) × (has a xs ≡ false) × (h a ≡ some (node d (first xs) b)) × Linked h a xs

-- a list as its head pointer represents it
abbrev pub IsList : Heap → Ptr → Cells → Type 0
IsList h head xs = (head ≡ first xs) × Linked h null xs

-- nothing else in memory has changed
abbrev pub SameOutside : Cells → Heap → Heap → Type 0
SameOutside xs h g = (a : Ptr) → a ≢ null → has a xs ≡ false → g a ≡ h a

-- the result of a command that ends: a value and a heap with a property
abbrev pub Returns {ℓ} : {A : Type 0} → (A → Heap → Type ℓ) → Option (A × Heap) → Type ℓ
Returns {A} P r = (a : A) × (g : Heap) × (r ≡ some (a, g)) × P a g

pub has-append : (a : Ptr) (l r : Cells) → has a (l ++ r) ≡ (has a l || has a r)
has-append a [] r = refl
has-append a ((p, d) ∷ l) r = ground (arith, has-append a l r)

pub Linked-same :
    (h g : Heap) (b : Ptr) (xs : Cells)
    → ((a : Ptr) → has a xs ≡ true → g a ≡ h a)
    → Linked h b xs
    → Linked g b xs
Linked-same h g b [] same s = tt
Linked-same h g b ((a, d) ∷ xs) same s =
    (s.0, s.1, same a (ground arith) ∙ s.2, Linked-same h g a xs (λ c i. same c (ground arith)) s.3)

pub not-mem_null : (h : Heap) (b : Ptr) (xs : Cells) → Linked h b xs → has null xs ≡ false
not-mem_null h b [] s = refl
not-mem_null h b ((a, d) ∷ xs) s = ground (arith, not-mem_null h a xs s.3)

pub not-mem_of_none :
    (h : Heap) (b a : Ptr) (xs : Cells) → h a ≡ none → Linked h b xs → has a xs ≡ false
not-mem_of_none h b a [] e s = refl
not-mem_of_none h b a ((p, d) ∷ xs) e s = ground (arith, not-mem_of_none h p a xs e s.3)

-- a node in the middle of a chain, with its neighbours
pub Linked-middle :
    (h : Heap) (b : Ptr) (l : Cells) (a d : Ptr) (r : Cells)
    → Linked h b (l ++ (a, d) ∷ r)
    → (a ≢ null)
      × (has a l ≡ false)
      × (has a r ≡ false)
      × (h a ≡ some (node d (first r) (last b l)))
      × Linked h a r
Linked-middle h b [] a d r s = (s.0, refl, s.1, s.2, s.3)
Linked-middle h b ((c, e) ∷ l) a d r s =
    let t = Linked-middle h c l a d r s.3 in
    (t.0, ground (arith, has-append c l ((a, d) ∷ r)), t.2, t.3, t.4)

pub ne_first : (a : Ptr) (xs : Cells) → a ≢ null → has a xs ≡ false → a ≢ first xs
ne_first a [] n out = n
ne_first a ((p, d) ∷ xs) n out = ground arith

pub ne_last : (a b : Ptr) (xs : Cells) → a ≢ b → has a xs ≡ false → a ≢ last b xs
ne_last a b [] n out = n
ne_last a b ((p, d) ∷ xs) n out = ne_last a p xs (ground arith) (ground arith)

pub not-mem-append :
    (a : Ptr) (xs ys : Cells) → has a (xs ++ ys) ≡ false → (has a xs ≡ false) × (has a ys ≡ false)
not-mem-append a xs ys h = or-eq-false (has a xs) (has a ys) (sym (has-append a xs ys) ∙ h)

-- the address before `r` is that before the list, or one of a node
pub Linked-left :
    (h : Heap) (b : Ptr) (l : Cells) (r : Cells)
    → Linked h b (l ++ r)
    → (last b l ≡ b)
      ⊎ (last b l ≢ null) × (has (last b l) r ≡ false) × ((n : Node) × (h (last b l) ≡ some n))
Linked-left h b [] r s = inl refl
Linked-left h b ((p, d) ∷ []) r s = inr (s.0, s.1, (_, s.2))
Linked-left h b ((p, d) ∷ (q, e) ∷ l) r s =
    let out = not-mem-append p ((q, e) ∷ l) r s.1 in
    let parts = or-eq-false (p == q) (has p l) out.0 in
    elim (Linked-left h p ((q, e) ∷ l) r s.3) [
      | inl same ↦ absurd (ne_last p q l ((==-eq-false p q).0 parts.0) parts.1 (sym same))
      | inr found ↦ inr found
    ]
