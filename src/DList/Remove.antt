-- ===== src/DList/Remove.antt =====
-- `remove_node` on a node anywhere in a list.
use karmanet.Common.{
  ◌≡◌, refl, sym, ◌≢◌, ◌⊎◌, inl, inr, false, Option, none, some, [], ◌∷◌, ◌++◌, arith, ◌==◌,
  if◌then◌else◌, or-eq-false, ==-eq-false,
}
use karmanet.DList.{
  Ptr, null, Node, node, Heap, write, load-some, set_next-some, set_prev-some, free-some,
  remove_node,
}
use karmanet.DList.Shape.{
  Cells, has, first, last, Linked, IsList, SameOutside, Returns, not-mem_null, Linked-middle,
  ne_first, ne_last, not-mem-append, Linked-left,
}
use karmanet.DList.Bypass.{without, without_other, without_self, Linked-without}

-- what `remove_node` reads of the neighbours of the node at `x`
record Between (h : Heap) (p x d q : Ptr) : Type 0 where
  ne_null : x ≢ null
  holds : h x ≡ some (node d q p)
  prev : (p ≡ null) ⊎ (p ≢ null) × (p ≢ x) × (p ≢ q) × ((n : Node) × (h p ≡ some n))
  next : (q ≡ null) ⊎ (q ≢ null) × (q ≢ x) × ((n : Node) × (h q ≡ some n))

still :
    (h : Heap) (x p : Ptr) (c : Option Node) {n : Node}
    → p ≢ x
    → h x ≡ some n
    → write h p c x ≡ some n
unfolding write
still h x p c ne e = ground arith

-- `remove_node` runs to the heap `without`
remove_node-without :
    (h : Heap) (list p x d q : Ptr)
    → Between h p x d q
    → remove_node list x h ≡ some (if p == null then q else list, without h p x q)
unfolding remove_node without
remove_node-without h list p x d q t =
    let nx = (==-eq-false x null).1 t.ne_null in
    let found = load-some h x t.ne_null t.holds in
    elim t.prev [
      | inl np ↦ elim t.next [
        | inl nq ↦ rw (nx, found, np, nq, free-some h x t.ne_null t.holds)
        | inr (nq, qx, (m, hm)) ↦
            let h₁ : Heap = write h q (some (record m { prev = null })) in
            let kept : h₁ x ≡ some (node d q p) =
              still h x q (some (record m { prev = null })) qx t.holds in
            rw (
              nx,
              found,
              np,
              (==-eq-false q null).1 nq,
              set_prev-some h q nq hm null,
              free-some h₁ x t.ne_null kept,
              hm,
            )
      ]
      | inr (np, px, pq, (n, hn)) ↦
          let h₁ : Heap = write h p (some (record n { next = q })) in
          let kept : h₁ x ≡ some (node d q p) =
            still h x p (some (record n { next = q })) px t.holds in
          elim t.next [
            | inl nq ↦ rw (
              nx,
              found,
              (==-eq-false p null).1 np,
              nq,
              set_next-some h p np hn null,
              free-some (write h p (some (record n { next = null }))) x t.ne_null
                  (still h x p (some (record n { next = null })) px t.holds),
              hn,
            )
            | inr (nq, qx, (m, hm)) ↦
                let beside : h₁ q ≡ some m = still h q p (some (record n { next = q })) pq hm in
                let h₂ : Heap = write h₁ q (some (record m { prev = p })) in
                let kept₂ : h₂ x ≡ some (node d q p) =
                  still h₁ x q (some (record m { prev = p })) qx kept in
                rw
                  (
                    nx,
                    found,
                    (==-eq-false p null).1 np,
                    (==-eq-false q null).1 nq,
                    set_next-some h p np hn q,
                    set_prev-some h₁ q nq beside p,
                    free-some h₂ x t.ne_null kept₂,
                    hn,
                  )
                  (rw beside)
          ]
    ]

Between-middle :
    (h : Heap) (l : Cells) (x d : Ptr) (r : Cells)
    → Linked h null (l ++ (x, d) ∷ r)
    → Between h (last null l) x d (first r)
Between-middle h l x d r s =
    let m = Linked-middle h null l x d r s in
    record { ne_null = m.0; holds = m.3; prev = before; next = after r m.2 m.4 }
  where
    after :
        (r : Cells)
        → has x r ≡ false
        → Linked h x r
        → (first r ≡ null)
          ⊎ (first r ≢ null) × (first r ≢ x) × ((n : Node) × (h (first r) ≡ some n))
    after [] out t = inl refl
    after ((q, e) ∷ r) out t = inr (
      t.0,
      (λ same. (==-eq-false x q).0 (or-eq-false (x == q) (has x r) out).0 (sym same)),
      (_, t.2),
    )

    before :
        (last null l ≡ null)
        ⊎ (last null l ≢ null)
          × (last null l ≢ x)
          × (last null l ≢ first r)
          × ((n : Node) × (h (last null l) ≡ some n))
    before = elim (Linked-left h null l ((x, d) ∷ r) s) [
      | inl e ↦ inl e
      | inr (ne, out, found) ↦
          let parts = or-eq-false (last null l == x) (has (last null l) r) out in
          inr (
            ne,
            (==-eq-false (last null l) x).0 parts.0,
            ne_first (last null l) r ne parts.1,
            found,
          )
    ]

last_ne_null :
    (h : Heap) (b a e : Ptr) (l r : Cells) → Linked h b ((a, e) ∷ (l ++ r)) → last a l ≢ null
last_ne_null h b a e [] r s = s.0
last_ne_null h b a e ((c, f) ∷ l) r s = last_ne_null h a c f l r s.3

first-append :
    (h : Heap) (l : Cells) (x d : Ptr) (r : Cells)
    → Linked h null (l ++ (x, d) ∷ r)
    → (if last null l == null then first r else first (l ++ (x, d) ∷ r)) ≡ first (l ++ r)
first-append h [] x d r s = refl
first-append h ((a, e) ∷ l) x d r s =
    rw ((==-eq-false (last a l) null).1 (last_ne_null h null a e l ((x, d) ∷ r) s))

-- `remove_node` unlinks a node wherever it stands in a list and frees it: the result is the head
-- of the list of the other cells, in their order, and no other memory changes.
pub remove_node-erase :
    (h : Heap) (list : Ptr) (l : Cells) (x d : Ptr) (r : Cells)
    → IsList h list (l ++ (x, d) ∷ r)
    → Returns
        (λ head g. IsList g head (l ++ r) × (g x ≡ none) × SameOutside (l ++ (x, d) ∷ r) h g)
        (remove_node list x h)
remove_node-erase h list l x d r is =
    let p = last null l in
    let q = first r in
    let run = remove_node-without h list p x d q (Between-middle h l x d r is.1) in
    (
      _,
      without h p x q,
      run,
      (
        (
          (rw is.0 (first-append h l x d r is.1)),
          Linked-without h null l x d r is.1 (not-mem_null h null (l ++ (x, d) ∷ r) is.1),
        ),
        without_self h p x q,
        λ a ne out.
            let parts = not-mem-append a l ((x, d) ∷ r) out in
            let right = or-eq-false (a == x) (has a r) parts.1 in
            without_other h p x q a ((==-eq-false a x).0 right.0) (ne_last a null l ne parts.0)
              (ne_first a r ne right.1),
      ),
    )
