-- ===== src/DList/Insert.antt =====
-- `insert_node` at the head of a list, and `sorted_insert_node` behind one of its nodes.
use karmanet.Common.{
  ◌≡◌, refl, sym, ◌∙◌, ◌≢◌, false, none, some, [], ◌∷◌, ◌++◌, arith, ◌==◌, or-eq-false, ==-eq-false,
}
use karmanet.DList.{
  Ptr, null, node, Heap, write, load-some, set_next-some, insert_node, sorted_insert_node,
}
use karmanet.DList.Shape.{
  Cells, has, first, last, Linked, IsList, SameOutside, Returns, has-append, Linked-same,
  not-mem_of_none, Linked-middle, ne_first, not-mem-append,
}
use karmanet.DList.Added.{added, added_self, added_other, Linked-added, alloc-some, mend}

-- `insert_node` puts a new cell at the head of a list, when `malloc` returns unused memory and the
-- payload is not NULL, and changes no other memory.
pub insert_node-cons :
    (h : Heap) (fresh list d : Ptr) (xs : Cells)
    → IsList h list xs
    → d ≢ null
    → fresh ≢ null
    → h fresh ≡ none
    → Returns
        (λ head g. IsList g head ((fresh, d) ∷ xs) × SameOutside ((fresh, d) ∷ xs) h g)
        (insert_node fresh list d h)
unfolding insert_node
insert_node-cons h fresh list d xs is nd nf unused =
    let out = not-mem_of_none h null fresh xs unused is.1 in
    let n = node d (first xs) null in
    let apart = ne_first fresh xs nf out in
    (
      fresh,
      added h fresh n,
      rw (
        (==-eq-false d null).1 nd,
        is.0,
        alloc-some fresh n h nf,
        mend h fresh d null null xs is.1 out,
      ),
      (
        (refl, (nf, out, added_self h fresh n apart, Linked-added h null fresh d null xs is.1 out)),
        λ a na gone.
            let parts = or-eq-false (a == fresh) (has a xs) gone in
            added_other h fresh n a ((==-eq-false a fresh).0 parts.0) (ne_first a xs na parts.1),
      ),
    )

-- the heap after a new node at `x` behind the node at `a`, whose predecessor is `lp`
behind : Heap → (x d a e lp : Ptr) → Cells → Heap
behind h x d a e lp r = write (added h x (node d (first r) a)) a (some (node e x lp))

behind_other :
    (h : Heap) (x d a e lp : Ptr) (r : Cells) (c : Ptr)
    → c ≢ x
    → c ≢ first r
    → c ≢ a
    → behind h x d a e lp r c ≡ h c
unfolding behind write
behind_other h x d a e lp r c nx nq na =
    rw ((==-eq-false c a).1 na) (added_other h x (node d (first r) a) c nx nq)

behind-added :
    (h : Heap) (x d a e lp : Ptr) (r : Cells) (c : Ptr)
    → c ≢ a
    → behind h x d a e lp r c ≡ added h x (node d (first r) a) c
unfolding behind write
behind-added h x d a e lp r c na = rw ((==-eq-false c a).1 na)

behind_self :
    (h : Heap) (x d a e lp : Ptr) (r : Cells) → behind h x d a e lp r a ≡ some (node e x lp)
unfolding behind write
behind_self h x d a e lp r = ground arith

first-same :
    (l : Cells) (a e : Ptr) (r s : Cells) → first (l ++ (a, e) ∷ r) ≡ first (l ++ (a, e) ∷ s)
first-same [] a e r s = refl
first-same ((c, f) ∷ l) a e r s = refl

Linked-behind :
    (h : Heap) (b : Ptr) (l : Cells) (a e : Ptr) (r : Cells) (x d : Ptr)
    → x ≢ null
    → Linked h b (l ++ (a, e) ∷ r)
    → has x (l ++ (a, e) ∷ r) ≡ false
    → Linked (behind h x d a e (last b l) r) b (l ++ (a, e) ∷ (x, d) ∷ r)
Linked-behind h b [] a e r x d nx s out =
    let parts = or-eq-false (x == a) (has x r) out in
    let xa = (==-eq-false x a).0 parts.0 in
    let ax : a ≢ x = λ same. xa (sym same) in
    let n = node d (first r) a in
    let g = behind h x d a e b r in
    (
      s.0,
      rw ((==-eq-false a x).1 ax) s.1,
      behind_self h x d a e b r,
      (
        nx,
        parts.1,
        behind-added h x d a e b r x xa ∙ added_self h x n (ne_first x r nx parts.1),
        Linked-same (added h x n) g x r (λ c i. behind-added h x d a e b r c (λ same. ground arith))
            (Linked-added h a x d a r s.3 parts.1),
      ),
    )
Linked-behind h b ((c, f) ∷ l) a e r x d nx s out =
    let parts = or-eq-false (x == c) (has x (l ++ (a, e) ∷ r)) out in
    let own = not-mem-append c l ((a, e) ∷ r) s.1 in
    let right = or-eq-false (c == a) (has c r) own.1 in
    let cx : c ≢ x = λ same. (==-eq-false x c).0 parts.0 (sym same) in
    (
      s.0,
      rw (has-append c l ((a, e) ∷ (x, d) ∷ r), own.0, right.0, (==-eq-false c x).1 cx, right.1),
      behind_other h x d a e (last c l) r c cx (ne_first c r s.0 right.1)
            ((==-eq-false c a).0 right.0)
          ∙ rw (first-same l a e ((x, d) ∷ r) r) s.2,
      Linked-behind h c l a e r x d nx s.3 parts.1,
    )

first_ne_null :
    (h : Heap) (b : Ptr) (l : Cells) (a e : Ptr) (r : Cells)
    → Linked h b (l ++ (a, e) ∷ r)
    → first (l ++ (a, e) ∷ r) ≢ null
first_ne_null h b [] a e r s = s.0
first_ne_null h b ((c, f) ∷ l) a e r s = s.0

-- `sorted_insert_node` puts a new cell directly behind the cell of `prev_node`, wherever that
-- stands in the list, and changes no other memory; the head stays.
pub sorted_insert_node-behind :
    (h : Heap) (fresh list : Ptr) (l : Cells) (a e : Ptr) (r : Cells) (d : Ptr)
    → IsList h list (l ++ (a, e) ∷ r)
    → d ≢ null
    → fresh ≢ null
    → h fresh ≡ none
    → Returns
        (λ head g.
          (head ≡ list)
          × IsList g head (l ++ (a, e) ∷ (fresh, d) ∷ r)
          × SameOutside ((fresh, d) ∷ (l ++ (a, e) ∷ r)) h g)
        (sorted_insert_node fresh list a d h)
unfolding sorted_insert_node behind
sorted_insert_node-behind h fresh list l a e r d is nd nf unused =
    let m = Linked-middle h null l a e r is.1 in
    let out = not-mem_of_none h null fresh (l ++ (a, e) ∷ r) unused is.1 in
    let tail = or-eq-false (fresh == a) (has fresh r) (not-mem-append fresh l ((a, e) ∷ r) out).1 in
    let n = node d (first r) a in
    let af : a ≢ fresh = λ same. (==-eq-false fresh a).0 tail.0 (sym same) in
    let kept = added_other h fresh n a af (ne_first a r m.0 m.2) ∙ m.3 in
    let full : list ≢ null = λ z. first_ne_null h null l a e r is.1 (sym is.0 ∙ z) in
    (
      list,
      behind h fresh d a e (last null l) r,
      rw (
        (==-eq-false d null).1 nd,
        (==-eq-false list null).1 full,
        (==-eq-false a null).1 m.0,
        load-some h a m.0 m.3,
        alloc-some fresh n h nf,
        mend h fresh d a a r m.4 tail.1,
        set_next-some (added h fresh n) a m.0 kept fresh,
      ),
      (
        refl,
        (
          is.0 ∙ first-same l a e r ((fresh, d) ∷ r),
          Linked-behind h null l a e r fresh d nf is.1 out,
        ),
        λ c na gone.
            let parts = or-eq-false (c == fresh) (has c (l ++ (a, e) ∷ r)) gone in
            let split = not-mem-append c l ((a, e) ∷ r) parts.1 in
            let right = or-eq-false (c == a) (has c r) split.1 in
            behind_other h fresh d a e (last null l) r c ((==-eq-false c fresh).0 parts.0)
              (ne_first c r na right.1) ((==-eq-false c a).0 right.0),
      ),
    )
