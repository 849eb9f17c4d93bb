-- ===== src/DList/Bypass.antt =====
-- The heap in which a node of a list is bypassed and freed.
use karmanet.Common.{
  ◌≡◌, ◌∙◌, ◌≢◌, false, Option, none, some, [], ◌∷◌, ◌++◌, arith, ◌==◌, if◌then◌else◌, or-eq-false,
  ==-eq-false,
}
use karmanet.DList.{Ptr, null, Node, Heap, write}
use karmanet.DList.Shape.{
  Cells, has, first, last, Linked, has-append, Linked-same, ne_first, ne_last, not-mem-append,
}

abbrev with_next : Option Node → Ptr → Option Node
with_next none q = none
with_next (some n) q = some (record n { next = q })

abbrev with_prev : Option Node → Ptr → Option Node
with_prev none p = none
with_prev (some n) p = some (record n { prev = p })

-- the heap after the node at `x`, between `p` and `q`, is bypassed and freed
skip_next : Heap → Ptr → Ptr → Heap
unfolding write
skip_next h p q = if p == null then h else write h p (with_next (h p) q)

skip_prev : Heap → Ptr → Ptr → Heap
unfolding write
skip_prev h p q = if q == null then h else write h q (with_prev (h q) p)

unfoldable pub without : Heap → Ptr → Ptr → Ptr → Heap
unfolding write skip_next skip_prev
without h p x q = write (skip_prev (skip_next h p q) p q) x none

pub without_other : (h : Heap) (p x q a : Ptr) → a ≢ x → a ≢ p → a ≢ q → without h p x q a ≡ h a
unfolding without
without_other h p x q a nx np nq = ground arith

without_prev :
    (h : Heap) (p x q : Ptr) → p ≢ null → p ≢ x → p ≢ q → without h p x q p ≡ with_next (h p) q
unfolding without
without_prev h p x q n nx nq = ground arith

without_next :
    (h : Heap) (p x q : Ptr) → q ≢ null → q ≢ x → p ≢ q → without h p x q q ≡ with_prev (h q) p
unfolding without
without_next h p x q n nx np = ground arith

pub without_self : (h : Heap) (p x q : Ptr) → without h p x q x ≡ none
unfolding without
without_self h p x q = ground arith

-- what follows the removed node
Linked-tail :
    (h : Heap) (p x : Ptr) (r : Cells)
    → Linked h x r
    → has p r ≡ false
    → has x r ≡ false
    → Linked (without h p x (first r)) p r
Linked-tail h p x [] s np nx = tt
Linked-tail h p x ((q, e) ∷ r) s np nx = (
  s.0,
  s.1,
  without_next h p x q s.0 (ground arith) (ground arith) ∙ rw s.2,
  Linked-same h (without h p x q) q r
      (λ a i. without_other h p x q a (ground arith) (ground arith) (ground arith)) s.3,
)

pub Linked-without :
    (h : Heap) (b : Ptr) (l : Cells) (x d : Ptr) (r : Cells)
    → Linked h b (l ++ (x, d) ∷ r)
    → has b (l ++ (x, d) ∷ r) ≡ false
    → Linked (without h (last b l) x (first r)) b (l ++ r)
Linked-without h b [] x d r s nb = Linked-tail h b x r s.3 (ground arith) s.1
Linked-without h b ((a, e) ∷ []) x d r s nb =
    let q = first r in
    let out = (or-eq-false (a == x) (has a r) s.1).1 in
    (
      s.0,
      out,
      without_prev h a x q s.0 ((==-eq-false a x).0 (or-eq-false (a == x) (has a r) s.1).0)
            (ne_first a r s.0 out)
          ∙ rw s.2,
      Linked-without h a [] x d r s.3 s.1,
    )
Linked-without h b ((a, e) ∷ (c, f) ∷ l) x d r s nb =
    let out = not-mem-append a ((c, f) ∷ l) ((x, d) ∷ r) s.1 in
    let left = or-eq-false (a == c) (has a l) out.0 in
    let right = or-eq-false (a == x) (has a r) out.1 in
    (
      s.0,
      rw (has-append a ((c, f) ∷ l) r, out.0, right.1),
      without_other h (last c l) x (first r) a ((==-eq-false a x).0 right.0)
            (ne_last a c l ((==-eq-false a c).0 left.0) left.1) (ne_first a r s.0 right.1)
          ∙ s.2,
      Linked-without h a ((c, f) ∷ l) x d r s.3 s.1,
    )
