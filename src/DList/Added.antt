-- ===== src/DList/Added.antt =====
-- The heap with a new node before a node of a list.
use karmanet.Common.{
  ◌≡◌, refl, sym, ◌≢◌, false, Option, none, some, [], ◌∷◌, arith, ◌==◌, if◌then◌else◌, or-eq-false,
  ==-eq-false,
}
use karmanet.DList.{
  Ptr, null, Node, node, Heap, write, set_prev, set_prev-some, alloc, when_not_null,
}
use karmanet.DList.Shape.{Cells, has, first, Linked, Linked-same}

with_prev : Option Node → Ptr → Option Node
with_prev none p = none
with_prev (some n) p = some (record n { prev = p })

-- the heap after a new node at `x` before the node `q`, if there is one
pub added : Heap → Ptr → Node → Heap
unfolding write with_prev
added h x n =
    let g = write h x (some n) in
    if n.next == null then g else write g n.next (with_prev (g n.next) x)

pub added_self : (h : Heap) (x : Ptr) (n : Node) → x ≢ n.next → added h x n x ≡ some n
unfolding added
added_self h x n ne = ground arith

pub added_other :
    (h : Heap) (x : Ptr) (n : Node) (a : Ptr) → a ≢ x → a ≢ n.next → added h x n a ≡ h a
unfolding added
added_other h x n a nx nq = ground arith

added_next :
    (h : Heap) (x : Ptr) (n : Node) {m : Node}
    → n.next ≢ x
    → n.next ≢ null
    → h n.next ≡ some m
    → added h x n n.next ≡ some (record m { prev = x })
unfolding added
added_next h x n nx nz e = ground arith

-- the cells behind the new one
pub Linked-added :
    (h : Heap) (b x d p : Ptr) (r : Cells)
    → Linked h b r
    → has x r ≡ false
    → Linked (added h x (node d (first r) p)) x r
Linked-added h b x d p [] s out = tt
Linked-added h b x d p ((q, e) ∷ r) s out =
    let parts = or-eq-false (x == q) (has x r) out in
    let apart : q ≢ x = λ same. (==-eq-false x q).0 parts.0 (sym same) in
    let n = node d q p in
    (
      s.0,
      s.1,
      added_next h x n apart s.0 s.2,
      Linked-same h (added h x n) q r (λ a i. added_other h x n a (ground arith) (ground arith))
          s.3,
    )

pub alloc-some :
    (x : Ptr) (n : Node) (h : Heap) → x ≢ null → alloc x n h ≡ some (tt, write h x (some n))
unfolding alloc
alloc-some x n h nx = rw ((==-eq-false x null).1 nx)

-- the new node becomes the predecessor of the node behind it, if there is one
pub mend :
    (h : Heap) (x d p b : Ptr) (r : Cells)
    → Linked h b r
    → has x r ≡ false
    → when_not_null (first r) (set_prev (first r) x) (write h x (some (node d (first r) p)))
      ≡ some (tt, added h x (node d (first r) p))
unfolding added when_not_null
mend h x d p b [] s out = refl
mend h x d p b ((q, e) ∷ r) s out =
    let c = some (node d q p) in
    let parts = or-eq-false (x == q) (has x r) out in
    let beside : write h x c q ≡ some (node e (first r) b) =
      unfold write in
      rw ((==-eq-false q x).1 (λ same. (==-eq-false x q).0 parts.0 (sym same))) s.2 in
    rw ((==-eq-false q null).1 s.0, set_prev-some (write h x c) q s.0 beside x, beside)
