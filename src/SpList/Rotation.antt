-- ===== src/SpList/Rotation.antt =====
-- Rounds of `get_addr` over the list.
use karmanet.Common.{
  ℕ, zero, suc, ◌+◌, ◌≡◌, refl, sym, ap, ◌∙◌, inl, inr, Option, none, some, List, [], ◌∷◌, ◌++◌,
  append-nil, arith, Option-cases, length, length-append,
}
use mathlib.Core.Path.{subst}
use karmanet.DList.{Ptr}
use karmanet.Wire.{SockaddrIn}
use karmanet.SpList.{SpaddrNode, Entries, SpState, head, node_at, get_addr}
use karmanet.SpList.Cells.{IsDistinct}
use karmanet.SpList.Iterator.{IsValid}
use karmanet.SpList.Walk.{
  addrs, push, next_addrs, next_addrs_step, wrap, at_node, get_addr-some, next_addrs-walk,
}

abbrev pub glue :
    List SockaddrIn → Option (List SockaddrIn × SpState) → Option (List SockaddrIn × SpState)
glue xs none = none
glue xs (some (ys, u)) = some (xs ++ ys, u)

-- `k` more calls after the result of some
then_next : ℕ → Option (List SockaddrIn × SpState) → Option (List SockaddrIn × SpState)
then_next k none = none
then_next k (some (xs, t)) = glue xs (next_addrs k t)

glue-nil : (o : Option (List SockaddrIn × SpState)) → glue [] o ≡ o
glue-nil none = refl
glue-nil (some (ys, u)) = refl

then_next-push :
    (a : SockaddrIn) (k : ℕ) (o : Option (List SockaddrIn × SpState))
    → then_next k (push a o) ≡ push a (then_next k o)
unfolding then_next
then_next-push a k none = refl
then_next-push a k (some (xs, t)) = elim (Option-cases (next_addrs k t)) [
  | inl e ↦ rw e
  | inr (r, e) ↦ rw e
]

next_addrs-add : (j k : ℕ) (s : SpState) → next_addrs (j + k) s ≡ then_next k (next_addrs j s)
next_addrs-add zero k s =
    let e : 0 + k ≡ k = omega arith in
    unfold next_addrs then_next in rw e (sym (glue-nil (next_addrs k s)))
next_addrs-add (suc j) k s =
    let e : suc j + k ≡ suc (j + k) = omega arith in
    rw e (elim (Option-cases (get_addr s)) [
      | inl fault ↦ unfold next_addrs then_next in rw (fault, next_addrs)
      | inr ((a, t), run) ↦
          next_addrs_step a t s (j + k) run
          ∙ ap (push a) (next_addrs-add j k t)
          ∙ sym (then_next-push a k (next_addrs j t))
          ∙ ap (then_next k) (sym (next_addrs_step a t s j run))
    ])

wrap-append :
    (xs : Entries) (p : Ptr) (n : SpaddrNode) (ys : Entries) (all : Entries)
    → wrap (xs ++ (p, n) ∷ ys) all ≡ head (xs ++ (p, n) ∷ ys)
wrap-append [] p n ys all = refl
wrap-append ((q, m) ∷ xs) p n ys all = refl

-- As many calls of `get_addr` as the list has entries return every address once, in the order of
-- the list from the iterator on and round to it, and leave the iterator where it was.
pub next_addrs-length :
    (s : SpState) (xs ys : Entries) (n : SpaddrNode)
    → IsValid s
    → s.sp_list ≡ xs ++ (s.it_addr, n) ∷ ys
    → next_addrs (length s.sp_list) s ≡ some (addrs ((s.it_addr, n) ∷ ys) ++ addrs xs, s)
unfolding then_next
next_addrs-length s xs ys n v e =
    let p = s.it_addr in
    let zs : Entries = (p, n) ∷ ys in
    let all = s.sp_list in
    let d : IsDistinct (xs ++ zs) = rw e at v.distinct in
    let there : all ≡ xs ++ (zs ++ []) = e ∙ ap (λ l. xs ++ l) (sym (append-nil zs)) in
    let t = at_node s (head all) in
    let one = next_addrs-walk zs xs [] s there (rw append-nil d) refl in
    let start : head all ≡ wrap (xs ++ zs) all = rw wrap-append (rw e) in
    let two = next_addrs-walk xs [] zs t e d start in
    let size : length all ≡ length zs + length xs = rw (e, length-append) (omega arith) in
    rw (size, next_addrs-add (length zs) (length xs) s, one, then_next, two)

push-eq-some :
    (a : SockaddrIn) (o : Option (List SockaddrIn × SpState)) {r : List SockaddrIn} {u : SpState}
    → push a o ≡ some (a ∷ r, u)
    → o ≡ some (r, u)
push-eq-some a none e = cc
push-eq-some a (some (xs, t)) e = ground arith

-- a full round that starts one address later
pub next_addrs_again :
    (s t : SpState) (a : SockaddrIn) (m : ℕ) (r : List SockaddrIn)
    → get_addr s ≡ some (a, t)
    → next_addrs (suc m) s ≡ some (a ∷ r, s)
    → next_addrs (suc m) t ≡ some (r ++ a ∷ [], t)
next_addrs_again s t a m r run round =
    let rest : next_addrs m t ≡ some (r, s) =
      push-eq-some a (next_addrs m t) (sym (next_addrs_step a t s m run) ∙ round) in
    let one : next_addrs 1 s ≡ some (a ∷ [], t) =
      next_addrs_step a t s 0 run ∙ (unfold next_addrs in refl) in
    let e : suc m ≡ m + 1 = omega arith in
    rw (e, next_addrs-add m 1 t, rest) (unfold then_next in rw one)

abbrev second {ℓ κ} : {A : Type ℓ} {B : Type κ} → B → Option (A × B) → B
second b none = b
second b (some (x, y)) = y

abbrev first {ℓ κ} : {A : Type ℓ} {B : Type κ} → A → Option (A × B) → A
first a none = a
first a (some (x, y)) = x

get_addr-none : (s : SpState) → node_at s.it_addr s.sp_list ≡ none → get_addr s ≡ none
get_addr-none s e = unfold get_addr in rw (e, get_addr)

-- only the iterator moves
pub get_addr-at_node :
    (s t : SpState) (a : SockaddrIn) → get_addr s ≡ some (a, t) → t ≡ at_node s t.it_addr
get_addr-at_node s t a e = elim (Option-cases (node_at s.it_addr s.sp_list)) [
  | inl fault ↦ cc (sym (get_addr-none s fault) ∙ e)
  | inr (n, found) ↦
      subst (λ u. u ≡ at_node s u.it_addr) (ap (second t) (sym (get_addr-some s n found) ∙ e)) refl
]

next_addrs_fault : (k : ℕ) (s : SpState) → get_addr s ≡ none → next_addrs (suc k) s ≡ none
next_addrs_fault k s e = unfold next_addrs in rw (e, next_addrs)

-- a run of at least one call begins with one that does not fault
pub next_addrs_inv :
    (k : ℕ) (s u : SpState) (xs : List SockaddrIn)
    → next_addrs (suc k) s ≡ some (xs, u)
    → (a : SockaddrIn) × (t : SpState) × (ys : List SockaddrIn) × (get_addr s ≡ some (a, t))
      × (next_addrs k t ≡ some (ys, u))
      × (xs ≡ a ∷ ys)
next_addrs_inv k s u xs e = elim (Option-cases (get_addr s)) [
  | inl fault ↦ cc (sym (next_addrs_fault k s fault) ∙ e)
  | inr ((a, t), run) ↦
      let step = sym (next_addrs_step a t s k run) ∙ e in
      elim (Option-cases (next_addrs k t)) [
        | inl stop ↦ cc (sym (ap (push a) stop) ∙ step)
        | inr ((ys, w), rest) ↦
            let done : some (a ∷ ys, w) ≡ some (xs, u) = sym (ap (push a) rest) ∙ step in
            (
              a,
              t,
              ys,
              run,
              rest ∙ ap (λ v. some (ys, v)) (ap (second u) done),
              sym (ap (first xs) done),
            )
      ]
]
