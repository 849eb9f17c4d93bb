-- ===== src/SpList/Walk.antt =====
-- Calls of `get_addr` along a part of the list.
use karmanet.Common.{
  ℕ, zero, suc, ◌≡◌, refl, sym, ap, ◌∙◌, ◌≢◌, ◌⊎◌, inl, inr, false, not, Option, none, some, List,
  [], ◌∷◌, ◌++◌, append_assoc, arith, ◌==◌, if◌then◌else◌, or-eq-false, ==-eq-false, length,
}
use karmanet.DList.{Ptr, null}
use karmanet.Wire.{SockaddrIn}
use karmanet.SpList.{SpaddrNode, Entries, SpState, head, node_at, next_of, get_addr}
use karmanet.SpList.Shape.{IsDistinct-middle}
use karmanet.SpList.Cells.{has, IsDistinct}

abbrev pub addrs : Entries → List SockaddrIn
addrs [] = []
addrs ((p, n) ∷ xs) = n.sp_addr ∷ addrs xs

abbrev pub push :
    SockaddrIn → Option (List SockaddrIn × SpState) → Option (List SockaddrIn × SpState)
push a none = none
push a (some (xs, u)) = some (a ∷ xs, u)

-- the addresses that `k` calls of `get_addr` return, and the state after them
unfoldable pub next_addrs : ℕ → SpState → Option (List SockaddrIn × SpState)
next_addrs zero s = some ([], s)
next_addrs (suc k) s = elim (get_addr s) [ none ↦ none | some (a, t) ↦ push a (next_addrs k t) ]

pub next_addrs_step :
    (a : SockaddrIn) (t s : SpState) (k : ℕ)
    → get_addr s ≡ some (a, t)
    → next_addrs (suc k) s ≡ push a (next_addrs k t)
next_addrs_step a t s k e = unfold next_addrs in rw (e, next_addrs)

-- where the iterator stands when `ys` is left of the list
abbrev pub wrap : Entries → Entries → Ptr
wrap [] all = head all
wrap ((p, n) ∷ ys) all = p

abbrev pub at_node : SpState → Ptr → SpState
at_node s p = record s { it_addr = p }

node_at-middle :
    (xs ys : Entries) (p : Ptr) (n : SpaddrNode)
    → has p xs ≡ false
    → node_at p (xs ++ (p, n) ∷ ys) ≡ some n
unfolding node_at
node_at-middle [] ys p n out = ground arith
node_at-middle ((q, m) ∷ xs) ys p n out =
    let parts = or-eq-false (p == q) (has p xs) out in
    let apart : (q == p) ≡ false = ground (arith, parts.0) in
    rw apart (node_at-middle xs ys p n parts.1)

next_of-middle :
    (xs ys : Entries) (p : Ptr) (n : SpaddrNode)
    → has p xs ≡ false
    → next_of p (xs ++ (p, n) ∷ ys) ≡ head ys
unfolding next_of
next_of-middle [] ys p n out = ground arith
next_of-middle ((q, m) ∷ xs) ys p n out =
    let parts = or-eq-false (p == q) (has p xs) out in
    let apart : (q == p) ≡ false = ground (arith, parts.0) in
    rw apart (next_of-middle xs ys p n parts.1)

IsDistinct-head : (xs ys : Entries) → IsDistinct (xs ++ ys) → (ys ≡ []) ⊎ (head ys ≢ null)
IsDistinct-head [] [] d = inl refl
IsDistinct-head [] ((p, n) ∷ ys) d = inr d.0
IsDistinct-head ((q, m) ∷ xs) ys d = IsDistinct-head xs ys d.3

wrap-head :
    (ys all : Entries)
    → (ys ≡ []) ⊎ (head ys ≢ null)
    → (if not (head ys == null) then head ys else head all) ≡ wrap ys all
wrap-head [] all h = refl
wrap-head ((p, n) ∷ ys) all (inl e) = cc
wrap-head ((p, n) ∷ ys) all (inr np) = rw ((==-eq-false p null).1 np)

pub get_addr-some :
    (s : SpState) (n : SpaddrNode)
    → node_at s.it_addr s.sp_list ≡ some n
    → get_addr s
      ≡ some (
        n.sp_addr,
        at_node s (
            if not (next_of s.it_addr s.sp_list == null)
            then next_of s.it_addr s.sp_list
            else head s.sp_list),
      )
unfolding get_addr
get_addr-some s n e = rw (e, get_addr)

-- one call at a node of the list
pub get_addr-middle :
    (s : SpState) (xs ys : Entries) (p : Ptr) (n : SpaddrNode)
    → s.sp_list ≡ xs ++ (p, n) ∷ ys
    → IsDistinct (xs ++ (p, n) ∷ ys)
    → s.it_addr ≡ p
    → get_addr s ≡ some (n.sp_addr, at_node s (wrap ys s.sp_list))
get_addr-middle s xs ys p n e d here =
    let m = IsDistinct-middle xs ys p n d in
    let all = s.sp_list in
    let after : next_of s.it_addr all ≡ head ys = rw (here, e) (next_of-middle xs ys p n m.1) in
    let tail = IsDistinct-head (xs ++ (p, n) ∷ []) ys (rw append_assoc d) in
    get_addr-some s n (rw (here, e) (node_at-middle xs ys p n m.1))
    ∙ ap (λ q. some (n.sp_addr, at_node s q)) (rw after (wrap-head ys all tail))

-- Calls from the cell `zs` on, as many as `zs` has cells.
pub next_addrs-walk :
    (zs xs r : Entries) (s : SpState)
    → s.sp_list ≡ xs ++ (zs ++ r)
    → IsDistinct (xs ++ (zs ++ r))
    → s.it_addr ≡ wrap (zs ++ r) s.sp_list
    → next_addrs (length zs) s ≡ some (addrs zs, at_node s (wrap r s.sp_list))
unfolding next_addrs
next_addrs-walk [] xs r s e d here = ap (λ q. some ([], at_node s q)) here
next_addrs-walk ((p, n) ∷ zs) xs r s e d here =
    let t = at_node s (wrap (zs ++ r) s.sp_list) in
    let again = append_assoc xs ((p, n) ∷ []) (zs ++ r) in
    rw (
      get_addr-middle s xs (zs ++ r) p n e d here,
      next_addrs,
      next_addrs-walk zs (xs ++ (p, n) ∷ []) r t (e ∙ sym again) (rw again d) refl,
    )
