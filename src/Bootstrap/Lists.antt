-- ===== src/Bootstrap/Lists.antt =====
-- The addresses that the bootstrap hands out.
use karmanet.Common.Memory.{◌>>=◌}
use karmanet.Common.{
  ℕ, zero, suc, ◌+◌, ◌≤◌, min, ◌≡◌, refl, ap, ◌∙◌, true, false, Option, none, some, List, [], ◌∷◌,
  ◌++◌, map, arith, ltb, if◌then◌else◌, length, take, length-append, length-take-min,
  length-reverse, length-map,
}
use mathlib.Core.Path.{subst}
use karmanet.DList.{Ptr}
use karmanet.Wire.{SockaddrIn, addr2str}
use karmanet.Wire.Addresses.{addr_bytes, length-addr_bytes}
use karmanet.SpList.{SpaddrNode, Entries, SpState}
use mathlib.Core.List.{reverse}
use karmanet.SpList.Free.{free_nodes, get_addr_sp-free_nodes}
use karmanet.SpList.Cells.{IsDistinct}
use karmanet.SpList.Iterator.{IsValid}
use karmanet.SpList.Rotation.{next_addrs-length, next_addrs_again, get_addr-at_node, next_addrs_inv}
use karmanet.SpList.Walk.{addrs, next_addrs, at_node, wrap, get_addr-middle}
use karmanet.Bootstrap.{addr_tosend, addr_loop, node_bytes, in_array, set_str_addrlist}

take-append_le {ℓ} :
    {A : Type ℓ} (i : ℕ) (xs ys : List A) → i ≤ length xs → take i (xs ++ ys) ≡ take i xs
take-append_le zero xs ys h = refl
take-append_le (suc i) [] ys h = absurd (omega arith)
take-append_le (suc i) (x ∷ xs) ys h = ap (λ l. x ∷ l) (take-append_le i xs ys (omega arith))

-- the loop writes the addresses of the calls of `get_addr` before its last
addr_loop-next_addrs :
    (i k : ℕ) (a : SockaddrIn) (s u : SpState) (xs : List SockaddrIn)
    → next_addrs k s ≡ some (xs, u)
    → i ≤ k
    → (q : Ptr) × (addr_loop i a s ≡ some (addr_bytes (take i (a ∷ xs)), at_node s q))
unfolding addr_loop
addr_loop-next_addrs zero k a s u xs e h = (s.it_addr, refl)
addr_loop-next_addrs (suc i) zero a s u xs e h = absurd (omega arith)
addr_loop-next_addrs (suc i) (suc k) a s u xs e h =
    let (b, t, ys, run, rest, split) = next_addrs_inv k s u xs e in
    let (q, loop) = addr_loop-next_addrs i k b t u ys rest (omega arith) in
    let moved : at_node t q ≡ at_node s q = ap (λ v. at_node v q) (get_addr-at_node s t b run) in
    (q, rw (run, loop, split, moved))

pub length-addrs : (xs : Entries) → length (addrs xs) ≡ length xs
length-addrs [] = refl
length-addrs ((p, n) ∷ xs) = ap suc (length-addrs xs)

few : (k : ℕ) (xs : List SockaddrIn) → k ≤ 2 → length (addr_bytes (take k xs)) ≤ 12
few k xs h =
    let size = length-addr_bytes (take k xs) in
    let part = length-take-min k xs in omega (arith, h, size, part)

in_array-some : (str : List ℕ) → length str ≤ 12 → in_array str ≡ some str
unfolding in_array
in_array-some str h = let fits : ltb 12 (length str) ≡ false = ground arith in rw fits refl

-- A client that is no superpeer is given the addresses that follow the iterator round the list,
-- two of them or all if there are fewer; the iterator moves on by one entry.
pub set_str_addrlist-client :
    (s : SpState) (xs ys : Entries) (n : SpaddrNode)
    → IsValid s
    → s.sp_list ≡ xs ++ (s.it_addr, n) ∷ ys
    → set_str_addrlist false s
      ≡ some (
        some (
          addr_bytes
              (take (min (length s.sp_list) addr_tosend) (addrs ((s.it_addr, n) ∷ ys) ++ addrs xs)),
          min (length s.sp_list) addr_tosend,
        ),
        at_node s (wrap ys s.sp_list),
      )
unfolding set_str_addrlist
set_str_addrlist-client s xs ys n v e =
    let a = n.sp_addr in
    let all = s.sp_list in
    let r = addrs ys ++ addrs xs in
    let m = length ys + length xs in
    let k = min (length all) addr_tosend in
    let t = at_node s (wrap ys all) in
    let d : IsDistinct (xs ++ (s.it_addr, n) ∷ ys) = rw e at v.distinct in
    let run = get_addr-middle s xs ys s.it_addr n e d refl in
    let size : length all ≡ suc m = rw (e, length-append) (omega arith) in
    let round =
      subst (λ j. next_addrs j s ≡ some (a ∷ r, s)) size (next_addrs-length s xs ys n v e) in
    let again = next_addrs_again s t a m r run round in
    let ret : (if ltb s.sp_count addr_tosend then s.sp_count else addr_tosend) ≡ k =
      rw v.count (ground arith) in
    let (q, loop) =
      addr_loop-next_addrs k (suc m) a t t (r ++ a ∷ []) again (omega (arith, size)) in
    let wide : length r ≡ m = rw (length-append, length-addrs ys, length-addrs xs) in
    let short = take-append_le k (a ∷ r) (a ∷ []) (omega (arith, wide, size)) in
    let fits = in_array-some (addr_bytes (take k (a ∷ r))) (few k (a ∷ r) (omega arith)) in
    rw (run, ret, loop, short, fits)

node_bytes-addrs : (ns : List SpaddrNode) → node_bytes ns ≡ addr_bytes (map (λ n. n.sp_addr) ns)
unfolding node_bytes
node_bytes-addrs [] = refl
node_bytes-addrs (n ∷ ns) =
    ap (λ l. addr2str n.sp_addr.s_addr n.sp_addr.sin_port ++ l) (node_bytes-addrs ns)

-- the result for a list of nodes
abbrev pub listing : List SpaddrNode → ℕ → Option (List ℕ × ℕ)
listing [] dim = none
listing (n ∷ ns) dim = some (addr_bytes (map (λ m. m.sp_addr) (n ∷ ns)), dim)

-- what becomes of the list that `get_addr_sp` built
abbrev in_nodes : SpState → List SpaddrNode × ℕ → Option (Option (List ℕ × ℕ) × SpState)
in_nodes s r = elim r.0 [
  | [] ↦ some (none, s)
  | n ∷ ns ↦ in_array (node_bytes (n ∷ ns)) >>= λ str. some (some (str, r.1), s)
]

in_nodes-listing :
    (s : SpState) (ns : List SpaddrNode) (dim : ℕ)
    → length ns ≤ 2
    → in_nodes s (ns, dim) ≡ some (listing ns dim, s)
in_nodes-listing s [] dim h = refl
in_nodes-listing s (m ∷ ms) dim h =
    let sizes = length-addr_bytes (map (λ n. n.sp_addr) (m ∷ ms)) in
    let count : length (map (λ n. n.sp_addr) (m ∷ ms)) ≡ length (m ∷ ms) =
      length-map (λ n. n.sp_addr) (m ∷ ms) in
    ap store (node_bytes-addrs (m ∷ ms))
    ∙ ap given (
        in_array-some (addr_bytes (map (λ n. n.sp_addr) (m ∷ ms))) (omega (arith, h, sizes, count)))
  where
    given : Option (List ℕ) → Option (Option (List ℕ × ℕ) × SpState)
    given o = o >>= λ str. some (some (str, dim), s)

    store : List ℕ → Option (Option (List ℕ × ℕ) × SpState)
    store b = given (in_array b)

-- A superpeer is given the addresses of at most two superpeers with room for another neighbour,
-- or the result -1 if there are none; the state does not change.
pub set_str_addrlist-superpeer :
    (s : SpState)
    → set_str_addrlist true s
      ≡ some (
        listing
            (reverse (take addr_tosend (free_nodes s.sp_list)))
            (length (take addr_tosend (free_nodes s.sp_list))),
        s,
      )
unfolding set_str_addrlist
set_str_addrlist-superpeer s =
    let found = take addr_tosend (free_nodes s.sp_list) in
    let size = length-take-min addr_tosend (free_nodes s.sp_list) in
    ap (in_nodes s) (get_addr_sp-free_nodes 1 s)
    ∙ in_nodes-listing s (reverse found) (length found) (omega (arith, size, length-reverse found))
