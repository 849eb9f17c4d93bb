-- ===== src/SpList/Free.antt =====
-- The superpeers with room for another neighbour.
use mathlib.Core.List.{reverse, reverse_aux}
use karmanet.Common.{
  ℕ, zero, suc, ◌+◌, ◌≡◌, sym, ap, ◌∙◌, inl, inr, true, false, List, [], ◌∷◌, arith, ltb, leb,
  if◌then◌else◌, Bool-cases, length, take,
}
use mathlib.Core.Path.{subst, subst₂}
use karmanet.SpList.{SpaddrNode, Entries, SpState, get_addr_sp_loop, get_addr_sp}

abbrev pub free_nodes : Entries → List SpaddrNode
free_nodes [] = []
free_nodes ((p, n) ∷ xs) = if ltb 0 n.free_spots then n ∷ free_nodes xs else free_nodes xs

get_addr_sp_loop-free :
    (k dim : ℕ) (it : Entries) (ret : List SpaddrNode)
    → get_addr_sp_loop (dim + suc k) it ret dim ≡ (
      reverse_aux (take (suc k) (free_nodes it)) ret,
      dim + length (take (suc k) (free_nodes it)),
    )
unfolding get_addr_sp_loop
get_addr_sp_loop-free k dim [] ret = ap (λ d. (ret, d)) (omega arith)
get_addr_sp_loop-free zero dim ((p, n) ∷ it) ret = elim (Bool-cases (ltb 0 n.free_spots)) [
  | inr busy ↦ rw busy (get_addr_sp_loop-free zero dim it ret)
  | inl free ↦ let full : leb (dim + 1) (dim + 1) ≡ true = ground arith in rw (free, full)
]
get_addr_sp_loop-free (suc k) dim ((p, n) ∷ it) ret = elim (Bool-cases (ltb 0 n.free_spots)) [
  | inr busy ↦ rw busy (get_addr_sp_loop-free (suc k) dim it ret)
  | inl free ↦
      let room : leb (dim + suc (suc k)) (dim + 1) ≡ false = ground arith in
      let shift : dim + suc (suc k) ≡ (dim + 1) + suc k = omega arith in
      let size : (dim + 1) + length (take (suc k) (free_nodes it))
          ≡ dim + suc (length (take (suc k) (free_nodes it))) =
        omega arith in
      let ys = take (suc k) (free_nodes it) in
      rw (free, room)
        (subst
          (λ j.
            get_addr_sp_loop j it (n ∷ ret) (dim + 1)
            ≡ (reverse_aux ys (n ∷ ret), dim + suc (length ys)))
          (sym shift)
          (get_addr_sp_loop-free k (dim + 1) it (n ∷ ret)
            ∙ ap (λ d. (reverse_aux ys (n ∷ ret), d)) size))
]

-- The client that asks for superpeers with room is given the first of them in the list, at most
-- as many as it asked for, in the opposite order, and their number.
pub get_addr_sp-free_nodes :
    (k : ℕ) (s : SpState)
    → get_addr_sp (suc k) s ≡ (
      reverse (take (suc k) (free_nodes s.sp_list)),
      length (take (suc k) (free_nodes s.sp_list)),
    )
unfolding get_addr_sp
get_addr_sp-free_nodes k s =
    let ys = take (suc k) (free_nodes s.sp_list) in
    let bound : 0 + suc k ≡ suc k = omega arith in
    let size : 0 + length ys ≡ length ys = omega arith in
    subst₂ (λ j d. get_addr_sp_loop j s.sp_list [] 0 ≡ (reverse ys, d)) bound size
      (get_addr_sp_loop-free k 0 s.sp_list [])
