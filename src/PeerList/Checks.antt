-- ===== src/PeerList/Checks.antt =====
-- The passes of the checker over the list of peers.
use karmanet.Common.{
  ℕ, suc, ◌+◌, ◌-◌, ◌≡◌, refl, sym, ap, ◌∙◌, inl, inr, true, false, some, List, [], ◌∷◌, ◌++◌,
  append_assoc, arith, ◌==◌, if◌then◌else◌, Bool-cases, length, length-append,
}
use karmanet.Common.Positions.{change_at, remove_at-middle, change_at-middle, is_empty-middle}
use karmanet.PeerList.{PeerNode, PeerState, remove_peer_node, clear_flag, check_loop, check}

-- the peers that were heard of, with the flag taken down
abbrev pub survivors : List PeerNode → List PeerNode
survivors [] = []
survivors (n ∷ ns) = if n.flag == 0 then survivors ns else clear_flag n ∷ survivors ns

-- the address and the port for downloads of those that were not
abbrev pub silent : List PeerNode → List (ℕ × ℕ)
silent [] = []
silent (n ∷ ns) = if n.flag == 0 then (n.peer_addr.s_addr, n.dw_port) ∷ silent ns else silent ns

abbrev state : List PeerNode → ℕ → PeerState
state ns c = record { peer_list_head = ns; curr_p_count = c }

remove_peer_node-middle :
    (xs : List PeerNode) (n : PeerNode) (ys : List PeerNode) (c : ℕ)
    → remove_peer_node (some (length xs)) (state (xs ++ n ∷ ys) c) ≡ state (xs ++ ys) (c - 1)
unfolding remove_peer_node
remove_peer_node-middle xs n ys c = rw (is_empty-middle xs n ys, remove_at-middle xs n ys)

abbrev add_call : ℕ × ℕ → PeerState × List (ℕ × ℕ) → PeerState × List (ℕ × ℕ)
add_call k r = (r.0, k ∷ r.1)

module _ (i : ℕ) (n : PeerNode) (it : List PeerNode) (s : PeerState) where
  check_loop_silent :
      (n.flag == 0) ≡ true
      → check_loop i (n ∷ it) s
        ≡ add_call (n.peer_addr.s_addr, n.dw_port) (check_loop i it (remove_peer_node (some i) s))
  unfolding check_loop
  check_loop_silent e = rw e

  check_loop_alive :
      (n.flag == 0) ≡ false
      → check_loop i (n ∷ it) s
        ≡ check_loop
            (suc i)
            it
            (record s { peer_list_head = change_at i clear_flag s.peer_list_head })
  unfolding check_loop
  check_loop_alive e = rw e

-- the pass from the end of `xs` on
check_loop-survivors :
    (it xs : List PeerNode) (c : ℕ)
    → c ≡ length xs + length it
    → check_loop (length xs) it (state (xs ++ it) c)
      ≡ (state (xs ++ survivors it) (length xs + length (survivors it)), silent it)
unfolding check_loop
check_loop-survivors [] xs c e = ap (λ k. (state (xs ++ []) k, [])) e
check_loop-survivors (n ∷ it) xs c e = elim (Bool-cases (n.flag == 0)) [
  | inl quiet ↦
      let less : c - 1 ≡ length xs + length it = omega (arith, e) in
      check_loop_silent (length xs) n it (state (xs ++ n ∷ it) c) quiet
      ∙ ap (λ t. add_call (n.peer_addr.s_addr, n.dw_port) (check_loop (length xs) it t))
          (remove_peer_node-middle xs n it c)
      ∙ ap (add_call (n.peer_addr.s_addr, n.dw_port)) (check_loop-survivors it xs (c - 1) less)
      ∙ rw quiet refl
  | inr alive ↦
      let n' = clear_flag n in
      let step = xs ++ n' ∷ [] in
      let size : suc (length xs) ≡ length step = rw length-append (omega arith) in
      let moved : change_at (length xs) clear_flag (xs ++ n ∷ it) ≡ step ++ it =
        change_at-middle clear_flag xs n it ∙ sym (append_assoc xs (n' ∷ []) it) in
      let total : c ≡ length step + length it = omega (arith, e, size) in
      let len : length step + length (survivors it) ≡ length xs + suc (length (survivors it)) =
        omega (arith, size) in
      let whole : step ++ survivors it ≡ xs ++ n' ∷ survivors it =
        append_assoc xs (n' ∷ []) (survivors it) in
      check_loop_alive (length xs) n it (state (xs ++ n ∷ it) c) alive
      ∙ ap (λ k. check_loop k it (state (change_at (length xs) clear_flag (xs ++ n ∷ it)) c)) size
      ∙ ap (λ l. check_loop (length step) it (state l c)) moved
      ∙ check_loop-survivors it step c total
      ∙ ap (λ k. (state (step ++ survivors it) k, silent it)) len
      ∙ ap (λ l. (state l (length xs + suc (length (survivors it))), silent it)) whole
      ∙ rw alive refl
]

-- A pass keeps exactly the peers whose flag was up, in their order, with the flag taken down and
-- counted; the shared files of the others are dropped, one call for each of them in their order.
pub check-silent :
    (ns : List PeerNode)
    → check (record { peer_list_head = ns; curr_p_count = length ns })
      ≡ (record { peer_list_head = survivors ns; curr_p_count = length (survivors ns) }, silent ns)
unfolding check
check-silent ns =
    let total : length ns ≡ 0 + length ns = omega arith in
    let size : 0 + length (survivors ns) ≡ length (survivors ns) = omega arith in
    check_loop-survivors ns [] (length ns) total
    ∙ ap (λ k. (state (survivors ns) k, silent ns)) size
