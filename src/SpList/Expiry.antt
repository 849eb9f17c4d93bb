-- ===== src/SpList/Expiry.antt =====
-- The check of the list.
use karmanet.Common.{
  ◌≡◌, refl, sym, ◌∙◌, ◌≢◌, inl, inr, true, false, none, [], ◌∷◌, ◌++◌, append_assoc, ◌==◌,
  if◌then◌else◌, Bool-cases, ==-eq-false,
}
use mathlib.Core.Path.{subst₂}
use karmanet.DList.{Ptr, null}
use karmanet.SpList.{
  SpaddrNode, Entries, SpState, modify, remove_sp_node, remove_sp, get_addr, node_at, check_loop,
  check_node, check, clear_flag, head,
}
use karmanet.SpList.Shape.{get_node_sp-middle, IsDistinct-middle, erase-middle, modify-middle}
use karmanet.SpList.Cells.{IsDistinct}
use karmanet.SpList.Invariant.{remove_sp-IsValid, modify-IsValid}
use karmanet.SpList.Iterator.{IsValid}

-- the entries whose flag is up, in their order, with the flag taken down
abbrev pub survivors : Entries → Entries
survivors [] = []
survivors ((p, n) ∷ xs) =
    if n.flag == 0 then survivors xs else (p, record n { flag = 0 }) ∷ survivors xs

module _ (p : Ptr) (n : SpaddrNode) (xs : Entries) where
  survivors_silent : (n.flag == 0) ≡ true → survivors ((p, n) ∷ xs) ≡ survivors xs
  survivors_silent e = rw e

  survivors_alive :
      (n.flag == 0) ≡ false → survivors ((p, n) ∷ xs) ≡ (p, record n { flag = 0 }) ∷ survivors xs
  survivors_alive e = rw e

head-append :
    (xs ys : Entries) (p : Ptr) (n : SpaddrNode)
    → p ≢ null
    → IsDistinct (xs ++ (p, n) ∷ ys)
    → head (xs ++ (p, n) ∷ ys) ≢ null
head-append [] ys p n np d = np
head-append ((q, m) ∷ xs) ys p n np d = d.0

remove_sp-middle :
    (s : SpState) (xs ys : Entries) (p : Ptr) (n : SpaddrNode)
    → s.sp_list ≡ xs ++ (p, n) ∷ ys
    → IsDistinct (xs ++ (p, n) ∷ ys)
    → (remove_sp n.sp_addr s).sp_list ≡ xs ++ ys
unfolding remove_sp remove_sp_node
remove_sp-middle s xs ys p n e d =
    let m = IsDistinct-middle xs ys p n d in
    let np = (==-eq-false p null).1 m.0 in
    let full = (==-eq-false (head (xs ++ (p, n) ∷ ys)) null).1 (head-append xs ys p n m.0 d) in
    rw (e, get_node_sp-middle xs ys p n d, np, full) (erase-middle xs ys p n m.1)

module _ (p : Ptr) (n : SpaddrNode) (s : SpState) where
  check_node_silent : (n.flag == 0) ≡ true → check_node p n s ≡ remove_sp n.sp_addr s
  unfolding check_node
  check_node_silent e = rw e

  check_node_alive :
      (n.flag == 0) ≡ false
      → check_node p n s ≡ record s { sp_list = modify p clear_flag s.sp_list }
  unfolding check_node
  check_node_alive e = rw e

check_loop-survivors :
    (it xs : Entries) (s : SpState)
    → s.sp_list ≡ xs ++ it
    → IsValid s
    → IsValid (check_loop it s) × ((check_loop it s).sp_list ≡ xs ++ survivors it)
unfolding check_loop
check_loop-survivors [] xs s e v = (v, e)
check_loop-survivors ((p, n) ∷ it) xs s e v =
    let d : IsDistinct (xs ++ (p, n) ∷ it) = rw e at v.distinct in
    let m = IsDistinct-middle xs it p n d in
    let Goal = λ (t : SpState) (l : Entries).
      IsValid (check_loop it t) × ((check_loop it t).sp_list ≡ xs ++ l) in
    elim (Bool-cases (n.flag == 0)) [
      | inl silent ↦
          subst₂ Goal (sym (check_node_silent p n s silent)) (sym (survivors_silent p n it silent))
            (check_loop-survivors it xs (remove_sp n.sp_addr s) (remove_sp-middle s xs it p n e d)
              (remove_sp-IsValid n.sp_addr s v).0)
      | inr alive ↦
          let n' : SpaddrNode = clear_flag n in
          let t : SpState = record s { sp_list = modify p clear_flag s.sp_list } in
          let kept : t.sp_list ≡ xs ++ (p, n') ∷ it =
            rw e (modify-middle xs it p n clear_flag m.1) in
          let r =
            check_loop-survivors it (xs ++ (p, n') ∷ []) t
              (kept ∙ sym (append_assoc xs ((p, n') ∷ []) it))
              (modify-IsValid clear_flag (λ k. refl) p s v) in
          subst₂ Goal (sym (check_node_alive p n s alive)) (sym (survivors_alive p n it alive))
            (r.0, r.1 ∙ append_assoc xs ((p, n') ∷ []) (survivors it))
    ]

-- A check keeps the invariant, and leaves exactly the entries whose flag was up, in their order
-- and with the flag taken down.
pub check-survivors :
    (s : SpState) → IsValid s → IsValid (check s) × ((check s).sp_list ≡ survivors s.sp_list)
unfolding check
check-survivors s v = check_loop-survivors s.sp_list [] s refl v

survivors-survivors : (xs : Entries) → survivors (survivors xs) ≡ []
survivors-survivors [] = refl
survivors-survivors ((p, n) ∷ xs) = elim (Bool-cases (n.flag == 0)) [
  | inl silent ↦ rw silent (survivors-survivors xs)
  | inr alive ↦ rw alive (survivors-survivors xs)
]

-- After two checks with no message between them the list is empty, and `get_addr` then
-- dereferences a NULL iterator.
pub get_addr-check-check :
    (s : SpState)
    → IsValid s
    → ((check (check s)).sp_list ≡ []) × (get_addr (check (check s)) ≡ none)
unfolding get_addr node_at
get_addr-check-check s v =
    let first = check-survivors s v in
    let second = check-survivors (check s) first.0 in
    let gone : (check (check s)).sp_list ≡ [] =
      second.1 ∙ rw first.1 (survivors-survivors s.sp_list) in
    (gone, rw gone)
