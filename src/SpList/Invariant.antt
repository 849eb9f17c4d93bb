-- ===== src/SpList/Invariant.antt =====
-- The invariant of the bootstrap's list under the operations.
use karmanet.Common.{
  ℕ, ◌≡◌, refl, sym, ◌∙◌, ◌≢◌, ◌⊎◌, inl, inr, true, false, not, ◌&&◌, ◌||◌, none, some, [], ◌∷◌,
  arith, ◌==◌, if◌then◌else◌, Bool-cases, ==-eq-false, length,
}
use mathlib.Core.Path.{subst}
use karmanet.DList.{Ptr, null}
use karmanet.Wire.{SockaddrIn, addrcmp}
use karmanet.SpList.{
  SpaddrNode, Entries, SpState, head, modify, get_node_sp, insert_sp, remove_sp_node, remove_sp,
  update_sp_flag, raise_flag,
}
use karmanet.SpList.Shape.{knows-erase_found, get_node_sp-cases}
use karmanet.SpList.Cells.{
  has, knows, IsDistinct, length-erase, erase-IsDistinct, has-modify, length-modify,
  modify-IsDistinct, knows-modify, knows_congr,
}
use karmanet.SpList.Iterator.{Points, or_right, head_ne_null, Points-erase, IsValid}

count_reset :
    (xs : Entries) (c : ℕ)
    → IsDistinct xs
    → c ≡ length xs
    → (if head xs == null then 0 else c) ≡ length xs
count_reset [] c d e = refl
count_reset ((p, n) ∷ xs) c d e = rw ((==-eq-false p null).1 d.0) e

Points-cons :
    (it p : Ptr) (n : SpaddrNode) (xs : Entries)
    → Points it xs
    → Points (if it == null then p else it) ((p, n) ∷ xs)
Points-cons it p n xs (inl none_left) = inr (rw none_left.1 (ground arith))
Points-cons it p n xs (inr inside) =
    let within = λ (q : Ptr). has q ((p, n) ∷ xs) ≡ true in
    elim (Bool-cases (it == null)) [
      | inl z ↦ rw z (inr (ground arith))
      | inr nz ↦
          let e : it ≡ (if it == null then p else it) = rw nz in
          inr (subst within e (or_right (it == p) inside))
    ]

Points-modify :
    (f : SpaddrNode → SpaddrNode)
    → ((n : SpaddrNode) → (f n).sp_addr ≡ n.sp_addr)
    → (p it : Ptr) (xs : Entries) → Points it xs
    → Points it (modify p f xs)
Points-modify f same p it xs (inl none_left) =
    inl (rw none_left.0 (unfold modify in refl), none_left.1)
Points-modify f same p it xs (inr inside) = inr (has-modify f same p it xs ∙ inside)

-- a state whose data changed at one node
pub modify-IsValid :
    (f : SpaddrNode → SpaddrNode)
    → ((n : SpaddrNode) → (f n).sp_addr ≡ n.sp_addr)
    → (p : Ptr) (s : SpState) → IsValid s
    → IsValid (record s { sp_list = modify p f s.sp_list })
modify-IsValid f same p s v = record {
  distinct = modify-IsDistinct f same p s.sp_list v.distinct;
  count = v.count ∙ sym (length-modify f same p s.sp_list);
  iterator = Points-modify f same p s.it_addr s.sp_list v.iterator;
}

module _ (fresh : Ptr) (a : SockaddrIn) (free_spots : ℕ) (s : SpState) (v : IsValid s)
    (nf : fresh ≢ null) (unused : has fresh s.sp_list ≡ false) where
  -- Registration keeps the invariant, and afterwards the list knows the addresses that it knew and
  -- the new one.
  pub insert_sp-IsValid :
      IsValid (insert_sp fresh a free_spots s)
      × ((b : SockaddrIn)
          → knows b (insert_sp fresh a free_spots s).sp_list ≡ (addrcmp a b || knows b s.sp_list))
  unfolding insert_sp
  insert_sp-IsValid =
      let reset = count_reset s.sp_list s.sp_count v.distinct v.count in
      elim (get_node_sp-cases a s.sp_list v.distinct) [
        | inl missing ↦
            rw (missing.0, reset)
              (
                record {
                  distinct = (nf, unused, missing.1, v.distinct);
                  count = omega arith;
                  iterator = Points-cons s.it_addr fresh _ s.sp_list v.iterator;
                },
                λ b. refl,
              )
        | inr found ↦
            let q = get_node_sp a s.sp_list in
            let m = modify-IsValid raise_flag (λ n. refl) q s v in
            rw ((==-eq-false q null).1 found.0, reset, ← v.count)
              (
                m,
                λ b.
                    knows-modify raise_flag (λ n. refl) q b s.sp_list
                    ∙ ground (arith, knows_congr a b s.sp_list, found.2),
              )
      ]

module _ (a : SockaddrIn) (s : SpState) (v : IsValid s) where
  -- Removal keeps the invariant, the iterator included, and afterwards the list knows the same
  -- addresses but the one removed.
  pub remove_sp-IsValid :
      IsValid (remove_sp a s)
      × ((b : SockaddrIn)
          → knows b (remove_sp a s).sp_list ≡ (not (addrcmp a b) && knows b s.sp_list))
  unfolding remove_sp remove_sp_node
  remove_sp-IsValid =
      let p = get_node_sp a s.sp_list in
      elim (get_node_sp-cases a s.sp_list v.distinct) [
        | inl missing ↦ rw missing.0 (v, λ b. ground (arith, knows_congr a b s.sp_list, missing.1))
        | inr found ↦
            let full =
              (==-eq-false (head s.sp_list) null).1 (head_ne_null p s.sp_list v.distinct found.1) in
            rw ((==-eq-false p null).1 found.0, full)
              (
                record {
                  distinct = erase-IsDistinct p s.sp_list v.distinct;
                  count = omega (arith, length-erase p s.sp_list found.1, v.count);
                  iterator = Points-erase p s.it_addr s.sp_list v.distinct found.1 v.iterator;
                },
                λ b. knows-erase_found a b s.sp_list v.distinct,
              )
      ]

-- A ping from a known address keeps the invariant and the known addresses; from any other it
-- changes nothing and fails.
pub update_sp_flag-IsValid :
    (a : SockaddrIn) (free_spots : ℕ) (s : SpState)
    → IsValid s
    → (knows a s.sp_list ≡ false) × (update_sp_flag a free_spots s ≡ none)
      ⊎ (knows a s.sp_list ≡ true)
        × ((t : SpState) × (update_sp_flag a free_spots s ≡ some t)
            × IsValid t
            × ((b : SockaddrIn) → knows b t.sp_list ≡ knows b s.sp_list))
unfolding update_sp_flag
update_sp_flag-IsValid a free_spots s v =
    let p = get_node_sp a s.sp_list in
    let f : SpaddrNode → SpaddrNode = λ n. record n { flag = 1; free_spots = free_spots } in
    elim (get_node_sp-cases a s.sp_list v.distinct) [
      | inl missing ↦ inl (missing.1, rw missing.0)
      | inr found ↦ inr (
        found.2,
        (
          record s { sp_list = modify p f s.sp_list },
          rw ((==-eq-false p null).1 found.0),
          modify-IsValid f (λ n. refl) p s v,
          λ b. knows-modify f (λ n. refl) p b s.sp_list,
        ),
      )
    ]
