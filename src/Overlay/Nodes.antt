-- ===== src/Overlay/Nodes.antt =====
-- Nodes of the list of neighbours that are found, added and removed.
use karmanet.Common.{
  ℕ, suc, ◌≤◌, ◌≡◌, refl, ap, ◌∙◌, ◌⊎◌, inl, inr, true, false, none, some, List, [], ◌∷◌, ◌++◌,
  ◌==◌, Bool-cases, length,
}
use karmanet.Common.Memory.{◌>>=◌}
use karmanet.Wire.{SockaddrIn}
use karmanet.Overlay.{
  NearNode, Overlay, get_near_node, insert_near, delete_near, create_new_near_node,
}
use karmanet.Overlay.Neighbours.{mirror}

-- `nsock` counts the neighbours, which are at most `max_tcp_sock`, and `near_str` mirrors them
pub record IsValid (o : Overlay) : Type 0 where
  pub count : o.nsock ≡ length o.near_list
  pub limit : o.nsock ≤ o.max_tcp_sock
  pub copy : o.near_str ≡ mirror o.max_tcp_sock o.near_list

module _ (k : ℕ) (n : NearNode) (ns : List NearNode) where
  pub get_hit : (n.socksd == k) ≡ true → get_near_node k (n ∷ ns) ≡ some n
  unfolding get_near_node
  get_hit e = rw e refl

  pub get_skip : (n.socksd == k) ≡ false → get_near_node k (n ∷ ns) ≡ get_near_node k ns
  unfolding get_near_node
  get_skip e = rw e refl

  delete_hit : (n.socksd == k) ≡ true → delete_near k (n ∷ ns) ≡ some ns
  unfolding delete_near
  delete_hit e = rw e refl

  delete_skip :
      (n.socksd == k) ≡ false → delete_near k (n ∷ ns) ≡ (delete_near k ns >>= λ l. some (n ∷ l))
  unfolding delete_near
  delete_skip e = rw e refl

-- `delete_near` takes the first node of the socket off the list, and fails if there is none
pub delete_near-cases :
    (k : ℕ) (ns : List NearNode)
    → (get_near_node k ns ≡ none) × (delete_near k ns ≡ none)
      ⊎ ((xs ys : List NearNode) × (m : NearNode) × (get_near_node k ns ≡ some m)
          × (get_near_node k xs ≡ none)
          × (ns ≡ xs ++ m ∷ ys)
          × (delete_near k ns ≡ some (xs ++ ys)))
delete_near-cases k [] = unfold get_near_node delete_near in inl (refl, refl)
delete_near-cases k (n ∷ ns) = elim (Bool-cases (n.socksd == k)) [
  | inl hit ↦
      inr ([], ns, n, get_hit k n ns hit, unfold get_near_node in refl, refl, delete_hit k n ns hit)
  | inr skip ↦ elim (delete_near-cases k ns) [
    | inl out ↦ inl (
      get_skip k n ns skip ∙ out.0,
      delete_skip k n ns skip ∙ ap (λ o. o >>= λ l. some (n ∷ l)) out.1,
    )
    | inr found ↦
        let (xs, ys, m, got, before, split, e) = found in
        inr (
          n ∷ xs,
          ys,
          m,
          get_skip k n ns skip ∙ got,
          get_skip k n xs skip ∙ before,
          ap (λ l. n ∷ l) split,
          delete_skip k n ns skip ∙ ap (λ o. o >>= λ r. some (n ∷ r)) e,
        )
  ]
]

pub insert_near-new :
    (raw : List ℕ) (number k : ℕ) (a : SockaddrIn) (ns : List NearNode)
    → get_near_node k ns ≡ none
    → (l : List NearNode) × (insert_near raw number k a ns ≡ some l) × (length l ≡ suc (length ns))
unfolding insert_near
insert_near-new raw number k a [] e = (_, refl, refl)
insert_near-new raw number k a (n ∷ ns) e =
    (n ∷ create_new_near_node raw number k a ∷ ns, rw (e, insert_near) refl, refl)
