-- ===== src/Overlay/Connections.antt =====
-- Connections that are accepted and closed, and what a neighbour tells of its own.
use karmanet.Common.{
  ℕ, suc, ◌+◌, ◌-◌, ◌/◌, ◌≤◌, ◌<◌, ◌≡◌, refl, sym, ap, ◌∙◌, ◌⊎◌, inl, inr, true, false, Option,
  none, some, List, [], ◌∷◌, ◌++◌, arith, leb, ◌==◌, Bool-cases, length, take, drop,
}
use karmanet.Common.Memory.{◌>>=◌, memcpy, memcpy-some, memcpy-none}
use karmanet.Wire.{SockaddrIn, addr_str_len}
use karmanet.Overlay.{
  NearNode, Overlay, Accepted, ack, err, near_data_len, get_near_node, insert_near, update_near,
  set_near, accept_conn, close_conn,
}
use karmanet.Overlay.Neighbours.{mirror, set_near-mirror}
use karmanet.Overlay.Nodes.{get_hit, get_skip, delete_near-cases, insert_near-new, IsValid}

set_near-some :
    (max : ℕ) (ns : List NearNode) → length ns ≤ max → set_near max ns ≡ some (mirror max ns)
set_near-some max ns h =
    let le : leb (length ns) max ≡ true = ground arith in set_near-mirror max ns ∙ rw le refl

module _ (raw : List ℕ) (number sock : ℕ) (addr : SockaddrIn) (o : Overlay) (v : IsValid o)
    (unused : get_near_node sock o.near_list ≡ none) where
  -- A connection on a socket that no neighbour has is answered, by ERR if there are already
  -- `max_tcp_sock` neighbours. Nothing is written past `near_str`, and afterwards `nsock` still
  -- counts the neighbours, which are within the limit, and `near_str` holds their addresses.
  pub accept_conn-IsValid :
      (port : Option ℕ)
      → (a : Accepted) × (accept_conn raw number sock addr port o ≡ some a)
        × IsValid a.state
        × (leb o.max_tcp_sock o.nsock ≡ true → a.reply ≡ err)
  unfolding accept_conn
  accept_conn-IsValid port = elim (Bool-cases (leb o.max_tcp_sock o.nsock)) [
    | inl full ↦ rw full (_, refl, v, λ e. refl)
    | inr room ↦ rw room (answer port room)
  ]
    where
      answer :
          (port : Option ℕ)
          → leb o.max_tcp_sock o.nsock ≡ false
          → (a : Accepted) × ((elim port [
            | none ↦ some (record { state = o; reply = ack; ok = false })
            | some p ↦
                elim (insert_near raw number sock (record addr { sin_port = p }) o.near_list) [
                  | none ↦ some (record { state = o; reply = ack; ok = false })
                  | some list ↦ do
                    str ← set_near o.max_tcp_sock list
                    some (record {
                      state = record o { near_list = list; near_str = str; nsock = o.nsock + 1 };
                      reply = ack;
                      ok = true;
                    })
                ]
          ])
              ≡ some a)
            × IsValid a.state
            × (false ≡ true → a.reply ≡ err)
      answer none room = (_, refl, v, λ e. cc)
      answer (some p) room =
          let (l, e, size) =
            insert_near-new raw number sock (record addr { sin_port = p }) o.near_list unused in
          let few : o.nsock < o.max_tcp_sock = ground arith in
          let str = set_near-some o.max_tcp_sock l (omega (arith, size, v.count)) in
          let u : Overlay = record o {
            near_list = l;
            near_str = mirror o.max_tcp_sock l;
            nsock = o.nsock + 1;
          } in
          let w : IsValid u = record {
            count = omega (arith, size, v.count);
            limit = omega arith;
            copy = refl;
          } in
          let r : Accepted = record { state = u; reply = ack; ok = true } in
          (r, rw (e, str) refl, w, λ e. cc)

-- Closing the connection of a socket removes the first neighbour with this socket and no other, and
-- keeps the order of the rest; `nsock` then still counts the neighbours, and `near_str` holds the
-- addresses of those that are left. The result is -1 exactly if no neighbour has the socket.
pub close_conn-IsValid :
    (sock : ℕ) (o : Overlay)
    → IsValid o
    → (get_near_node sock o.near_list ≡ none) × (close_conn sock o ≡ some none)
      ⊎ ((xs ys : List NearNode) × (m : NearNode) × (get_near_node sock o.near_list ≡ some m)
          × (get_near_node sock xs ≡ none)
          × (o.near_list ≡ xs ++ m ∷ ys)
          × ((u : Overlay) × (close_conn sock o ≡ some (some u))
              × IsValid u
              × (u.near_list ≡ xs ++ ys)))
unfolding close_conn
close_conn-IsValid sock o v = elim (delete_near-cases sock o.near_list) [
  | inl out ↦ inl (out.0, rw (out.1, close_conn) refl)
  | inr found ↦
      let (xs, ys, m, got, before, split, e) = found in
      let size : suc (length (xs ++ ys)) ≡ length o.near_list =
        one-less xs ys m ∙ ap length (sym split) in
      let str = set_near-some o.max_tcp_sock (xs ++ ys) (omega (arith, size, v.count, v.limit)) in
      let u : Overlay = record o {
        near_list = xs ++ ys;
        near_str = mirror o.max_tcp_sock (xs ++ ys);
        nsock = o.nsock - 1;
      } in
      let w : IsValid u = record {
        count = omega (arith, size, v.count);
        limit = omega (arith, v.limit);
        copy = refl;
      } in
      inr (xs, ys, m, got, before, split, (u, rw (e, close_conn, str) refl, w, refl))
]
  where
    one-less :
        (xs ys : List NearNode) (m : NearNode) → suc (length (xs ++ ys)) ≡ length (xs ++ m ∷ ys)
    one-less [] ys m = refl
    one-less (x ∷ xs) ys m = ap suc (one-less xs ys m)

module _ (k : ℕ) (src : List ℕ) (len : ℕ) where
  update_hit :
      (n : NearNode) (ns : List NearNode)
      → (n.socksd == k) ≡ true
      → update_near k src len (n ∷ ns) ≡ (
          memcpy len src n.bytes >>= λ d.
          some (some (record n { bytes = d; near_number = len / addr_str_len } ∷ ns)))
  unfolding update_near
  update_hit n ns e = rw e refl

  update_skip :
      (n : NearNode) (ns : List NearNode)
      → (n.socksd == k) ≡ false
      → update_near k src len (n ∷ ns)
        ≡ (update_near k src len ns >>= λ o. some (o >>= λ l. some (n ∷ l)))
  unfolding update_near
  update_skip n ns e = rw e refl

get_nil : (k : ℕ) → get_near_node k [] ≡ none
unfolding get_near_node
get_nil k = refl

-- The node of the socket after it told its own neighbours.
abbrev pub told : List ℕ → ℕ → NearNode → NearNode
told src len m = record m {
  bytes = take len src ++ drop len m.bytes;
  near_number = len / addr_str_len;
}

some-inj : {a b : NearNode} → some a ≡ some b → a ≡ b
some-inj {a} e = ap (λ o. elim o [ none ↦ a | some x ↦ x ]) e

-- A neighbour's list of its own neighbours is stored with its node if it has at most 36 bytes; a
-- longer one is copied past the end of the array.
pub update_near-told :
    (k : ℕ) (src : List ℕ) (len : ℕ) (ns : List NearNode) (m : NearNode)
    → get_near_node k ns ≡ some m
    → length m.bytes ≡ near_data_len
    → len ≤ length src
    → (near_data_len < len → update_near k src len ns ≡ none)
      × (len ≤ near_data_len
          → (l : List NearNode) × (update_near k src len ns ≡ some (some l))
            × (get_near_node k l ≡ some (told src len m)))
update_near-told k src len [] m e size h = cc (sym (get_nil k) ∙ e)
update_near-told k src len (n ∷ ns) m e size h = elim (Bool-cases (n.socksd == k)) [
  | inl hit ↦
      let same : n ≡ m = some-inj (sym (get_hit k n ns hit) ∙ e) in
      let wide : length n.bytes ≡ 36 = ap (λ x. length x.bytes) same ∙ size in
      (
        λ over.
            update_hit k src len n ns hit
            ∙ ap (λ o. o >>= λ d. some (some (record n { bytes = d; near_number = len / 6 } ∷ ns)))
                (memcpy-none len src n.bytes (omega (arith, wide))),
        λ fits. (
          told src len n ∷ ns,
          update_hit k src len n ns hit
              ∙ ap
                  (λ o. o >>= λ d. some (some (record n { bytes = d; near_number = len / 6 } ∷ ns)))
                  (memcpy-some len src n.bytes h (omega (arith, wide))),
          get_hit k (told src len n) ns hit ∙ ap (λ x. some (told src len x)) same,
        ),
      )
  | inr skip ↦
      let rest = update_near-told k src len ns m (sym (get_skip k n ns skip) ∙ e) size h in
      (
        λ over.
            update_skip k src len n ns skip
            ∙ ap (λ r. r >>= λ o. some (o >>= λ l. some (n ∷ l))) (rest.0 over),
        λ fits.
            let (l, run, found) = rest.1 fits in
            (
              n ∷ l,
              update_skip k src len n ns skip
                  ∙ ap (λ r. r >>= λ o. some (o >>= λ t. some (n ∷ t))) run,
              get_skip k n l skip ∙ found,
            ),
      )
]
