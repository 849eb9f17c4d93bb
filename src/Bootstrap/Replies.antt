-- ===== src/Bootstrap/Replies.antt =====
-- The replies of the handlers.
use karmanet.Common.{
  ℕ, ◌*◌, ◌≤◌, min, ◌≡◌, refl, sym, ap, ◌∙◌, ◌⊎◌, inl, inr, Bool, true, not, Option, none, some,
  List, [], ◌∷◌, ◌++◌, map, arith, ◌==◌, ==_iff, Bool-cases, length, take, drop, length-append,
  length-take-min, length-reverse, length-map,
}
use mathlib.Core.List.{reverse}
use karmanet.Common.Memory.{memcpy-some}
use karmanet.DList.{Ptr}
use karmanet.Wire.{SockaddrIn, addr2str, ltob, stob, le_bytes}
use karmanet.Wire.Addresses.{addr_bytes, length-addr_bytes}
use karmanet.Packet.{
  Packet, mask, superpeer, is_set_flag, new_packet, new_ack_packet, new_promote_packet,
  max_packet_data_len, cmd_promote,
}
use karmanet.SpList.{SpaddrNode, Entries, SpState, head}
use karmanet.SpList.Cells.{has, has-append}
use karmanet.SpList.Iterator.{IsValid, Points}
use karmanet.SpList.Free.{free_nodes}
use karmanet.SpList.Walk.{addrs, at_node, wrap}
use karmanet.Bootstrap.{
  addr_tosend, Outcome, failed, set_str_addrlist, send_promote, send_ack, send_addr_list,
}
use karmanet.Bootstrap.Lists.{
  listing, set_str_addrlist-client, set_str_addrlist-superpeer, length-addrs,
}

-- a handler's result is defined, and leaves a valid list
abbrev pub Answers : Option Outcome → Type 0
Answers m = (o : Outcome) × (m ≡ some o) × IsValid o.state

has-split :
    (p : Ptr) (xs : Entries)
    → has p xs ≡ true
    → (l r : Entries) × (n : SpaddrNode) × (xs ≡ l ++ (p, n) ∷ r)
has-split p [] h = cc
has-split p ((q, n) ∷ xs) h = elim (Bool-cases (p == q)) [
  | inl here ↦ let e = (==_iff p q).0 here in ([], xs, n, ap (λ r. (r, n) ∷ xs) (sym e))
  | inr further ↦
      let (l, r, m, e) = has-split p xs (ground arith) in ((q, n) ∷ l, r, m, ap (λ t. (q, n) ∷ t) e)
]

has-head : (xs : Entries) → (xs ≡ []) ⊎ (has (head xs) xs ≡ true)
has-head [] = inl refl
has-head ((p, n) ∷ xs) = inr (ground arith)

Points-wrap :
    (xs ys : Entries) (p : Ptr) (n : SpaddrNode) (all : Entries)
    → all ≡ xs ++ (p, n) ∷ ys
    → Points (wrap ys all) all
Points-wrap [] [] p n all e = inr (rw e (ground arith))
Points-wrap ((q, m) ∷ xs) [] p n all e = inr (rw e (ground arith))
Points-wrap xs ((q, m) ∷ ys) p n all e = inr (rw (e, has-append) (ground arith))

two_words : (a : SockaddrIn) → length (addr2str a.s_addr a.sin_port) ≡ 6
unfolding addr2str ltob stob le_bytes
two_words a = refl

module _ (delivered : Bool) (scratch : Packet) (addr : SockaddrIn) (pck : Packet)
    (room : length scratch.payload ≡ max_packet_data_len) where
  -- the reply that makes a client a superpeer: its own address as the bootstrap sees it
  pub send_promote-some :
      (s : SpState)
      → send_promote delivered scratch addr pck s
        ≡ some (record {
          state = s;
          reply = some (record {
            cmd = cmd_promote;
            flag = 0;
            index = pck.index;
            ttl = 1;
            data_len = 6;
            payload = take 6 (addr2str addr.s_addr addr.sin_port) ++ drop 6 scratch.payload;
          });
          ok = delivered;
        })
  unfolding send_promote new_promote_packet new_packet
  send_promote-some s = rw (
      memcpy-some 6 (addr2str addr.s_addr addr.sin_port) scratch.payload
        (omega (arith, two_words addr)) (omega arith))

  pub send_ack-some : (s : SpState) → IsValid s → Answers (send_ack delivered scratch addr pck s)
  unfolding send_ack new_ack_packet new_packet
  send_ack-some s v = (_, refl, v)

  listed :
      (s t : SpState) (str : List ℕ) (dim : ℕ)
      → set_str_addrlist (not (is_set_flag pck (mask superpeer) == 0)) s ≡ some (some (str, dim), t)
      → length str ≡ 6 * dim
      → dim ≤ 2
      → IsValid t
      → Answers (send_addr_list delivered scratch addr pck s)
  unfolding send_addr_list new_packet
  listed s t str dim e size le v =
      rw (e, memcpy-some (dim * 6) str scratch.payload (omega (arith, size)) (omega arith))
        (_, refl, v)

  unlisted :
      (s t : SpState)
      → set_str_addrlist (not (is_set_flag pck (mask superpeer) == 0)) s ≡ some (none, t)
      → IsValid t
      → Answers (send_addr_list delivered scratch addr pck s)
  unfolding send_addr_list
  unlisted s t e v = rw e (failed t, refl, v)

  pub send_addr_list-some :
      (s : SpState)
      → IsValid s
      → has s.it_addr s.sp_list ≡ true
      → Answers (send_addr_list delivered scratch addr pck s)
  send_addr_list-some s v here = elim (Bool-cases (not (is_set_flag pck (mask superpeer) == 0))) [
    | inr client ↦
        let (xs, ys, n, e) = has-split s.it_addr s.sp_list here in
        let t = at_node s (wrap ys s.sp_list) in
        let around = addrs ((s.it_addr, n) ∷ ys) ++ addrs xs in
        let k = min (length s.sp_list) addr_tosend in
        let wide : length around ≡ length s.sp_list =
          rw (e, length-append, length-append, length-addrs ys, length-addrs xs) (omega arith) in
        let size : length (addr_bytes (take k around)) ≡ 6 * k =
          rw (length-addr_bytes, length-take-min) (omega (arith, wide)) in
        listed s t (addr_bytes (take k around)) k
          (rw client (set_str_addrlist-client s xs ys n v e)) size (omega arith)
          (record {
            distinct = v.distinct;
            count = v.count;
            iterator = Points-wrap xs ys s.it_addr n s.sp_list e;
          })
    | inl flagged ↦
        let found = take addr_tosend (free_nodes s.sp_list) in
        answer s v (reverse found) (length found) (length-reverse found)
          (omega (arith, length-take-min addr_tosend (free_nodes s.sp_list)))
          (ap (λ b. set_str_addrlist b s) flagged ∙ set_str_addrlist-superpeer s)
  ]
    where
      answer :
          (s : SpState)
          → IsValid s
          → (ns : List SpaddrNode) (dim : ℕ) → length ns ≡ dim
          → dim ≤ 2
          → set_str_addrlist (not (is_set_flag pck (mask superpeer) == 0)) s
            ≡ some (listing ns dim, s)
          → Answers (send_addr_list delivered scratch addr pck s)
      answer s v [] dim same le e = unlisted s s e v
      answer s v (n ∷ ns) dim same le e =
          listed s s (addr_bytes (map (λ m. m.sp_addr) (n ∷ ns))) dim e
            (length-addr_bytes (map (λ m. m.sp_addr) (n ∷ ns))
              ∙ ap (λ j. 6 * j) (length-map (λ m. m.sp_addr) (n ∷ ns) ∙ same))
            le v
