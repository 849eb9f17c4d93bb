-- ===== src/Client/Progress.antt =====
-- A client whose superpeers do not answer comes to the end of its list, and pongs reach a checker.
use karmanet.Common.{
  ℕ, zero, suc, ◌+◌, ◌≤◌, ◌<◌, ◌≡◌, refl, ap, ◌∙◌, ◌≢◌, ◌↔◌, Bool, true, false, Option, none, some,
  List, [], ◌∷◌, map, arith, ltb, if◌then◌else◌, length, drop,
}
use karmanet.Wire.{same_bytes, SockaddrIn, addrcmp}
use karmanet.Packet.{
  Packet, max_packet_data_len, get_index, cmd_join, new_join_packet, new_join_packet_sp,
}
use karmanet.Retx.{PacketState, retx_send, insert_packet, new_packet_node}
use mathlib.Core.List.{reverse_aux}
use karmanet.Client.{
  deref, set_state, Client, Env, Outcome, ◌>>=◌, need, with_core, send_retx, request, join_sp,
  join_bs, joinbs_sent, joinsp_sent, done, fault,
}
use karmanet.Client.Messages.{pong_handler}
use karmanet.Client.Joining.{current, addr_at, join_current, back_to_bs}
use karmanet.Client.Commands.{lost_join, error_handler}
use karmanet.Client.Keeping.{IsEnv, Made, pckcpy-ne-none, Made-join, Made-join_sp}

pong-cases :
    (b n k : Bool) (c d f : Client)
    → ((if b then (if n then done c else done d) else deref k (done f)) ≡ fault)
      ↔ ((b ≡ false) × (k ≡ false))
pong-cases true true k c d f = ((λ h. absurd (cc)), λ h. absurd (let g = h.0 in cc))
pong-cases true false k c d f = ((λ h. absurd (cc)), λ h. absurd (let g = h.0 in cc))
pong-cases false n true c d f = ((λ h. absurd (cc)), λ h. absurd (let g = h.1 in cc))
pong-cases false n false c d f = ((λ h. (refl, refl)), λ h. refl)

-- A pong is an access through NULL exactly if the client is no superpeer and has not started its
-- checker, whoever sent the pong.
pub pong_handler-fault :
    (e : Env) (addr : SockaddrIn) (pck : Packet) (c : Client)
    → (pong_handler e addr pck c ≡ fault) ↔ ((c.core.is_sp ≡ false) × (c.core.sp_checker ≡ false))
unfolding pong_handler
pong_handler-fault e addr pck c =
    pong-cases c.core.is_sp (addrcmp addr c.core.child_addr) c.core.sp_checker _ _ _

-- the addresses of the packets that were sent, the last one first
abbrev pub recipients : Client → List SockaddrIn
recipients c = map (λ s. s.0) c.sent

-- one packet is sent and nothing else done
pub record Sends (a : SockaddrIn) (c : Client) (o : Outcome) : Type 0 where
  pub client : Client
  pub result : o ≡ done client
  pub same : client.core ≡ c.core
  pub to : recipients client ≡ a ∷ recipients c

retx_send-sent :
    (raw pck : Packet) (sock : ℕ) (addr : SockaddrIn) (packets : PacketState)
    → length raw.payload ≡ max_packet_data_len
    → pck.data_len ≤ max_packet_data_len
    → length pck.payload ≡ max_packet_data_len
    → (u : PacketState) × (retx_send true raw sock addr pck packets ≡ some (some u))
unfolding retx_send insert_packet new_packet_node
retx_send-sent raw pck sock addr packets h k l =
    let (q, made) = pckcpy-ne-none raw pck h k l in rw made (_, refl)

request-Sends :
    (e : Env) (addr : SockaddrIn) (new : Packet → ℕ → Option Packet) (c : Client)
    → IsEnv e
    → ((index : ℕ) → Made e.scratch (new e.scratch index))
    → e.delivers addr ≡ true
    → Sends addr c (request e addr new c)
unfolding request send_retx
request-Sends e addr new c w m h =
    let p = m (get_index c.start_index).0 in
    let (u, made) =
      retx_send-sent e.raw p.packet e.udp_sock addr c.packets w.raw_size p.fits p.size in
    record {
      client = record c {
        start_index = (get_index c.start_index).1;
        packets = u;
        sent = (addr, p.packet) ∷ c.sent;
      };
      result = rw (p.made, h, made) refl;
      same = refl;
      to = refl;
    }

-- what is at an index, and behind it
addr_at-drop :
    (i : ℕ) (l : List SockaddrIn) (a : SockaddrIn) (rest : List SockaddrIn)
    → drop i l ≡ a ∷ rest
    → (addr_at i l ≡ some a) × (drop (suc i) l ≡ rest) × (i < length l)
addr_at-drop i [] a rest h = absurd (empty i h)
  where
    empty : (i : ℕ) → drop i [] ≢ a ∷ rest
    empty zero h = cc
    empty (suc i) h = cc
addr_at-drop zero (b ∷ l) a rest h = (ap some (cc), cc, omega arith)
addr_at-drop (suc i) (b ∷ l) a rest h =
    let (at, behind, inside) = addr_at-drop i l a rest h in (at, behind, omega (arith, inside))

drop-empty : (i : ℕ) (l : List SockaddrIn) → drop i l ≡ [] → length l ≤ i
drop-empty i [] h = omega arith
drop-empty zero (a ∷ l) h = absurd (omega (arith, ap length h))
drop-empty (suc i) (a ∷ l) h = let k = drop-empty i l h in omega (arith, k)

-- `n` packets JOI in turn are given up
abbrev pub unanswered : Env → ℕ → Client → Outcome
unanswered e zero c = done c
unanswered e (suc n) c = let rest = unanswered e n in error_handler e cmd_join c >>= rest

abbrev to_current : Client → Client
to_current c = with_core c (record c.core { curr_addr_index = c.core.curr_addr_index + 1 })

if-then : (b : Bool) (o p : Outcome) → b ≡ true → (if b then o else p) ≡ o
if-then true o p h = refl
if-then false o p h = absurd (cc)

if-else : (b : Bool) (o p : Outcome) → b ≡ false → (if b then o else p) ≡ p
if-else false o p h = refl
if-else true o p h = absurd (cc)

-- a packet JOI to a superpeer is given up: the next address, or the bootstrap server
need-some :
    (o : Option SockaddrIn) (a : SockaddrIn) (p : Outcome) → o ≡ some a → need o (λ b. p) ≡ p
need-some none a p h = absurd (cc)
need-some (some b) a p h = refl

lost-next :
    (e : Env) (a b : SockaddrIn) (c : Client)
    → c.core.state ≡ joinsp_sent
    → current c.core.addr_list c.core.curr_addr_index ≡ some a
    → c.core.curr_addr_index + 1 < c.core.addr_list_len
    → current c.core.addr_list (c.core.curr_addr_index + 1) ≡ some b
    → error_handler e cmd_join c
      ≡ (join_sp e b (to_current c) >>= λ c1. done (set_state joinsp_sent c1))
unfolding error_handler lost_join join_current same_bytes
lost-next e a b c here at h found =
    ap (λ s. lost_join e s c) here
    ∙ need-some (current c.core.addr_list c.core.curr_addr_index) a _ at
    ∙ if-then (ltb (c.core.curr_addr_index + 1) c.core.addr_list_len) _ _ (ground arith)
    ∙ ap (λ o. need o (λ b. join_sp e b (to_current c)) >>= λ c1. done (set_state joinsp_sent c1))
        found

lost-last :
    (e : Env) (a : SockaddrIn) (c : Client)
    → c.core.state ≡ joinsp_sent
    → current c.core.addr_list c.core.curr_addr_index ≡ some a
    → c.core.addr_list_len ≤ c.core.curr_addr_index + 1
    → error_handler e cmd_join c ≡ back_to_bs e c
unfolding error_handler lost_join same_bytes
lost-last e a c here at h =
    ap (λ s. lost_join e s c) here
    ∙ need-some (current c.core.addr_list c.core.curr_addr_index) a _ at
    ∙ if-else (ltb (c.core.curr_addr_index + 1) c.core.addr_list_len) _ _ (ground arith)

-- what is left of the client when the last packet is given up
pub record Unanswered (e : Env) (n : ℕ) (to : List SockaddrIn) (c : Client) : Type 0 where
  pub client : Client
  pub result : unanswered e n c ≡ done client
  pub asks : client.core.state ≡ joinbs_sent
  pub sent : recipients client ≡ to

then-done :
    (o : Outcome) (c : Client) (f : Client → Client) (g : Client → Outcome)
    → o ≡ done c
    → ((o >>= λ d. done (f d)) >>= g) ≡ g (f c)
then-done o c f g h = ap (λ p. (p >>= λ d. done (f d)) >>= g) h

plus_one : (i : ℕ) → i + 1 ≡ suc i
plus_one i = omega arith

-- the addresses that are left are tried, and then the bootstrap server is asked
Unanswered-from :
    (e : Env) (a : SockaddrIn) (rest l : List SockaddrIn) (c : Client)
    → IsEnv e
    → ((b : SockaddrIn) → e.delivers b ≡ true)
    → c.core.state ≡ joinsp_sent
    → c.core.addr_list ≡ some l
    → c.core.addr_list_len ≡ length l
    → drop c.core.curr_addr_index l ≡ a ∷ rest
    → Unanswered e (suc (length rest)) (e.bs_addr ∷ reverse_aux rest (recipients c)) c
unfolding back_to_bs join_bs join_sp
Unanswered-from e a [] l c w reach here list size left =
    let (at, behind, inside) = addr_at-drop c.core.curr_addr_index l a [] left in
    let s =
      request-Sends e e.bs_addr new_join_packet c w (Made-join e.scratch w.scratch_size)
        (reach e.bs_addr) in
    let past = drop-empty (suc c.core.curr_addr_index) l behind in
    record {
      client = set_state joinbs_sent s.client;
      result =
          ap (λ o. o >>= done)
            (lost-last e a c here (ap (λ o. current o c.core.curr_addr_index) list ∙ at)
              (omega (arith, past, size)))
          ∙ then-done _ s.client (set_state joinbs_sent) done s.result;
      asks = refl;
      sent = s.to;
    }
Unanswered-from e a (b ∷ rest) l c w reach here list size left =
    let (at, behind, inside) = addr_at-drop c.core.curr_addr_index l a (b ∷ rest) left in
    let (next_at, _, next_inside) = addr_at-drop (suc c.core.curr_addr_index) l b rest behind in
    let s =
      request-Sends e b (λ p i. new_join_packet_sp p i e.peer_rate e.tcp_port) (to_current c) w
        (λ i. Made-join_sp e.scratch w.scratch_size i e.peer_rate e.tcp_port) (reach b) in
    let found : current c.core.addr_list (c.core.curr_addr_index + 1) ≡ some b =
      ap (λ o. current o (c.core.curr_addr_index + 1)) list
      ∙ ap (λ i. addr_at i l) (plus_one c.core.curr_addr_index)
      ∙ next_at in
    let next =
      Unanswered-from e b rest l (set_state joinsp_sent s.client) w reach refl
        (ap (λ k. k.addr_list) s.same ∙ list) (ap (λ k. k.addr_list_len) s.same ∙ size)
        (ap (λ k. drop k.curr_addr_index l) s.same
          ∙ ap (λ i. drop i l) (plus_one c.core.curr_addr_index)
          ∙ behind) in
    record {
      client = next.client;
      result =
          ap (λ o. o >>= unanswered e (suc (length rest)))
            (lost-next e a b c here (ap (λ o. current o c.core.curr_addr_index) list ∙ at)
              (omega (arith, next_inside, size)) found)
          ∙ then-done _ s.client (set_state joinsp_sent) (unanswered e (suc (length rest))) s.result
          ∙ next.result;
      asks = next.asks;
      sent = next.sent ∙ ap (λ t. e.bs_addr ∷ reverse_aux rest t) s.to;
    }

-- A client has sent its first packet JOI, to the first of the superpeers that it knows. If no
-- superpeer answers and each packet can be sent, it sends one packet JOI to each of the others, in
-- the order of the list, then one to the bootstrap server, and waits for a new list.
pub unanswered-Unanswered :
    (e : Env) (a : SockaddrIn) (rest : List SockaddrIn) (c : Client)
    → IsEnv e
    → ((b : SockaddrIn) → e.delivers b ≡ true)
    → c.core.state ≡ joinsp_sent
    → c.core.addr_list ≡ some (a ∷ rest)
    → c.core.addr_list_len ≡ length (a ∷ rest)
    → c.core.curr_addr_index ≡ 0
    → (d : Client) × (unanswered e (length (a ∷ rest)) c ≡ done d)
      × (d.core.state ≡ joinbs_sent)
      × (recipients d ≡ e.bs_addr ∷ reverse_aux rest (recipients c))
unanswered-Unanswered e a rest c w reach here list size first =
    let u =
      Unanswered-from e a rest (a ∷ rest) c w reach here list size
        (ap (λ i. drop i (a ∷ rest)) first) in
    (u.client, u.result, u.asks, u.sent)
