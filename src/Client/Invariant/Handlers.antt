-- ===== src/Client/Invariant/Handlers.antt =====
-- The handlers of pings, pongs, registrations, leaves, aborts, joins and redirections.
use karmanet.Common.{
  ℕ, ◌≡◌, refl, sym, ap, ◌∙◌, inl, inr, Bool, true, false, not, ◌&&◌, Option, none, some, List, [],
  ◌∷◌, arith, ltb, ◌==◌, if◌then◌else◌, Option-cases,
}
use mathlib.Core.Path.{subst}
use karmanet.Wire.{str2addr, SockaddrIn, addrcmp}
use karmanet.Packet.{
  cmd_promote, new_leave_packet, Packet, get_index, new_packet, new_promote_packet, new_ack_packet,
  new_err_packet, new_join_packet, new_join_packet_sp,
}
use karmanet.PeerList.{PeerNode, PeerState, get_node_peer, get_addr_head}
use karmanet.Retx.{PacketState}
use karmanet.Superpeer.{Promoted, promote_peer}
use karmanet.Client.{
  State, max_p_count, Core, Client, Env, Outcome, regardless, with_core, reply, join_sp, join_bs,
  stop_threads, stopped, joinbs_sent, joinsp_sent, promote_sent, active, done, failed, exited,
  fault,
}
use karmanet.Client.Messages.{
  port_at, drop_at, drop_peer, ping_handler, pong_handler, register_handler, leave_handler,
  abort_handler, send_leave, send_leave_loop,
}
use karmanet.Client.Joining.{
  promote, redirect, join_crowded, join_full, join_at, join_handler, redirected, redirect_handler,
}
use karmanet.Client.Keeping.{
  IsEnv, Keeps, Made, reply-Keeps, request-Keeps, retx_send-some, Made-ack, Made-err, Made-pong,
  Made-pong_count, Made-leave, Made-join, Made-join_sp, Made-redirect,
}
use karmanet.Client.Invariant.{
  IsSound, Sound, lacks_checker, Keeps->>=, Keeps-or_done, Keeps-Sound, Ensures, Ensures->>=,
  if-case, deref-case, others-IsSound, set_state-IsSound, active-IsSound,
}
use karmanet.Client.Invariant.Threads.{Stopped, stop_threads-Ensures}

-- the calls of `remove_all_file` for an address that leave their own memory
abbrev pub Strays : Env → SockaddrIn → Type 0
Strays e addr = (port : ℕ) × (e.removes addr.s_addr port ≡ false)

drop_at-Ensures :
    (e : Env) (F : Type 0) (i : Option ℕ) (addr : SockaddrIn) (c : Client)
    → (Strays e addr → F)
    → Ensures (λ k. k ≡ c.core) F (drop_at e i addr c)
drop_at-Ensures e F none addr c stray = refl
drop_at-Ensures e F (some i) addr c stray =
    deref-case (Ensures (λ k. k ≡ c.core) F)
      (e.removes addr.s_addr (port_at i c.peers.peer_list_head)) _ (λ _. refl) (λ f. stray (_, f))

drop_peer-Ensures :
    (e : Env) (F : Type 0) (addr : SockaddrIn) (c : Client)
    → (Strays e addr → F)
    → Ensures (λ k. k ≡ c.core) F (drop_peer e addr c)
unfolding drop_peer
drop_peer-Ensures e F addr c stray =
    drop_at-Ensures e F (get_node_peer addr c.peers.peer_list_head) addr c stray

-- a client that is no superpeer goes back to the bootstrap server
pub joinbs-IsSound :
    (k : Core) → k.is_sp ≡ false → IsSound k → IsSound (record k { state = joinbs_sent })
joinbs-IsSound k h v =
    set_state-IsSound joinbs_sent k (λ f. cc) (λ f. absurd (cc)) (λ f. absurd (cc)) v

promote_sent-IsSound :
    (k : Core) → k.is_sp ≡ true → IsSound k → IsSound (record k { state = promote_sent })
promote_sent-IsSound k h v = set_state-IsSound promote_sent k (λ f. cc) (λ f. h) (λ f. refl) v

aborted-IsSound :
    (b : Bool) (c : Client)
    → IsSound c.core
    → IsSound (if b then with_core c (record c.core { state = active }) else c).core
aborted-IsSound true c v = active-IsSound c.core v
aborted-IsSound false c v = v

childless-IsSound :
    (b : Bool) (c : Client)
    → IsSound c.core
    → IsSound (if b then with_core c (record c.core { have_child = false }) else c).core
childless-IsSound true c v = others-IsSound c.core _ _ _ _ _ _ _ _ _ _ v
childless-IsSound false c v = v

regardless-Keeps :
    (o : Outcome) (f : Client → Outcome) (k : Core)
    → Keeps k o
    → ((c : Client) → c.core ≡ k → Keeps k (f c))
    → Keeps k (regardless o f)
regardless-Keeps (done c) f k h g = g c h
regardless-Keeps (failed c) f k h g = g c h
regardless-Keeps exited f k h g = absurd h
regardless-Keeps fault f k h g = absurd h

module _ (e : Env) (w : IsEnv e) (F : Type 0) where
  reply-Sound :
      (addr : SockaddrIn) (new : Packet → ℕ → Option Packet) (index : ℕ) (c : Client)
      → Made e.scratch (new e.scratch index)
      → IsSound c.core
      → Sound F (reply e addr new index c)
  reply-Sound addr new index c m v =
      Keeps-Sound F (reply e addr new index c) c.core (reply-Keeps e addr new index c m) v

  pub reply_err-Sound :
      (addr : SockaddrIn) (index : ℕ) (c : Client)
      → IsSound c.core
      → Sound F (reply e addr new_err_packet index c)
  reply_err-Sound addr index c v =
      reply-Sound addr new_err_packet index c (Made-err e.scratch w.scratch_size index) v

  pub reply_ack-Sound :
      (addr : SockaddrIn) (index : ℕ) (c : Client)
      → IsSound c.core
      → Sound F (reply e addr new_ack_packet index c)
  reply_ack-Sound addr index c v =
      reply-Sound addr new_ack_packet index c (Made-ack e.scratch w.scratch_size index) v

  pub join_bs-Keeps : (c : Client) → Keeps c.core (join_bs e c)
  unfolding join_bs
  join_bs-Keeps c =
      request-Keeps e e.bs_addr new_join_packet c w (Made-join e.scratch w.scratch_size)

  pub join_sp-Keeps : (a : SockaddrIn) (c : Client) → Keeps c.core (join_sp e a c)
  unfolding join_sp
  join_sp-Keeps a c =
      request-Keeps e a (λ p i. new_join_packet_sp p i e.peer_rate e.tcp_port) c w
        (λ i. Made-join_sp e.scratch w.scratch_size i e.peer_rate e.tcp_port)

  pub ping_handler-Sound :
      (addr : SockaddrIn) (pck : Packet) (c : Client)
      → (c.core.is_sp ≡ true → lacks_checker c.core ≡ true → F)
      → IsSound c.core
      → Sound F (ping_handler e addr pck c)
  unfolding ping_handler
  ping_handler-Sound addr pck c excuse v =
      if-case (Sound F) c.core.is_sp _ _
        (λ f.
          deref-case (Sound F) c.core.peer_list_checker _
            (λ _.
              if-case (Sound F) (addrcmp addr c.core.father_addr) _ _
                (λ _.
                  reply-Sound addr _ pck.index _
                    (Made-pong_count e.scratch w.scratch_size pck.index _) v)
                (λ _.
                  reply-Sound addr _ pck.index _ (Made-pong e.scratch w.scratch_size pck.index) v))
            (λ g. excuse f (ground arith)))
        (λ _. v)

  pub pong_handler-Sound :
      (addr : SockaddrIn) (pck : Packet) (c : Client)
      → (c.core.is_sp ≡ false → lacks_checker c.core ≡ true → F)
      → IsSound c.core
      → Sound F (pong_handler e addr pck c)
  unfolding pong_handler
  pong_handler-Sound addr pck c excuse v =
      if-case (Sound F) c.core.is_sp _ _
        (λ _.
          if-case (Sound F) (addrcmp addr c.core.child_addr) _ _
            (λ _. others-IsSound c.core _ _ _ _ _ _ _ _ _ _ v) (λ _. v))
        (λ f. deref-case (Sound F) c.core.sp_checker _ (λ _. v) (λ g. excuse f (ground arith)))

  pub register_handler-Sound :
      (addr : SockaddrIn) (pck : Packet) (c : Client)
      → (Strays e addr → F)
      → IsSound c.core
      → Sound F (register_handler e addr pck c)
  unfolding register_handler
  register_handler-Sound addr pck c stray v =
      if-case (Sound F) (c.core.is_sp && addrcmp addr c.core.child_addr) _ _
        (λ _.
          Keeps->>= F (reply e addr new_ack_packet pck.index c) _ c.core
            (reply-Keeps e addr _ pck.index c (Made-ack e.scratch w.scratch_size pck.index)) v
            (λ c1 h.
              Ensures->>= (λ k. k ≡ c1.core) F (drop_peer e addr c1) _
                (drop_peer-Ensures e F addr c1 stray)
                (λ c2 same.
                  others-IsSound _ _ _ _ _ _ _ _ _ _ _
                    (active-IsSound _ (subst IsSound (sym (same ∙ h)) v)))))
        (λ _. reply_err-Sound addr pck.index c v)

  pub leave_handler-Sound :
      (addr : SockaddrIn) (pck : Packet) (c : Client)
      → (c.core.is_sp ≡ false
          → addrcmp c.core.addr_to_ping addr ≡ true
          → lacks_checker c.core ≡ true
          → F)
      → (Strays e addr → F)
      → IsSound c.core
      → Sound F (leave_handler e addr pck c)
  unfolding leave_handler
  leave_handler-Sound addr pck c excuse stray v =
      if-case (Sound F) c.core.is_sp _ _
        (λ _.
          Ensures->>= (λ k. k ≡ c.core) F (drop_peer e addr c) _
            (drop_peer-Ensures e F addr c stray)
            (λ c1 same. reply_ack-Sound addr pck.index c1 (subst IsSound (sym same) v)))
        (λ f.
          if-case (Sound F) (addrcmp c.core.addr_to_ping addr) _ _
            (λ g.
              Ensures->>= (Stopped c.core) F (stop_threads e false c) _
                (stop_threads-Ensures e F false c (excuse f g) v)
                (λ c1 s.
                  Keeps-or_done F (join_bs e c1) _ c1.core (join_bs-Keeps c1) s.sound (λ c2 h.
                    joinbs-IsSound c2.core (ap (λ k. k.is_sp) h ∙ s.same_kind ∙ f)
                      (subst IsSound (sym h) s.sound))))
            (λ _. v))

  pub abort_handler-Sound :
      (addr : SockaddrIn) (pck : Packet) (c : Client)
      → IsSound c.core
      → Sound F (abort_handler e addr pck c)
  unfolding abort_handler
  abort_handler-Sound addr pck c v =
      if-case (Sound F) c.core.is_sp _ _
        (λ _.
          reply_ack-Sound addr pck.index _ (aborted-IsSound (addrcmp c.core.child_addr addr) c v))
        (λ _. reply_err-Sound addr pck.index c v)

  promote_peer-some :
      (start : ℕ) (peers : PeerState) (packets : PacketState)
      → (p : Promoted) × (promote_peer e.scratch e.raw e.delivers e.udp_sock start peers packets
          ≡ some p)
  unfolding promote_peer new_promote_packet new_packet
  promote_peer-some start peers packets = elim (Option-cases (get_addr_head peers)) [
    | inl h ↦ rw h (_, refl)
    | inr (a, h) ↦
        let (r, made) =
          retx_send-some e.raw
            (record e.scratch {
              cmd = cmd_promote;
              flag = 0;
              index = (get_index start).0;
              ttl = 1;
              data_len = 0;
            })
            (e.delivers a) e.udp_sock a packets w.raw_size (omega arith) w.scratch_size in
        rw (h, made) (promoted r)
  ]
    where
      promoted :
          (r : Option PacketState)
          → (p : Promoted) × ((elim r [
            | none ↦
                some (record { packets = packets; start_index = (get_index start).1; ok = false })
            | some u ↦ some (record { packets = u; start_index = (get_index start).1; ok = true })
          ])
              ≡ some p)
      promoted none = (_, refl)
      promoted (some u) = (_, refl)

  pub promote-Sound :
      (c : Client)
      → c.core.is_sp ≡ true
      → (lacks_checker c.core ≡ true → F)
      → IsSound c.core
      → Sound F (promote e c)
  unfolding promote
  promote-Sound c h excuse v =
      deref-case (Sound F) c.core.peer_list_checker _
        (λ f.
          let (p, made) = promote_peer-some c.start_index c.peers c.packets in
          rw made (if-case (Sound F) p.ok _ _ (λ _. promote_sent-IsSound c.core h v) (λ _. v)))
        (λ f. excuse (ground arith))

  redirect-Sound :
      (addr : SockaddrIn) (pck : Packet) (c : Client)
      → IsSound c.core
      → Sound F (redirect e addr pck c)
  unfolding redirect
  redirect-Sound addr pck c v =
      reply-Sound addr _ pck.index _
        (Made-redirect e.scratch w.scratch_size pck.index c.core.child_addr)
        (childless-IsSound (c.core.curr_child_p_count == 99) c v)

  join_crowded-Sound :
      (addr : SockaddrIn) (pck : Packet) (c : Client)
      → c.core.is_sp ≡ true
      → (lacks_checker c.core ≡ true → F)
      → IsSound c.core
      → Sound F (join_crowded e addr pck c)
  unfolding join_crowded
  join_crowded-Sound addr pck c h excuse v =
      if-case (Sound F) c.core.have_child _ _
        (λ _.
          if-case (Sound F) (ltb c.core.child_miss_pong 3) _ _ (λ _. redirect-Sound addr pck c v)
            (λ _. promote-Sound c h excuse v))
        (λ _. promote-Sound c h excuse v)

  join_full-Sound :
      (s : State) (addr : SockaddrIn) (pck : Packet) (c : Client)
      → c.core.is_sp ≡ true
      → (lacks_checker c.core ≡ true → F)
      → IsSound c.core
      → Sound F (join_full e s addr pck c)
  unfolding join_full
  join_full-Sound promote_sent addr pck c h excuse v = v
  join_full-Sound _ addr pck c h excuse v = join_crowded-Sound addr pck c h excuse v

  join_at-Sound :
      (i : Option ℕ) (addr : SockaddrIn) (pck : Packet) (c : Client)
      → c.core.is_sp ≡ true
      → (lacks_checker c.core ≡ true → F)
      → IsSound c.core
      → Sound F (join_at e i addr pck c)
  unfolding join_at
  join_at-Sound (some i) addr pck c h excuse v = reply_ack-Sound addr pck.index c v
  join_at-Sound none addr pck c h excuse v =
      if-case (Sound F) (ltb c.peers.curr_p_count max_p_count) _ _
        (λ _.
          deref-case (Sound F) c.core.peer_list_checker _ (λ _. reply_ack-Sound addr pck.index _ v)
            (λ f. excuse (ground arith)))
        (λ _. join_full-Sound c.core.state addr pck c h excuse v)

  pub join_handler-Sound :
      (addr : SockaddrIn) (pck : Packet) (c : Client)
      → (c.core.is_sp ≡ true → lacks_checker c.core ≡ true → F)
      → IsSound c.core
      → Sound F (join_handler e addr pck c)
  unfolding join_handler
  join_handler-Sound addr pck c excuse v =
      if-case (Sound F) (not c.core.is_sp) _ _ (λ _. reply_err-Sound addr pck.index c v)
        (λ f. join_at-Sound _ addr pck c (ground arith) (excuse (ground arith)) v)

  redirected-Sound :
      (s : State) (pck : Packet) (c : Client) → IsSound c.core → Sound F (redirected e s pck c)
  unfolding redirected
  redirected-Sound joinsp_sent pck c v =
      Keeps-Sound F _ c.core (join_sp-Keeps (str2addr pck.payload) c) v
  redirected-Sound _ pck c v = v

  pub redirect_handler-Sound :
      (pck : Packet) (c : Client) → IsSound c.core → Sound F (redirect_handler e pck c)
  unfolding redirect_handler
  redirect_handler-Sound pck c v = redirected-Sound c.core.state pck (stopped pck.index c).2 v

  send_leave_loop-Keeps : (it : List PeerNode) (c : Client) → Keeps c.core (send_leave_loop e it c)
  unfolding send_leave_loop
  send_leave_loop-Keeps [] c = refl
  send_leave_loop-Keeps (n ∷ it) c =
      regardless-Keeps _ _ c.core
        (reply-Keeps e n.peer_addr new_leave_packet (get_index c.start_index).0 _
          (Made-leave e.scratch w.scratch_size _))
        (λ d h. subst (λ k. Keeps k (send_leave_loop e it d)) h (send_leave_loop-Keeps it d))

  pub send_leave-Keeps : (c : Client) → Keeps c.core (send_leave e c)
  unfolding send_leave
  send_leave-Keeps c = send_leave_loop-Keeps c.peers.peer_list_head c
