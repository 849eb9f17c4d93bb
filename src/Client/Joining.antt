-- ===== src/Client/Joining.antt =====
-- The handlers of src/client/client.c for the messages by which a client joins and is promoted.
use karmanet.Common.{
  ℕ, zero, suc, ◌+◌, Bool, true, false, not, Option, none, some, List, [], ◌∷◌, ltb, leb, ◌==◌,
  if◌then◌else◌, drop,
}
use karmanet.Common.Memory.{◌>>=◌ as ◌>>=?◌}
use karmanet.Overlay.Join
use karmanet.Wire.{SockaddrIn, addrcpy, addrcmp, btol, btos, str2addr}
use karmanet.Packet.{
  Packet, new_ack_packet, new_err_packet, new_redirect_packet, new_register_packet, new_join_packet,
  cmd_join, cmd_whohas,
}
use karmanet.Packet.Wrappers.{set_superpeer_flag}
use karmanet.PeerList.{get_node_peer}
use karmanet.Superpeer.{join_peer, promote_peer}
use karmanet.Client.{
  deref, forget_addrs, set_state, State, max_p_count, Client, Env, Outcome, ◌>>=◌, regardless, need,
  check, with_core, is_cmd, reply, request, join_sp, join_bs, run_threads, stop_threads,
  init_superpeer, stopped, joinbs_sent, joinsp_sent, promote_sent, promote_recv, register_sent,
  active, leave_sent, done, failed, exited,
}
use karmanet.Client.Messages.{send_leave}

-- the address at `curr_addr_index`, a read past the array or through NULL being none
abbrev pub addr_at : ℕ → List SockaddrIn → Option SockaddrIn
addr_at i [] = none
addr_at zero (a ∷ rest) = some a
addr_at (suc i) (a ∷ rest) = addr_at i rest

abbrev pub current : Option (List SockaddrIn) → ℕ → Option SockaddrIn
current none i = none
current (some l) i = addr_at i l

-- the states in which the promotion by a superpeer is only acknowledged
abbrev pub ignores_promote : State → Bool → Bool
ignores_promote promote_recv is_sp = true
ignores_promote register_sent is_sp = true
ignores_promote state is_sp = is_sp

module _ (e : Env) where
  -- `promote_peer`, and the state after it
  unfoldable pub promote : Client → Outcome
  promote c = deref c.core.peer_list_checker (
      need (promote_peer e.scratch e.raw e.delivers e.udp_sock c.start_index c.peers c.packets) λ p.
        let c1 = record c { packets = p.packets; start_index = p.start_index } in
        if p.ok then done (with_core c1 (record c1.core { state = promote_sent })) else failed c1)

  -- the redirection to the peer that was promoted, which may be the last one
  unfoldable pub redirect : SockaddrIn → Packet → Client → Outcome
  redirect addr pck c =
      let c1 =
        if c.core.curr_child_p_count == 99
        then with_core c (record c.core { have_child = false })
        else c in
      reply e addr (λ p i. new_redirect_packet p i c.core.child_addr) pck.index c1

  -- a join when there are MAX_P_COUNT peers
  unfoldable pub join_crowded : SockaddrIn → Packet → Client → Outcome
  unfolding promote redirect
  join_crowded addr pck c =
      if c.core.have_child
      then if ltb c.core.child_miss_pong 3 then redirect addr pck c else promote c
      else promote c

  unfoldable pub join_full : State → SockaddrIn → Packet → Client → Outcome
  unfolding join_crowded
  join_full promote_sent addr pck c = done c
  join_full state addr pck c = join_crowded addr pck c

  -- a join of an address that is a peer already, or not
  unfoldable pub join_at : Option ℕ → SockaddrIn → Packet → Client → Outcome
  unfolding join_full
  join_at (some i) addr pck c = reply e addr new_ack_packet pck.index c
  join_at none addr pck c =
      if ltb c.peers.curr_p_count max_p_count
      then deref c.core.peer_list_checker (
          reply e addr new_ack_packet pck.index (record c {
            peers = join_peer addr (btol pck.payload) (btos (drop 4 pck.payload)) c.peers;
          }))
      else join_full c.core.state addr pck c

  unfoldable pub join_handler : SockaddrIn → Packet → Client → Outcome
  unfolding join_at
  join_handler addr pck c =
      if not c.core.is_sp
      then reply e addr new_err_packet pck.index c
      else join_at (get_node_peer addr c.peers.peer_list_head) addr pck c

  unfoldable pub redirected : State → Packet → Client → Outcome
  redirected joinsp_sent recv_pck c = join_sp e (str2addr recv_pck.payload) c
  redirected state recv_pck c = done c

  unfoldable pub redirect_handler : Packet → Client → Outcome
  unfolding redirected
  redirect_handler recv_pck c = redirected c.core.state recv_pck (stopped recv_pck.index c).2

  -- the packet JOI with index and rate to the superpeer at `curr_addr_index`
  unfoldable pub join_current : Client → Outcome
  join_current c = need (current c.core.addr_list c.core.curr_addr_index) λ a. join_sp e a c

  unfoldable pub back_to_bs : Client → Outcome
  back_to_bs c = join_bs e c >>= λ c1. done (with_core c1 (record c1.core { state = joinbs_sent }))

  -- the two cases of `err_handler` after `retx_stop`
  unfoldable pub refused_join : SockaddrIn → Client → Outcome
  unfolding join_current back_to_bs
  refused_join addr c = need (current c.core.addr_list c.core.curr_addr_index) λ a.
      if addrcmp addr a
      then (let c1 = with_core c (record c.core { curr_addr_index = c.core.curr_addr_index + 1 }) in
          if leb c1.core.addr_list_len c1.core.curr_addr_index
          then back_to_bs c1
          else join_current c1)
      else done c

  unfoldable pub lose_superpeer : State → Client → Outcome
  unfolding back_to_bs
  lose_superpeer active c = stop_threads e false c >>= back_to_bs
  lose_superpeer state c = done c

  unfoldable pub refused_whohas : SockaddrIn → Client → Outcome
  unfolding lose_superpeer
  refused_whohas addr c =
      if addrcmp addr c.core.addr_to_ping then lose_superpeer c.core.state c else done c

  unfoldable pub refused : State → SockaddrIn → List ℕ → Client → Outcome
  unfolding refused_join refused_whohas
  refused joinsp_sent addr cmdstr c =
      if is_cmd cmdstr cmd_join
      then refused_join addr c
      else if is_cmd cmdstr cmd_whohas
      then refused_whohas addr c
      else done c
  refused state addr cmdstr c = if is_cmd cmdstr cmd_whohas then refused_whohas addr c else done c

  unfoldable pub err_handler : SockaddrIn → Packet → Client → Outcome
  unfolding refused
  err_handler addr recv_pck c =
      let r = stopped recv_pck.index c in
      if r.0 == 1 then done r.2 else refused c.core.state addr r.1 r.2

  -- `init_transfer`
  unfoldable pub init_transfer : Client → Outcome
  init_transfer c =
      if e.init_transfer
      then done (with_core c (record c.core { transfer_initialized = true }))
      else failed c

  -- the four states of `ack_handler` that do something; the packets of `send_share` are not kept
  unfoldable pub joined_sp : SockaddrIn → Client → Outcome
  unfolding init_transfer
  joined_sp addr c = run_threads e none (some addr) c >>= λ c1.
      init_transfer (forget_addrs (set_state active c1)) >>= λ c2.
      check e.create_diff c2 >>= λ c3. check e.send_share c3

  unfoldable pub registered : Client → Outcome
  registered c = request e c.core.addr_to_ping new_register_packet c >>= λ c1.
      let c2 =
        with_core c1
          (record c1.core { father_addr = addrcpy c1.core.father_addr c1.core.addr_to_ping }) in
      stop_threads e false c2 >>= λ c3.
      regardless
        (run_threads e (some e.bs_addr) none (with_core c3 (record c3.core { is_sp = true })))
        λ c4. check e.create_diff c4 >>= λ c5.
          deref e.own_fits (check e.add_sp_file c5) >>= λ c6. done (set_state active c6)

  unfoldable pub acknowledged : State → SockaddrIn → Client → Outcome
  unfolding joined_sp registered
  acknowledged joinsp_sent addr c = joined_sp addr c
  acknowledged promote_sent addr c =
      done (with_core c (record c.core { child_addr = addrcpy c.core.child_addr addr }))
  acknowledged register_sent addr c = if addrcmp addr e.bs_addr then registered c else done c
  acknowledged leave_sent addr c =
      if c.core.is_sp then (send_leave e c >>= λ c1. exited) else exited
  acknowledged state addr c = done c

  unfoldable pub ack_handler : SockaddrIn → Packet → Client → Outcome
  unfolding acknowledged
  ack_handler addr recv_pck c = acknowledged c.core.state addr (stopped recv_pck.index c).2

  -- the promotion by the bootstrap server
  unfoldable pub promoted_by_bs : Packet → Client → Outcome
  unfolding init_transfer
  promoted_by_bs recv_pck c = need (init_superpeer e none (forget_addrs (set_state active c))) λ r.
      elim r.1 [
        | Join.failed ↦ failed r.0
        | other ↦
            run_threads e (some e.bs_addr) none (with_core r.0 (record r.0.core { is_sp = true }))
            >>= λ c1. init_transfer c1 >>= λ c2. check e.create_diff c2 >>= λ c3. deref e.own_fits (
                check e.add_sp_file
                  (with_core c3 (record c3.core { myaddr = str2addr recv_pck.payload })))
      ]

  -- the packet JOI with the flag of a superpeer
  unfoldable pub new_join_superpeer : Packet → ℕ → Option Packet
  new_join_superpeer p i = new_join_packet p i >>=? λ q. some (set_superpeer_flag q)

  -- the promotion by the own superpeer
  unfoldable pub promoted_by_sp : SockaddrIn → Packet → Client → Outcome
  promoted_by_sp addr recv_pck c = reply e addr new_ack_packet recv_pck.index c >>= λ c1.
      if ignores_promote c1.core.state c1.core.is_sp
      then done c1
      else (request e e.bs_addr new_join_superpeer c1 >>= λ c2. done (set_state promote_recv c2))

  unfoldable pub promoted : State → SockaddrIn → Packet → Client → Outcome
  unfolding promoted_by_bs promoted_by_sp
  promoted joinbs_sent addr recv_pck c = promoted_by_bs recv_pck c
  promoted state addr recv_pck c = promoted_by_sp addr recv_pck c

  unfoldable pub promote_handler : SockaddrIn → Packet → Client → Outcome
  unfolding promoted
  promote_handler addr recv_pck c = promoted c.core.state addr recv_pck (stopped recv_pck.index c).2
