-- ===== src/Client/Messages.antt =====
-- The handlers of src/client/client.c for pings, leaves, registrations and aborts.
use karmanet.Common.{
  ℕ, zero, suc, ◌%◌, ◌^◌, true, false, ◌&&◌, Option, none, some, List, [], ◌∷◌, if◌then◌else◌,
}
use karmanet.Common.Memory.{◌>>=◌ as ◌>>=?◌, memcpy}
use karmanet.Wire.{SockaddrIn, addrcmp, ltob, btol}
use karmanet.Packet.{
  Packet, get_index, new_ack_packet, new_err_packet, new_pong_packet, new_leave_packet,
}
use karmanet.PeerList.{PeerNode, get_node_peer, remove_peer_node, update_peer_flag}
use karmanet.Client.{
  deref, Client, Env, Outcome, ◌>>=◌, regardless, or_done, with_core, reply, join_bs, stop_threads,
  joinbs_sent, active, done,
}

-- `remove_all_file` and `remove_peer_node` for the peer at an address, if it is known
abbrev pub port_at : ℕ → List PeerNode → ℕ
port_at i [] = 0
port_at zero (n ∷ ns) = n.dw_port
port_at (suc i) (n ∷ ns) = port_at i ns

abbrev pub drop_at : Env → Option ℕ → SockaddrIn → Client → Outcome
drop_at e none addr c = done c
drop_at e (some i) addr c = deref (e.removes addr.s_addr (port_at i c.peers.peer_list_head)) (
    done (record c {
      removed = (addr.s_addr, port_at i c.peers.peer_list_head) ∷ c.removed;
      peers = remove_peer_node (some i) c.peers;
    }))

unfoldable pub drop_peer : Env → SockaddrIn → Client → Outcome
drop_peer e addr c = drop_at e (get_node_peer addr c.peers.peer_list_head) addr c

-- the pong to the superpeer that promoted this one has the number of peers
unfoldable pub new_pong_count : ℕ → Packet → ℕ → Option Packet
new_pong_count count p i = new_pong_packet p i >>=? λ q.
    memcpy 4 (ltob count) q.payload >>=? λ d. some (record q { payload = d; data_len = 4 })

module _ (e : Env) (addr : SockaddrIn) (recv_pck : Packet) where
  unfoldable pub ping_handler : Client → Outcome
  ping_handler c =
      if c.core.is_sp
      then deref c.core.peer_list_checker (
          let c1 = record c { peers = update_peer_flag addr recv_pck c.peers } in
          if addrcmp addr c.core.father_addr
          then reply e addr (new_pong_count c1.peers.curr_p_count) recv_pck.index c1
          else reply e addr new_pong_packet recv_pck.index c1)
      else done c

  -- a NULL checker is dereferenced; `btol` of the payload is assigned to a `short`
  unfoldable pub pong_handler : Client → Outcome
  pong_handler c =
      if c.core.is_sp
      then if addrcmp addr c.core.child_addr
        then done (
            with_core c (record c.core {
              curr_child_p_count = btol recv_pck.payload % 2 ^ 16;
              child_miss_pong = 0;
            }))
        else done c
      else deref c.core.sp_checker (done c)

  unfoldable pub register_handler : Client → Outcome
  register_handler c =
      if c.core.is_sp && addrcmp addr c.core.child_addr
      then (reply e addr new_ack_packet recv_pck.index c >>= λ c1. drop_peer e addr c1 >>= λ c2.
          done (with_core c2 (record c2.core { state = active; have_child = true })))
      else reply e addr new_err_packet recv_pck.index c

  -- the result is 1 if the packet to the bootstrap server cannot be sent
  unfoldable pub leave_handler : Client → Outcome
  leave_handler c =
      if c.core.is_sp
      then (drop_peer e addr c >>= λ c1. reply e addr new_ack_packet recv_pck.index c1)
      else if addrcmp c.core.addr_to_ping addr
      then (stop_threads e false c >>= λ c1.
          or_done (join_bs e c1) λ c2. done (with_core c2 (record c2.core { state = joinbs_sent })))
      else done c

  unfoldable pub abort_handler : Client → Outcome
  abort_handler c =
      if c.core.is_sp
      then (let c1 =
            if addrcmp c.core.child_addr addr
            then with_core c (record c.core { state = active })
            else c in
          reply e addr new_ack_packet recv_pck.index c1)
      else reply e addr new_err_packet recv_pck.index c

-- `send_leave`, to each peer; that a packet is not sent is only reported
unfoldable pub send_leave_loop : Env → List PeerNode → Client → Outcome
send_leave_loop e [] c = done c
send_leave_loop e (n ∷ it) c =
    let index = get_index c.start_index in
    let rest = send_leave_loop e it in
    regardless (reply e n.peer_addr new_leave_packet index.0 (record c { start_index = index.1 }))
      rest

unfoldable pub send_leave : Env → Client → Outcome
unfolding send_leave_loop
send_leave e c = send_leave_loop e c.peers.peer_list_head c
