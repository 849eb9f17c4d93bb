-- ===== src/Client/Lists.antt =====
-- `list_handler` of src/client/client.c: what a client does with the addresses that the bootstrap
-- server sends it.
use karmanet.Common.{◌+◌, ◌/◌, some, List, [], leb, ◌==◌, if◌then◌else◌}
use karmanet.Wire.{SockaddrIn, str_to_addr}
use karmanet.Overlay.Join
use karmanet.Packet.{Packet}
use karmanet.Client.{
  forget_addrs, set_state, State, max_join_ov_try, Client, Env, Outcome, ◌>>=◌, fails, need,
  with_core, request, join_bs, new_abort_packet, register_bs, connect, init_superpeer, stopped,
  joinbs_sent, joinsp_sent, promote_recv, register_sent, active, open_more_conn, done,
}
use karmanet.Client.Joining.{join_current}

-- `recv_pck->data_len / 6` addresses
abbrev pub received : Packet → List SockaddrIn
received recv_pck = str_to_addr recv_pck.payload (recv_pck.data_len / 6)

abbrev pub with_list : Packet → Client → Client
with_list recv_pck c =
    with_core c (record c.core {
      addr_list = some (received recv_pck);
      addr_list_len = recv_pck.data_len / 6;
    })

-- the listening socket is closed and the buffer of the neighbours freed
abbrev pub no_neighbours : Client → Client
no_neighbours c = record c { overlay = record c.overlay { near_str = [] } }

abbrev pub no_tries : Client → Client
no_tries c = with_core c (record c.core { join_ov_try = 0 })

module _ (e : Env) where
  unfoldable pub list_joining : Packet → Client → Outcome
  list_joining recv_pck c =
      let c1 = with_list recv_pck c in
      let c2 = with_core c1 (record c1.core { bserror = 0; curr_addr_index = 0 }) in
      join_current e c2 >>= λ c3. done (set_state joinsp_sent c3)

  -- the packet ABR to the own superpeer
  unfoldable pub abort : Client → Outcome
  abort c = request e c.core.addr_to_ping (new_abort_packet e) c

  unfoldable pub register : Client → Outcome
  register c = register_bs e c >>= λ c1. done (set_state register_sent c1)

  -- more addresses are asked for
  unfoldable pub ask_again : Client → Outcome
  ask_again c =
      join_bs e (with_core c (record c.core { join_ov_try = c.core.join_ov_try + 1 })) >>= λ c1.
      done (set_state open_more_conn c1)

  unfoldable pub list_promoted : Packet → Client → Outcome
  unfolding abort register ask_again
  list_promoted recv_pck c =
      let c1 = with_list recv_pck c in
      let c2 = with_core c1 (record c1.core { bserror = 0 }) in
      need (init_superpeer e (some (received recv_pck)) c2) λ r. elim r.1 [
        | Join.failed ↦ fails (abort (set_state active (forget_addrs r.0)))
        | Join.partial ↦ ask_again (forget_addrs r.0)
        | Join.complete ↦ register (forget_addrs r.0)
      ]

  unfoldable pub give_up_joining : Client → Outcome
  unfolding abort register
  give_up_joining c =
      if c.overlay.nsock == 0
      then (abort (no_neighbours c) >>= λ c1. done (set_state active (no_tries c1)))
      else (register_bs e c >>= λ c1. done (set_state register_sent (no_tries c1)))

  unfoldable pub list_more : Packet → Client → Outcome
  unfolding give_up_joining ask_again
  list_more recv_pck c = need (connect e (received recv_pck) (with_list recv_pck c)) λ r.
      let c1 = forget_addrs r.0 in
      elim r.1 [
        | Join.failed ↦ fails (abort (no_neighbours c1))
        | Join.partial ↦
            if leb max_join_ov_try c1.core.join_ov_try then give_up_joining c1 else ask_again c1
        | Join.complete ↦ register_bs e c1 >>= λ c2. done (no_tries (set_state register_sent c2))
      ]

  unfoldable pub listed : State → Packet → Client → Outcome
  unfolding list_joining list_promoted list_more
  listed joinbs_sent recv_pck c = list_joining recv_pck c
  listed promote_recv recv_pck c = list_promoted recv_pck c
  listed open_more_conn recv_pck c = list_more recv_pck c
  listed state recv_pck c = done c

  unfoldable pub list_handler : Packet → Client → Outcome
  unfolding listed
  list_handler recv_pck c = listed c.core.state recv_pck (stopped recv_pck.index c).2
