-- ===== src/Client/Commands.antt =====
-- The dispatch of the messages that the client receives, and of what its threads write to the pipe:
-- udp_handler, pipe_handler and error_handler of src/client/client.c. Requests for files (WHO) and
-- lists of files (UFL) do not touch the variables of the state machine: a function stands for them.
-- The message is what `recvfrom_packet` has decoded; the bound of that is in Packet/Bounds.
use karmanet.Common.{ℕ, ◌+◌, true, List, [], ◌∷◌, ltb, leb, if◌then◌else◌}
use karmanet.Wire.{SockaddrIn}
use karmanet.Packet.{
  Packet, new_err_packet, cmd_join, cmd_register, cmd_leave, cmd_list, cmd_redirect, cmd_promote,
  cmd_whohas, cmd_ack, cmd_err, cmd_ping, cmd_pong,
}
use karmanet.Client.{
  set_state, State, max_p_count, max_bs_error, Client, Env, Outcome, ◌>>=◌, regardless, need,
  with_core, is_cmd, reply, stop_threads, joinbs_sent, joinsp_sent, active, done, exited,
}
use karmanet.Client.Messages.{
  ping_handler, pong_handler, register_handler, leave_handler, abort_handler,
}
use karmanet.Client.Joining.{
  join_handler, redirect_handler, err_handler, ack_handler, promote_handler, join_current, current,
  back_to_bs, promote,
}
use karmanet.Client.Lists.{list_handler}

abbrev pub cmd_abort : List ℕ
cmd_abort = b'A' ∷ b'B' ∷ b'R' ∷ []

abbrev pub cmd_update_file_list : List ℕ
cmd_update_file_list = b'U' ∷ b'F' ∷ b'L' ∷ []

module _ (e : Env) (files : SockaddrIn → Packet → Client → Outcome) where
  -- The result of `ping_handler` is not passed on.
  unfoldable pub udp_handler : SockaddrIn → Packet → Client → Outcome
  udp_handler addr pck c =
      if is_cmd pck.cmd cmd_ack
      then ack_handler e addr pck c
      else if is_cmd pck.cmd cmd_join
      then join_handler e addr pck c
      else if is_cmd pck.cmd cmd_err
      then err_handler e addr pck c
      else if is_cmd pck.cmd cmd_ping
      then regardless (ping_handler e addr pck c) done
      else if is_cmd pck.cmd cmd_leave
      then leave_handler e addr pck c
      else if is_cmd pck.cmd cmd_whohas
      then files addr pck c
      else if is_cmd pck.cmd cmd_pong
      then pong_handler e addr pck c
      else if is_cmd pck.cmd cmd_promote
      then promote_handler e addr pck c
      else if is_cmd pck.cmd cmd_list
      then list_handler e pck c
      else if is_cmd pck.cmd cmd_abort
      then abort_handler e addr pck c
      else if is_cmd pck.cmd cmd_redirect
      then redirect_handler e pck c
      else if is_cmd pck.cmd cmd_update_file_list
      then files addr pck c
      else if is_cmd pck.cmd cmd_register
      then register_handler e addr pck c
      else reply e addr new_err_packet pck.index c

-- what the retransmission reports, by the command of the packet that it gave up
module _ (e : Env) where
  -- in the second state the address at `curr_addr_index` is printed
  unfoldable pub lost_join : State → Client → Outcome
  lost_join joinbs_sent c =
      if ltb c.core.bserror max_bs_error
      then back_to_bs e (with_core c (record c.core { bserror = c.core.bserror + 1 }))
      else exited
  lost_join joinsp_sent c = need (current c.core.addr_list c.core.curr_addr_index) λ a.
      if ltb (c.core.curr_addr_index + 1) c.core.addr_list_len
      then (join_current e
            (with_core c (record c.core { curr_addr_index = c.core.curr_addr_index + 1 }))
          >>= λ c1. done (set_state joinsp_sent c1))
      else back_to_bs e c
  lost_join state c = done c

  unfoldable pub lost_promote : Client → Outcome
  lost_promote c =
      if leb max_p_count c.peers.curr_p_count then promote e c else done (set_state active c)

  -- the end of an upload is left out
  unfoldable pub error_handler : List ℕ → Client → Outcome
  unfolding lost_join lost_promote
  error_handler errstr c =
      if is_cmd errstr cmd_join
      then lost_join c.core.state c
      else if is_cmd errstr cmd_promote
      then lost_promote c
      else if is_cmd errstr cmd_leave
      then exited
      else done c

  -- the lines RST and ERR of the pipe
  unfoldable pub reset_handler : Client → Outcome
  reset_handler c = stop_threads e true c >>= λ c1. back_to_bs e c1
