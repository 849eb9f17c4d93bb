-- ===== src/Client/Loop.antt =====
-- The main loop of src/client/client.c as a relation between the clients before and after one turn:
-- the start, a message, a line from the pipe, the command leave, and what the other threads do in
-- between, which change the peers and the packets that wait, and end a promotion that takes long
-- (peer_list_checker.c).
use karmanet.Common.{ℕ, ◌≡◌, ◌⊎◌, true, false, none, List, []}
use karmanet.Wire.{SockaddrIn}
use karmanet.Packet.{Packet, new_leave_packet, cmd_err, cmd_promote}
use karmanet.PeerList.{PeerState}
use karmanet.Retx.{PacketState}
use karmanet.Wire.{addrcmp}
use karmanet.Client.{
  set_state, State, Core, Client, Env, Outcome, ◌>>=◌, is_cmd, request, idle, promote_sent, active,
  leave_sent, done, failed, exited,
}
use karmanet.Client.Joining.{back_to_bs}
use karmanet.Client.Commands.{udp_handler, error_handler, reset_handler}

abbrev no_address : SockaddrIn
no_address = record { sin_family = 0; sin_port = 0; s_addr = 0 }

-- the global variables after `init`; `index` is what `init_index` chose
abbrev pub initial : ℕ → Client
initial index = record {
  core = record {
    state = idle;
    is_sp = false;
    addr_list = none;
    addr_list_len = 0;
    curr_addr_index = 0;
    bserror = 0;
    join_ov_try = 0;
    have_child = false;
    child_miss_pong = 0;
    curr_child_p_count = 0;
    child_addr = no_address;
    father_addr = no_address;
    myaddr = no_address;
    addr_to_ping = no_address;
    sp_checker = false;
    peer_list_checker = false;
    transfer_initialized = false;
  };
  peers = record { peer_list_head = []; curr_p_count = 0 };
  packets = record { packet_list_head = []; packet_count = 0 };
  overlay = record { near_list = []; near_str = []; nsock = 0; max_tcp_sock = 0 };
  start_index = index;
  sent = [];
  removed = [];
}

-- a failure ends the process
abbrev pub or_exit : Outcome → Outcome
or_exit (failed c) = exited
or_exit o = o

pub data Event : Type 0 where
  message : SockaddrIn → Packet → Event
  error : List ℕ → Event
  reset leave expire : Event
  elsewhere : PeerState → PacketState → Event

-- the end of a promotion in `peer_list_checker_func`
abbrev pub expired : State → Client → Client
expired promote_sent c = set_state active c
expired state c = c

module _ (e : Env) (files : SockaddrIn → Packet → Client → Outcome) where
  -- `main` up to its loop
  unfoldable pub start : ℕ → Outcome
  start index = or_exit (back_to_bs e (initial index))

  -- the command leave of `keyboard_handler`
  unfoldable pub leave_network : Client → Outcome
  leave_network c =
      request e c.core.addr_to_ping new_leave_packet c >>= λ c1. done (set_state leave_sent c1)

  -- one turn of the loop
  unfoldable pub turn : Event → Client → Outcome
  turn (message addr pck) c = udp_handler e files addr pck c
  turn (error errstr) c = or_exit (error_handler e errstr c)
  turn reset c = or_exit (reset_handler e c)
  turn leave c = leave_network c
  turn expire c = done (expired c.core.state c)
  turn (elsewhere peers packets) c = done (record c { peers = peers; packets = packets })

-- the client that is left after the result 0 or -1
abbrev pub IsLeft : Client → Outcome → Type 0
IsLeft c o = (o ≡ done c) ⊎ (o ≡ failed c)

-- The bootstrap server, which a superpeer pings, does not refuse a superpeer's request; only a
-- superpeer has sent a packet PRM; and only the checker of a client that is no superpeer reports RST.
abbrev pub IsFair : Event → Core → Type 0
IsFair (message addr pck) k =
    is_cmd pck.cmd cmd_err ≡ true → addrcmp addr k.addr_to_ping ≡ true → k.is_sp ≡ false
IsFair (error errstr) k = is_cmd errstr cmd_promote ≡ true → k.is_sp ≡ true
IsFair reset k = k.is_sp ≡ false
IsFair event k = Unit

-- the clients that the loop comes to
pub data Reaches (e : Env) (files : SockaddrIn → Packet → Client → Outcome) : Client → Type 0 where
  started : (index : ℕ) (c : Client) → IsLeft c (start e files index) → Reaches e files c
  turned :
      (event : Event) (c d : Client)
      → Reaches e files c
      → IsFair event c.core
      → IsLeft d (turn e files event c)
      → Reaches e files d
