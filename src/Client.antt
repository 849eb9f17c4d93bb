-- ===== src/Client.antt =====
-- The state of the client and what its handlers share: include/client.h, include/state.h, and of
-- src/client/client.c and src/client/superpeer.c the functions that several handlers call. A handler
-- takes the client and returns an outcome. What the system calls and the functions on files return
-- in one call of a handler is its environment. Descriptors stand in `Select`, and output is left
-- out. Locking does not fail, and no other thread runs in between.
pub mod Keeping
pub mod Messages
pub mod Joining
pub mod Lists
pub mod Commands
pub mod Invariant
pub mod Loop
pub mod Progress
use karmanet.Common.{
  ℕ, ◌+◌, ◌-◌, ◌*◌, ◌%◌, Bool, true, false, not, ◌&&◌, ◌||◌, Option, none, some, List, [], ◌∷◌, map,
  if◌then◌else◌,
}
use karmanet.Common.Memory.{◌>>=◌ as ◌>>=?◌, store_byte}
use karmanet.Wire.{SockaddrIn, addrcpy}
use karmanet.Packet.{
  Packet, cmd_str_len, get_index, new_packet, new_join_packet, new_join_packet_sp,
  new_register_packet,
}
use karmanet.PeerList.{PeerState}
use karmanet.Retx.{PacketState, retx_send, retx_stop}
use karmanet.Overlay.{Overlay}
use karmanet.Overlay.Join.{Attempt, Joined, join_overlay}
use karmanet.Overlay.Join
use karmanet.Overlay.Neighbours.{zeros}
use karmanet.Wire.{same_bytes}

-- state.h; `init` sets the state to 0 before the first message
pub data State : Type 0 where
  idle joinbs_sent joinsp_sent promote_sent promote_recv : State
  register_sent active leave_sent open_more_conn : State

-- MAX_P_COUNT
abbrev pub max_p_count : ℕ
max_p_count = 100

-- MAX_TCP_SOCKET
abbrev pub max_tcp_socket : ℕ
max_tcp_socket = 6

-- MAX_JOIN_OV_TRY
abbrev pub max_join_ov_try : ℕ
max_join_ov_try = 5

-- MAX_BS_ERROR
abbrev pub max_bs_error : ℕ
max_bs_error = 5

-- The global variables that the handlers test. `addr_list` is `none` for NULL; `sp_checker` and
-- `peer_list_checker` say whether the pointers are not NULL.
pub record Core : Type 0 where
  pub state : State
  pub is_sp : Bool
  pub addr_list : Option (List SockaddrIn)
  pub addr_list_len : ℕ
  pub curr_addr_index : ℕ
  pub bserror : ℕ
  pub join_ov_try : ℕ
  pub have_child : Bool
  pub child_miss_pong : ℕ
  pub curr_child_p_count : ℕ
  pub child_addr : SockaddrIn
  pub father_addr : SockaddrIn
  pub myaddr : SockaddrIn
  pub addr_to_ping : SockaddrIn
  pub sp_checker : Bool
  pub peer_list_checker : Bool
  pub transfer_initialized : Bool

-- `sent` lists the packets that were sent, the last one first, and `removed` the calls of
-- `remove_all_file`
pub record Client : Type 0 where
  pub core : Core
  pub peers : PeerState
  pub packets : PacketState
  pub overlay : Overlay
  pub start_index : ℕ
  pub sent : List (SockaddrIn × Packet)
  pub removed : List (ℕ × ℕ)

-- What is outside: the socket, the address of the bootstrap server, the packets that a variable and
-- the memory from `malloc` hold before, whether a packet can be sent to an address, the rate of this
-- peer and its TCP port, and whether the other calls succeed. `near_bytes` and `near_count` are what
-- the memory of a new node of the near list holds, and `attempts` what happens with each address
-- that the client connects to. `own_fits` says whether `add_sp_file`, and `removes` for which address
-- and port `remove_all_file`, keeps to memory that is its own.
pub record Env : Type 0 where
  pub udp_sock : ℕ
  pub bs_addr : SockaddrIn
  pub scratch : Packet
  pub raw : Packet
  pub delivers : SockaddrIn → Bool
  pub peer_rate : ℕ
  pub tcp_port : ℕ
  pub udp_port : ℕ
  pub pinger_stops : Bool
  pub checker_stops : Bool
  pub checker_joins : Bool
  pub pinger_joins : Bool
  pub checker_runs : Bool
  pub pinger_runs : Bool
  pub listens : Bool
  pub attempts : SockaddrIn → Attempt
  pub near_bytes : List ℕ
  pub near_count : ℕ
  pub init_transfer : Bool
  pub create_diff : Bool
  pub send_share : Bool
  pub add_sp_file : Bool
  pub own_fits : Bool
  pub removes : ℕ → ℕ → Bool

-- the results 0 and -1, the end of the process, and undefined behaviour
pub data Outcome : Type 0 where
  done : Client → Outcome
  failed : Client → Outcome
  exited : Outcome
  fault : Outcome

infixl 5 ◌>>=◌
abbrev pub ◌>>=◌ : Outcome → (Client → Outcome) → Outcome
done c >>= f = f c
failed c >>= f = failed c
exited >>= f = exited
fault >>= f = fault

-- a handler that reports the result -1 and goes on
abbrev pub regardless : Outcome → (Client → Outcome) → Outcome
regardless (done c) f = f c
regardless (failed c) f = f c
regardless exited f = exited
regardless fault f = fault

-- a call whose result -1 makes the handler return 0
abbrev pub or_done : Outcome → (Client → Outcome) → Outcome
or_done (done c) f = f c
or_done (failed c) f = done c
or_done exited f = exited
or_done fault f = fault

-- the result -1, whatever the result was
abbrev pub fails : Outcome → Outcome
fails (done c) = failed c
fails (failed c) = failed c
fails exited = exited
fails fault = fault

abbrev pub need {ℓ} : {A : Type ℓ} → Option A → (A → Outcome) → Outcome
need none f = fault
need (some a) f = f a

abbrev pub check : Bool → Client → Outcome
check true c = done c
check false c = failed c

-- an access through a pointer that may be NULL
abbrev pub deref : Bool → Outcome → Outcome
deref true o = o
deref false o = fault

-- the state machine's variables
abbrev pub with_core : Client → Core → Client
with_core c k = record c { core = k }

-- the list of addresses is freed
abbrev pub forget_addrs : Client → Client
forget_addrs c = with_core c (record c.core { addr_list = none })

abbrev pub set_state : State → Client → Client
set_state state c = with_core c (record c.core { state = state })

-- `!strncmp(cmd, command, CMD_STR_LEN)`
abbrev pub is_cmd : List ℕ → List ℕ → Bool
is_cmd cmd command = same_bytes cmd_str_len cmd command

abbrev pub free_connections : Overlay → ℕ
free_connections o = (o.max_tcp_sock + 256 - o.nsock % 256) % 256

module _ (e : Env) where
  -- `mutex_send`
  unfoldable pub mutex_send : SockaddrIn → Packet → Client → Outcome
  mutex_send addr pck c =
      if e.delivers addr then done (record c { sent = (addr, pck) ∷ c.sent }) else failed c

  -- `retx_send`
  unfoldable pub send_retx : SockaddrIn → Packet → Client → Outcome
  send_retx addr pck c = need (retx_send (e.delivers addr) e.raw e.udp_sock addr pck c.packets) λ r.
      elim r [
        | none ↦ failed c
        | some p ↦ done (record c { packets = p; sent = (addr, pck) ∷ c.sent })
      ]

  -- an answer with the index of the packet that was received
  unfoldable pub reply : SockaddrIn → (Packet → ℕ → Option Packet) → ℕ → Client → Outcome
  unfolding mutex_send
  reply addr new_reply index c = need (new_reply e.scratch index) λ p. mutex_send addr p c

  -- a packet with the next index, kept for retransmission
  unfoldable pub request : SockaddrIn → (Packet → ℕ → Option Packet) → Client → Outcome
  unfolding send_retx
  request addr new_request c =
      let index = get_index c.start_index in
      need (new_request e.scratch index.0)
        λ p. send_retx addr p (record c { start_index = index.1 })

  unfoldable pub join_sp : SockaddrIn → Client → Outcome
  unfolding request
  join_sp addr c = request addr (λ p i. new_join_packet_sp p i e.peer_rate e.tcp_port) c

  unfoldable pub join_bs : Client → Outcome
  unfolding request
  join_bs c = request e.bs_addr new_join_packet c

  -- CMD_ABORT
  unfoldable pub new_abort_packet : Packet → ℕ → Option Packet
  new_abort_packet p i = new_packet p (b'A' ∷ b'B' ∷ b'R' ∷ []) i none 0 1

  -- the REG packet to the bootstrap server, with the number of free connections, a `char`
  unfoldable pub new_register_free : ℕ → Packet → ℕ → Option Packet
  new_register_free free p i = new_register_packet p i >>=? λ q.
      store_byte q.payload 0 free >>=? λ d. some (record q { payload = d; data_len = 1 })

  unfoldable pub register_bs : Client → Outcome
  unfolding request new_register_free
  register_bs c = request e.bs_addr (new_register_free (free_connections c.overlay)) c

  -- the end of `run_threads`, where `addr` is the address to ping
  unfoldable pub run_checker : Option SockaddrIn → Client → Outcome
  run_checker addr c =
      if e.checker_runs
      then (need addr λ a.
          check e.pinger_runs
            (with_core c (record c.core { addr_to_ping = addrcpy c.core.addr_to_ping a })))
      else failed c

  -- `run_threads`, where `is_sp` says which checker is started; an address is `none` for NULL
  unfoldable pub run_as : Bool → Option SockaddrIn → Option SockaddrIn → Client → Outcome
  unfolding run_checker
  run_as true bs_addr sp_addr c =
      run_checker bs_addr (with_core c (record c.core { peer_list_checker = true }))
  run_as false bs_addr sp_addr c =
      run_checker sp_addr (with_core c (record c.core { sp_checker = true }))

  unfoldable pub run_threads : Option SockaddrIn → Option SockaddrIn → Client → Outcome
  unfolding run_as
  run_threads bs_addr sp_addr c = run_as c.core.is_sp bs_addr sp_addr c

  -- `stop_threads(reset)`, where `reset` says whether the superpeer's checker has ended by itself
  unfoldable pub stop_as : Bool → Bool → Client → Outcome
  stop_as true reset c = deref c.core.peer_list_checker (
      if e.checker_stops && e.checker_joins
      then check e.pinger_joins (with_core c (record c.core { peer_list_checker = false }))
      else failed c)
  stop_as false reset c = deref c.core.sp_checker (
      if (reset || e.checker_stops) && e.checker_joins
      then check e.pinger_joins (with_core c (record c.core { sp_checker = false }))
      else failed c)

  unfoldable pub stop_threads : Bool → Client → Outcome
  unfolding stop_as
  stop_threads reset c = if e.pinger_stops then stop_as c.core.is_sp reset c else failed c

  -- the variables that `init_superpeer` resets
  abbrev pub reset_superpeer : Client → Client
  reset_superpeer c = record c {
    core = record c.core {
      is_sp = false;
      have_child = false;
      child_miss_pong = 0;
      join_ov_try = 0;
    };
    peers = record c.peers { curr_p_count = 0 };
    overlay = record c.overlay {
      nsock = 0;
      max_tcp_sock = max_tcp_socket;
      near_str = zeros (max_tcp_socket * 6);
    };
  }

  abbrev pub with_port : ℕ → SockaddrIn → SockaddrIn
  with_port port a = record a { sin_port = port }

  -- The client and the result of `join_overlay`. The own address, which `get_local_addr` writes, is
  -- not kept.
  unfoldable pub connect : List SockaddrIn → Client → Option (Client × Join.Result)
  connect addrs c =
      join_overlay e.near_bytes e.near_count (map (λ a. (a, e.attempts a)) addrs) c.overlay
      >>=? λ j. some (record c { overlay = j.state }, j.result)

  -- after a list the own port is written
  abbrev pub with_myaddr : Join.Result → Client → Client
  with_myaddr Join.failed c = c
  with_myaddr result c = with_core c (record c.core { myaddr = with_port e.udp_port c.core.myaddr })

  -- `init_superpeer`; the list is `none` for NULL
  unfoldable pub init_superpeer : Option (List SockaddrIn) → Client → Option (Client × Join.Result)
  unfolding connect
  init_superpeer addrs c =
      if not e.listens then some (reset_superpeer c, Join.failed) else elim addrs [
        | none ↦ some (reset_superpeer c, Join.complete)
        | some l ↦ connect l (reset_superpeer c) >>=? λ r. some (with_myaddr r.1 r.0, r.1)
      ]

-- what `retx_stop` returns, and the client afterwards
abbrev pub stopped : ℕ → Client → ℕ × List ℕ × Client
stopped index c = let r = retx_stop index c.packets in (r.0, r.1, record c { packets = r.2 })
