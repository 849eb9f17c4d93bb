-- ===== src/Retx.antt =====
-- The packets that wait for an answer: include/packet_list.h, src/client/packet_list.c, and the
-- retransmission of src/client/retx.c. The list is given by the data of its nodes in order; a node
-- is named by its position. Sending is a parameter: `sent` says whether `send_packet` succeeds.
pub mod Termination
pub mod Rounds
use karmanet.Common.{
  ℕ, zero, suc, ◌+◌, ◌-◌, Bool, true, false, not, ◌||◌, Option, none, some, List, [], ◌∷◌, ltb,
  ◌==◌, if◌then◌else◌, take,
}
use karmanet.Common.Memory.{◌>>=◌}
use karmanet.Common.Positions.{is_empty, remove_at, change_at, next}
use karmanet.Wire.{SockaddrIn}
use karmanet.Packet.{Packet, pckcpy, cmd_str_len}

-- MAX_RETX
abbrev pub max_retx : ℕ
max_retx = 6

-- `none` for a negative countdown, which nothing changes any more
pub record PacketNode : Type 0 where
  pub socksd : ℕ
  pub pck : Packet
  pub addrto : SockaddrIn
  pub nretx : ℕ
  pub countdown : Option ℕ
  pub errors : ℕ

-- the global variables
pub record PacketState : Type 0 where
  pub packet_list_head : List PacketNode
  pub packet_count : ℕ

-- packet_list.c

-- `raw` is the packet in the memory from `malloc`; `none` for a copy out of bounds
unfoldable pub new_packet_node :
    Packet → ℕ → Packet → SockaddrIn → ℕ → Option ℕ → ℕ → Option PacketNode
new_packet_node raw socksd pck addr nretx countdown errors = do
  copy ← pckcpy raw pck
  some (record {
    socksd = socksd;
    pck = copy;
    addrto = addr;
    nretx = nretx;
    countdown = countdown;
    errors = errors;
  })

unfoldable pub insert_packet :
    Packet → ℕ → Packet → SockaddrIn → ℕ → Option ℕ → ℕ → PacketState → Option PacketState
insert_packet raw socksd pck addr nretx countdown errors s = do
  new_node ← new_packet_node raw socksd pck addr nretx countdown errors
  some (record {
    packet_list_head = new_node ∷ s.packet_list_head;
    packet_count = (if is_empty s.packet_list_head then 0 else s.packet_count) + 1;
  })

unfoldable pub get_packet_node : ℕ → List PacketNode → Option ℕ
get_packet_node pck_index [] = none
get_packet_node pck_index (n ∷ ns) =
    if n.pck.index == pck_index then some 0 else next (get_packet_node pck_index ns)

unfoldable pub remove_packet : ℕ → PacketState → PacketState
remove_packet pck_index s = elim (get_packet_node pck_index s.packet_list_head) [
  | none ↦ s
  | some i ↦ record {
    packet_list_head = remove_at i s.packet_list_head;
    packet_count = s.packet_count - 1;
  }
]

unfoldable pub remove_packet_node : Option ℕ → PacketState → PacketState
remove_packet_node none s = s
remove_packet_node (some i) s = if is_empty s.packet_list_head then s else record {
  packet_list_head = remove_at i s.packet_list_head;
  packet_count = s.packet_count - 1;
}

-- `free_packet_list`, one round for each node
free_packet_list_loop : List PacketNode → PacketState → PacketState
free_packet_list_loop [] s = s
free_packet_list_loop (n ∷ rounds) s = free_packet_list_loop rounds (remove_packet_node (some 0) s)

unfoldable pub free_packet_list : PacketState → PacketState
unfolding free_packet_list_loop
free_packet_list s = free_packet_list_loop s.packet_list_head s

-- retx.c

-- what a round of the loop of `retx_func` does outside the list
pub data Action : Type 0 where
  wait resend give_up : Action

-- after `send_packet`, which may have failed
abbrev pub after_send : Bool → PacketNode → PacketNode × Action
after_send true n = (record n { nretx = n.nretx + 1; countdown = some (n.nretx + 1) }, resend)
after_send false n = (record n { countdown = some n.nretx; errors = n.errors + 1 }, resend)

-- one round, on one node
unfoldable pub retx_node : Bool → PacketNode → PacketNode × Action
retx_node sent n = elim n.countdown [
  | none ↦ (n, wait)
  | some k ↦
      if ltb 0 k
      then (record n { countdown = some (k - 1) }, wait)
      else if (n.nretx == max_retx) || (n.errors == max_retx)
      then (record n { countdown = none }, give_up)
      else after_send sent n
]

-- One pass over the list, in which `write_err` does not fail. `sent` has the outcome of
-- `send_packet` for the node at each position.
unfoldable pub retx_pass : (ℕ → Bool) → List PacketNode → List PacketNode
retx_pass sent [] = []
retx_pass sent (n ∷ iterator) = (retx_node (sent 0) n).0 ∷ retx_pass (λ i. sent (suc i)) iterator

-- `none` for the result -1, when the packet is not sent
unfoldable pub retx_send :
    Bool → Packet → ℕ → SockaddrIn → Packet → PacketState → Option (Option PacketState)
retx_send sent raw socksd addr pck s =
    if not sent
    then some none
    else (insert_packet raw socksd pck addr 1 (some 1) 0 s >>= λ t. some (some t))

-- what `retx_stop` copies to `pck_cmd`
abbrev pub cmd_at : ℕ → List PacketNode → List ℕ
cmd_at i [] = []
cmd_at zero (n ∷ ns) = take cmd_str_len n.pck.cmd
cmd_at (suc i) (n ∷ ns) = cmd_at i ns

-- the result, 0 or 1, the command, and the state
unfoldable pub retx_stop : ℕ → PacketState → ℕ × List ℕ × PacketState
retx_stop pck_index s = elim (get_packet_node pck_index s.packet_list_head) [
  | none ↦ (1, [], s)
  | some i ↦ (0, cmd_at i s.packet_list_head, remove_packet_node (some i) s)
]
