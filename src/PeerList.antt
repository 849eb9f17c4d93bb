-- ===== src/PeerList.antt =====
-- The superpeer's list of its peers: include/peer_list.h, src/client/peer_list.c, and what
-- src/client/peer_list_checker.c does to it under its lock. The list is given by the data of its
-- nodes in order; a node is named by its position, 0 for the head.
pub mod Order
pub mod Checks
pub mod Places
use karmanet.Common.{ℕ, suc, ◌+◌, ◌-◌, Option, none, some, List, [], ◌∷◌, ltb, ◌==◌, if◌then◌else◌}
use karmanet.Common.Positions.{is_empty, insert_at, remove_at, change_at, next}
use karmanet.Wire.{SockaddrIn, addrcmp, btol}
use karmanet.Packet.{Packet}

pub record PeerNode : Type 0 where
  pub peer_addr : SockaddrIn
  pub peer_rate : ℕ
  pub dw_port : ℕ
  pub flag : ℕ

-- the global variables; `curr_p_count` goes down only when a node is removed
pub record PeerState : Type 0 where
  pub peer_list_head : List PeerNode
  pub curr_p_count : ℕ

-- peer_list.c

unfoldable pub new_peer_node : SockaddrIn → ℕ → ℕ → PeerNode
new_peer_node peer_addr peer_rate port = record {
  peer_addr = peer_addr;
  peer_rate = peer_rate;
  dw_port = port;
  flag = 1;
}

unfoldable pub get_node_peer : SockaddrIn → List PeerNode → Option ℕ
get_node_peer peer_addr [] = none
get_node_peer peer_addr (n ∷ ns) =
    if addrcmp n.peer_addr peer_addr then some 0 else next (get_node_peer peer_addr ns)

abbrev count_of : PeerState → ℕ
count_of s = if is_empty s.peer_list_head then 0 else s.curr_p_count

unfoldable pub insert_peer : SockaddrIn → ℕ → ℕ → PeerState → PeerState
insert_peer peer_addr peer_rate dw_port s = elim (get_node_peer peer_addr s.peer_list_head) [
  | none ↦ record {
    peer_list_head = new_peer_node peer_addr peer_rate dw_port ∷ s.peer_list_head;
    curr_p_count = count_of s + 1;
  }
  | some i ↦ record {
    peer_list_head = change_at i (λ n. record n { flag = 1 }) s.peer_list_head;
    curr_p_count = count_of s;
  }
]

-- The loop of `sorted_insert_peer`: `none` where it returns, and otherwise the number of nodes up
-- to the one that `sorted_insert_node` is given, 0 for NULL.
unfoldable pub search_place : SockaddrIn → ℕ → List PeerNode → Option ℕ
search_place peer_addr peer_rate [] = some 0
search_place peer_addr peer_rate (n ∷ ns) =
    if addrcmp peer_addr n.peer_addr
    then none
    else if ltb n.peer_rate peer_rate
    then some 0
    else next (search_place peer_addr peer_rate ns)

unfoldable pub sorted_insert_peer : SockaddrIn → ℕ → ℕ → PeerState → PeerState
sorted_insert_peer peer_addr peer_rate dw_port s =
    elim (search_place peer_addr peer_rate s.peer_list_head) [
      | none ↦ record s { curr_p_count = count_of s }
      | some i ↦ record {
        peer_list_head = insert_at i (new_peer_node peer_addr peer_rate dw_port) s.peer_list_head;
        curr_p_count = count_of s + 1;
      }
    ]

unfoldable pub remove_peer : SockaddrIn → PeerState → PeerState
remove_peer peer_addr s = elim (get_node_peer peer_addr s.peer_list_head) [
  | none ↦ s
  | some i ↦ record {
    peer_list_head = remove_at i s.peer_list_head;
    curr_p_count = s.curr_p_count - 1;
  }
]

-- `none` for a NULL node
unfoldable pub remove_peer_node : Option ℕ → PeerState → PeerState
remove_peer_node none s = s
remove_peer_node (some i) s =
    if is_empty s.peer_list_head
    then s
    else record { peer_list_head = remove_at i s.peer_list_head; curr_p_count = s.curr_p_count - 1 }

-- `free_list_peer`, one round for each node
free_list_peer_loop : List PeerNode → PeerState → PeerState
free_list_peer_loop [] s = s
free_list_peer_loop (n ∷ rounds) s = free_list_peer_loop rounds (remove_peer_node (some 0) s)

unfoldable pub free_list_peer : PeerState → PeerState
unfolding free_list_peer_loop
free_list_peer s = free_list_peer_loop s.peer_list_head s

-- `none` for NULL
unfoldable pub get_addr_head : PeerState → Option SockaddrIn
get_addr_head s = elim s.peer_list_head [ [] ↦ none | n ∷ ns ↦ some n.peer_addr ]

-- peer_list_checker.c

abbrev pub clear_flag : PeerNode → PeerNode
clear_flag n = record n { flag = 0 }

-- One pass of `peer_list_checker_func` from the position `i` on, where `it` is what is left of the
-- list. The second result lists the calls of `remove_all_file`, in their order.
check_loop : ℕ → List PeerNode → PeerState → PeerState × List (ℕ × ℕ)
check_loop i [] s = (s, [])
check_loop i (n ∷ it) s =
    let (t, calls) = check_loop i it (remove_peer_node (some i) s) in
    let kept =
      check_loop (suc i) it
        (record s { peer_list_head = change_at i clear_flag s.peer_list_head }) in
    if n.flag == 0 then (t, (n.peer_addr.s_addr, n.dw_port) ∷ calls) else kept

unfoldable pub check : PeerState → PeerState × List (ℕ × ℕ)
unfolding check_loop
check s = check_loop 0 s.peer_list_head s

-- the result of `update_peer_flag` is 0 whether or not the address is known
unfoldable pub update_peer_flag : SockaddrIn → Packet → PeerState → PeerState
update_peer_flag peer_addr recv_pck s = elim (get_node_peer peer_addr s.peer_list_head) [
  | none ↦ s
  | some i ↦ record s {
    peer_list_head =
        change_at i (λ n. record n { flag = 1; peer_rate = btol recv_pck.payload })
          s.peer_list_head;
  }
]
