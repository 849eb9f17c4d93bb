-- ===== src/Requests.antt =====
-- The requests that a client has seen: include/fifo_request.h, src/client/fifo_request.c, and the
-- pass of src/client/peer_list_checker.c that ages them. The list is given by the data of its nodes
-- in order; a node is named by its position.
pub mod Ageing
use karmanet.Common.{
  ℕ, suc, ◌-◌, Bool, ◌&&◌, Option, none, some, List, [], ◌∷◌, ◌==◌, if◌then◌else◌,
}
use karmanet.Common.Positions.{is_empty, remove_at, change_at, next}

-- REQUEST_TTL
abbrev pub request_ttl : ℕ
request_ttl = 3

pub record RequestNode : Type 0 where
  pub id : ℕ
  pub ip_sender : ℕ
  pub port : ℕ
  pub ttl : ℕ

abbrev pub Requests : Type 0
Requests = List RequestNode

-- what the three tests of `get_request_node` compare
abbrev pub is_request : ℕ → ℕ → ℕ → RequestNode → Bool
is_request id ip_sender port app =
    (app.id == id) && (app.ip_sender == ip_sender) && (app.port == port)

unfoldable pub get_request_node : ℕ → ℕ → ℕ → Requests → Option ℕ
get_request_node id ip_sender port [] = none
get_request_node id ip_sender port (n ∷ ns) =
    if is_request id ip_sender port n then some 0 else next (get_request_node id ip_sender port ns)

unfoldable pub new_request_node : ℕ → ℕ → ℕ → RequestNode
new_request_node id ip_sender port = record {
  id = id;
  ip_sender = ip_sender;
  port = port;
  ttl = request_ttl;
}

-- the result, 0 or 1, and the list
unfoldable pub insert_request : ℕ → ℕ → ℕ → Requests → ℕ × Requests
insert_request id ip_sender port list = elim (get_request_node id ip_sender port list) [
  | none ↦ (0, new_request_node id ip_sender port ∷ list)
  | some i ↦ (1, list)
]

unfoldable pub remove_request : ℕ → ℕ → ℕ → Requests → Requests
remove_request id ip_sender port list = elim (get_request_node id ip_sender port list) [
  | none ↦ list
  | some i ↦ remove_at i list
]

unfoldable pub remove_request_node : Option ℕ → Requests → Requests
remove_request_node none list = list
remove_request_node (some i) list = if is_empty list then list else remove_at i list

-- `free_list_request`, one round for each node
free_list_request_loop : Requests → Requests → Requests
free_list_request_loop [] list = list
free_list_request_loop (n ∷ rounds) list =
    free_list_request_loop rounds (remove_request_node (some 0) list)

unfoldable pub free_list_request : Requests → Requests
unfolding free_list_request_loop
free_list_request list = free_list_request_loop list list

abbrev pub decrement : RequestNode → RequestNode
decrement n = record n { ttl = n.ttl - 1 }

-- the loop of `peer_list_checker_func` over the requests, at the position `i`, where `it` is what
-- is left of the list
age_loop : ℕ → Requests → Requests → Requests
age_loop i [] list = list
age_loop i (n ∷ it) list =
    let dropped = age_loop i it (remove_request_node (some i) list) in
    let kept = age_loop (suc i) it (change_at i decrement list) in
    if n.ttl == 0 then dropped else kept

unfoldable pub age : Requests → Requests
unfolding age_loop
age list = age_loop 0 list list
