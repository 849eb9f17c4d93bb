-- ===== src/Overlay.antt =====
-- The superpeer's neighbours in the overlay: include/near_list.h, src/client/near_list.c, and of
-- src/client/superpeer.c the functions that keep the list and flood packets over it. The list is
-- given by its nodes in order. `malloc` and the mutexes do not fail.
pub mod Neighbours
pub mod Connections
pub mod Flooding
pub mod Join
pub mod Answered
pub mod Joining
pub mod Rounds
pub mod Nodes
use karmanet.Common.{
  ℕ, ◌+◌, ◌-◌, ◌*◌, ◌/◌, Bool, true, false, ◌&&◌, Option, none, some, List, [], ◌∷◌, ◌++◌, leb,
  ◌==◌, if◌then◌else◌, take, drop, replicate,
}
use karmanet.Common.Memory.{◌>>=◌, memcpy}
use karmanet.Wire.{SockaddrIn, addrcmp, addr2str, addr_str_len, contains_addr}

-- `bytes` is the array `data`
pub record NearNode : Type 0 where
  pub socksd : ℕ
  pub addr : SockaddrIn
  pub bytes : List ℕ
  pub near_number : ℕ

abbrev pub near_data_len : ℕ
near_data_len = 36

-- `memcmp` of two addresses that are filled in alike
abbrev pub same_sockaddr : SockaddrIn → SockaddrIn → Bool
same_sockaddr a b =
    (a.sin_family == b.sin_family) && (a.sin_port == b.sin_port) && (a.s_addr == b.s_addr)

-- near_list.c

-- the node that the search for a socket stops at
unfoldable pub get_near_node : ℕ → List NearNode → Option NearNode
get_near_node socksd [] = none
get_near_node socksd (n ∷ ns) = if n.socksd == socksd then some n else get_near_node socksd ns

unfoldable pub get_near_by_addr : SockaddrIn → List NearNode → Option NearNode
get_near_by_addr addr [] = none
get_near_by_addr addr (n ∷ ns) = if addrcmp n.addr addr then some n else get_near_by_addr addr ns

-- `raw` and `number` are what the memory from `malloc` holds
abbrev pub create_new_near_node : List ℕ → ℕ → ℕ → SockaddrIn → NearNode
create_new_near_node raw number socksd addr = record {
  socksd = socksd;
  addr = addr;
  bytes = raw;
  near_number = number;
}

-- `none` for the result -1
unfoldable pub insert_near : List ℕ → ℕ → ℕ → SockaddrIn → List NearNode → Option (List NearNode)
insert_near raw number socksd addr [] = some (create_new_near_node raw number socksd addr ∷ [])
insert_near raw number socksd addr (n ∷ ns) = elim (get_near_node socksd (n ∷ ns)) [
  | none ↦ some (n ∷ create_new_near_node raw number socksd addr ∷ ns)
  | some m ↦ if same_sockaddr m.addr addr then some (n ∷ ns) else none
]

-- The outer `none` is a copy past the array `data` of the node, the inner one the result -1.
unfoldable pub update_near : ℕ → List ℕ → ℕ → List NearNode → Option (Option (List NearNode))
update_near socksd bytes data_len [] = some none
update_near socksd bytes data_len (n ∷ ns) =
    let rest = update_near socksd bytes data_len ns in
    if n.socksd == socksd
    then (memcpy data_len bytes n.bytes >>= λ d.
        some (some (record n { bytes = d; near_number = data_len / addr_str_len } ∷ ns)))
    else (rest >>= λ o. some (o >>= λ l. some (n ∷ l)))

-- `none` for the result -1
unfoldable pub delete_near : ℕ → List NearNode → Option (List NearNode)
delete_near socksd [] = none
delete_near socksd (n ∷ ns) =
    let rest = delete_near socksd ns in
    if n.socksd == socksd then some ns else (rest >>= λ l. some (n ∷ l))

-- superpeer.c

-- the addresses that the loop of `set_near` writes to a buffer, none if one is past its end
unfoldable pub write_addrs : List NearNode → List ℕ → Option (List ℕ)
write_addrs [] buffer = some buffer
write_addrs (n ∷ ns) buffer = do
  d ← memcpy addr_str_len (addr2str n.addr.s_addr n.addr.sin_port) buffer
  rest ← write_addrs ns (drop addr_str_len d)
  some (take addr_str_len d ++ rest)

-- `near_str` is an array of `6 * max_tcp_sock` bytes
unfoldable pub set_near : ℕ → List NearNode → Option (List ℕ)
set_near max_tcp_sock near_list = write_addrs near_list (replicate (max_tcp_sock * addr_str_len) 0)

-- the global variables of the connections
pub record Overlay : Type 0 where
  pub near_list : List NearNode
  pub near_str : List ℕ
  pub nsock : ℕ
  pub max_tcp_sock : ℕ

-- What `accept_conn` does with a connection that `accept` returned: the reply ACK or ERR, and
-- whether the result is 0. `port` is the port that the client then sends, `none` if the read or
-- the write fails. The reply ERR is sent and the connection closed without an error. `fd_add` stands
-- in `Select`.
pub data Reply : Type 0 where
  ack err : Reply

pub record Accepted : Type 0 where
  pub state : Overlay
  pub reply : Reply
  pub ok : Bool

-- the outer `none` is a write past `near_str`
unfoldable pub accept_conn : List ℕ → ℕ → ℕ → SockaddrIn → Option ℕ → Overlay → Option Accepted
accept_conn raw number sock_tmp addr port o =
    if leb o.max_tcp_sock o.nsock
    then some (record { state = o; reply = err; ok = true })
    else elim port [
      | none ↦ some (record { state = o; reply = ack; ok = false })
      | some p ↦ elim (insert_near raw number sock_tmp (record addr { sin_port = p }) o.near_list) [
        | none ↦ some (record { state = o; reply = ack; ok = false })
        | some list ↦ do
          str ← set_near o.max_tcp_sock list
          some (record {
            state = record o { near_list = list; near_str = str; nsock = o.nsock + 1 };
            reply = ack;
            ok = true;
          })
      ]
    ]

-- `close` succeeds; the inner `none` is the result -1. `nsock` goes down by one.
unfoldable pub close_conn : ℕ → Overlay → Option (Option Overlay)
close_conn sock o = elim (delete_near sock o.near_list) [
  | none ↦ some none
  | some list ↦ do
    str ← set_near o.max_tcp_sock list
    some (some (record o { near_list = list; near_str = str; nsock = o.nsock - 1 }))
]

-- the second test of `flood_overlay`: the sender has told that it is a neighbour of `n` too
unfoldable pub is_told : Option NearNode → NearNode → Bool
is_told none n = false
is_told (some near_info) n =
    contains_addr near_info.bytes (near_info.near_number * addr_str_len) n.addr

-- the sockets that it sends the packet to, in this order
flood_loop : Option NearNode → ℕ → List NearNode → List ℕ
flood_loop near_info socksd [] = []
flood_loop near_info socksd (n ∷ it) =
    let rest = flood_loop near_info socksd it in
    if n.socksd == socksd then rest else if is_told near_info n then rest else n.socksd ∷ rest

unfoldable pub flood_overlay : ℕ → List NearNode → List ℕ
unfolding flood_loop
flood_overlay socksd near_list = flood_loop (get_near_node socksd near_list) socksd near_list
