-- ===== src/Overlay/Join.antt =====
-- `join_overlay` of src/client/superpeer.c: a new superpeer connects to others. What the system
-- calls do with each address is a parameter; `close` does not fail. `fd_add` stands in `Select`, and
-- the own address is not kept.
use karmanet.Common.{
  ℕ, ◌+◌, ◌-◌, ◌*◌, ◌/◌, Bool, true, false, not, Option, none, some, List, [], ◌∷◌, ◌++◌, ltb, ◌==◌,
  if◌then◌else◌, length, take, drop,
}
use karmanet.Common.Memory.{◌>>=◌, memcpy}
use karmanet.Wire.{SockaddrIn, addr2str, addr_str_len}
use karmanet.Overlay.{Overlay, get_near_by_addr, insert_near}
use karmanet.Overlay.Neighbours.{zeros}

-- What happens with an address: no socket if one is asked for, no connection, no packet, a connection that is closed or
-- refused by the other side, or an ACK on the socket `sock`, after which the port is sent or not.
pub data Attempt : Type 0 where
  no_socket unreachable no_packet closed rejected : Attempt
  acknowledged : (sock : ℕ) (sent : Bool) → Attempt

-- the results -1, 1 and 0
pub data Result : Type 0 where
  failed partial complete : Result

pub record Joined : Type 0 where
  pub state : Overlay
  pub result : Result

-- after one address: -1, or the next one, with a new socket or the old one
pub data Move : Type 0 where
  stops : Move
  goes_on : (ok : Bool) (state : Overlay) → Move

-- `addr2str(near_str + nsock * 6, ...)`
abbrev pub write_addr : SockaddrIn → ℕ → List ℕ → Option (List ℕ)
write_addr addr nsock str =
    memcpy addr_str_len (addr2str addr.s_addr addr.sin_port) (drop (nsock * addr_str_len) str)
    >>= λ d. some (take (nsock * addr_str_len) str ++ d)

-- the buffer is enlarged for a long list
unfoldable pub enlarge : ℕ → Overlay → Overlay
enlarge list_len o =
    if ltb (o.max_tcp_sock / 2) list_len
    then record o {
      near_str = o.near_str ++ zeros ((list_len * 2 - o.max_tcp_sock) * addr_str_len);
      max_tcp_sock = list_len * 2;
    }
    else o

module _ (raw : List ℕ) (number : ℕ) where
  -- after an ACK: `none` for the result -1, the inner one
  unfoldable pub connected : SockaddrIn → ℕ → Overlay → Option (Option Overlay)
  connected addr sock o = elim (insert_near raw number sock addr o.near_list) [
    | none ↦ some none
    | some list ↦ do
      str ← write_addr addr o.nsock o.near_str
      some (some (record o { near_list = list; near_str = str; nsock = o.nsock + 1 }))
  ]

  -- one address; `ok` says whether a new socket is asked for
  unfoldable pub try_addr : Bool → SockaddrIn → Attempt → Overlay → Option Move
  try_addr ok addr no_socket o = some (if ok then stops else goes_on false o)
  try_addr ok addr unreachable o = some (goes_on false o)
  try_addr ok addr no_packet o = some stops
  try_addr ok addr closed o = some (goes_on true o)
  try_addr ok addr rejected o = some (goes_on true o)
  try_addr ok addr (acknowledged sock sent) o =
      if not sent
      then some stops
      else (connected addr sock o >>= λ r. elim r [
        | none ↦ some stops
        | some u ↦ some (goes_on true u)
      ])

  unfoldable pub join_loop : ℕ → Bool → List (SockaddrIn × Attempt) → Overlay → Option Joined
  join_loop list_len ok [] o =
      some (record { state = o; result = if not (o.nsock == list_len) then partial else complete })
  join_loop list_len ok ((addr, attempt) ∷ it) o = elim (get_near_by_addr addr o.near_list) [
    | some n ↦ join_loop list_len ok it o
    | none ↦ try_addr ok addr attempt o >>= λ m. elim m [
      | stops ↦ some (record { state = o; result = failed })
      | goes_on more u ↦ join_loop list_len more it u
    ]
  ]

  unfoldable pub join_overlay : List (SockaddrIn × Attempt) → Overlay → Option Joined
  unfolding join_loop
  join_overlay sp_addr_list o =
      join_loop (length sp_addr_list) true sp_addr_list (enlarge (length sp_addr_list) o)
