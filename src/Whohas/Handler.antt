-- ===== src/Whohas/Handler.antt =====
-- `whohas_request_handler` of src/client/client.c: a superpeer passes a request on to its neighbours
-- and answers it, once.
use karmanet.Common.{
  ℕ, ◌+◌, ◌-◌, ◌%◌, ◌^◌, Bool, true, false, not, ◌&&◌, Option, some, List, [], ◌++◌, map, ltb, ◌==◌,
  if◌then◌else◌, drop,
}
use karmanet.Common.Memory.{◌>>=◌, memcpy, store_byte}
use karmanet.Wire.{SockaddrIn, addr_str_len, addr2str, addrcmp}
use karmanet.Packet.{Packet, pckcpy, is_set_flag, mask, whohas_name, whohas_md5}
use karmanet.Requests.{Requests, insert_request}
use karmanet.Overlay.{NearNode, flood_overlay}
use karmanet.FileIndex.{Index}
use karmanet.Whohas.{whohas_request_handler_name, whohas_request_handler_md5}

-- the list of requests, the sockets to which a packet went, and the answers to the sender
pub record Handled : Type 0 where
  pub requests : Requests
  pub forwarded : List (ℕ × Packet)
  pub answers : List (List ℕ)

-- `(short)`, greater than 0
abbrev pub is_positive : ℕ → Bool
is_positive ttl = ltb 0 ttl && ltb ttl (2 ^ 15)

abbrev pub has_flag : Packet → ℕ → Bool
has_flag pck flag = not (is_set_flag pck flag == 0)

-- The packet that is passed on: from a peer it gets the address of the peer in front of its data, and
-- from a neighbour it is one hop older. `raw` is what the variable held.
abbrev pub with_sender : SockaddrIn → Packet → Packet → Option Packet
with_sender addr pck tmp = memcpy pck.data_len pck.payload (drop addr_str_len tmp.payload) >>= λ d.
    some (record tmp {
      payload = addr2str addr.s_addr addr.sin_port ++ d;
      data_len = pck.data_len + addr_str_len;
    })

abbrev pub on_overlay : Bool → SockaddrIn → Packet → Packet → Option Packet
on_overlay false addr pck tmp = with_sender addr pck tmp
on_overlay true addr pck tmp = some (record tmp { ttl = (tmp.ttl + (2 ^ 16 - 1)) % 2 ^ 16 })

unfoldable pub tmp_packet : Packet → Bool → SockaddrIn → Packet → Option Packet
tmp_packet raw overlay addr pck = pckcpy raw pck >>= λ tmp. on_overlay overlay addr pck tmp >>= λ q.
    store_byte q.payload q.data_len 0 >>= λ d. some (record q { payload = d })

-- the packets that `flood_overlay` sends
abbrev pub flooded : ℕ → List NearNode → Packet → List (ℕ × Packet)
flooded socksd near_list pck =
    if is_positive pck.ttl then map (λ s. (s, pck)) (flood_overlay socksd near_list) else []

module _ (fuel : ℕ) (scratch : List ℕ) (raw : Packet) (myaddr : SockaddrIn) where
  -- the answers to the packet, to another client than this one
  unfoldable pub answered : SockaddrIn → Packet → Index → Option (List (List ℕ))
  answered addr pck ix =
      if addrcmp myaddr addr
      then some []
      else if has_flag pck (mask whohas_name)
      then whohas_request_handler_name fuel scratch pck.payload pck.data_len ix
      else if has_flag pck (mask whohas_md5)
      then whohas_request_handler_md5 fuel pck.payload pck.data_len ix
      else some []

  -- the rest of the handler, after `insert_request`
  unfoldable pub handle_new :
      Bool → ℕ → SockaddrIn → Packet → List NearNode → Requests → Index → Option Handled
  unfolding tmp_packet answered
  handle_new overlay socksd addr pck near_list requests ix =
      tmp_packet raw overlay addr pck >>= λ tmp. answered addr tmp ix >>= λ answers.
      some (record {
        requests = requests;
        forwarded = flooded socksd near_list tmp;
        answers = answers;
      })

  unfoldable pub whohas_request_handler :
      Bool → ℕ → SockaddrIn → Packet → List NearNode → Requests → Index → Option Handled
  unfolding handle_new
  whohas_request_handler overlay socksd addr pck near_list requests ix =
      let r = insert_request pck.index addr.s_addr addr.sin_port requests in
      if r.0 == 1
      then some (record { requests = r.1; forwarded = []; answers = [] })
      else handle_new overlay socksd addr pck near_list r.1 ix
