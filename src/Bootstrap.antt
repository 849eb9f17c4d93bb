-- ===== src/Bootstrap.antt =====
-- The bootstrap server: include/bootstrap.h and src/bootstrap/bootstrap.c. A handler returns the
-- new list state, the packet that it gives to `sendto`, if any, and whether its result is 0;
-- `none` is undefined behaviour. `delivered` says whether that `sendto` succeeds, `fresh` is what
-- `malloc` returns, and `scratch` is the uninitialised packet of the handler. Each handler runs its
-- critical sections with no other thread in between. Locking itself does not fail.
pub mod Lists
pub mod Replies
pub mod Service
use karmanet.Common.{
  ℕ, zero, suc, ◌*◌, Bool, true, false, not, ◌&&◌, Option, none, some, List, [], ◌∷◌, ◌++◌, ltb,
  ◌==◌, if◌then◌else◌, length,
}
use karmanet.Common.Memory.{◌>>=◌, memcpy}
use karmanet.DList.{Ptr, null}
use karmanet.Wire.{SockaddrIn, addrcmp, addr2str, addr_str_len, same_bytes}
use karmanet.Packet.{
  Packet, mask, superpeer, is_set_flag, new_packet, new_ack_packet, new_promote_packet, byte_at,
  cmd_list, cmd_ping, cmd_join, cmd_leave, cmd_register,
}
use karmanet.SpList.{
  SpaddrNode, Entries, SpState, head, insert_sp, remove_sp, get_addr, get_addr_sp, update_sp_flag,
  check,
}

-- ADDR_TOSEND, the value that `main` gives to `addr_to_send`
abbrev pub addr_tosend : ℕ
addr_tosend = 2

pub record Outcome : Type 0 where
  pub state : SpState
  pub reply : Option Packet
  pub ok : Bool

abbrev pub failed : SpState → Outcome
failed s = record { state = s; reply = none; ok = false }

-- the loop of `set_str_addrlist` over `i < ret`
addr_loop : ℕ → SockaddrIn → SpState → Option (List ℕ × SpState)
addr_loop zero saddr s = some ([], s)
addr_loop (suc i) saddr s = do
  (next, t) ← get_addr s
  (rest, u) ← addr_loop i next t
  some (addr2str saddr.s_addr saddr.sin_port ++ rest, u)

-- the loop over the list that `get_addr_sp` built
node_bytes : List SpaddrNode → List ℕ
node_bytes [] = []
node_bytes (n ∷ it) = addr2str n.sp_addr.s_addr n.sp_addr.sin_port ++ node_bytes it

-- The addresses in the array of `send_addr_list`, which has ADDR_STR_LEN * ADDR_TOSEND bytes and is
-- not read behind them; `none` for a write past its end.
unfoldable pub in_array : List ℕ → Option (List ℕ)
in_array str = if ltb (addr_str_len * addr_tosend) (length str) then none else some str

-- The string and the number of its addresses, or `none` for the result -1, and the new state.
unfoldable pub set_str_addrlist : Bool → SpState → Option (Option (List ℕ × ℕ) × SpState)
unfolding addr_loop node_bytes in_array
set_str_addrlist false s = do
  let ret = if ltb s.sp_count addr_tosend then s.sp_count else addr_tosend
  (saddr, t) ← get_addr s
  (bytes, u) ← addr_loop ret saddr t
  str ← in_array bytes
  some (some (str, ret), record u { it_addr = t.it_addr })
set_str_addrlist true s =
    let (nodes, dim) = get_addr_sp addr_tosend s in
    elim nodes [
      | [] ↦ some (none, s)
      | n ∷ ns ↦ in_array (node_bytes (n ∷ ns)) >>= λ str. some (some (str, dim), s)
    ]

module _ (delivered : Bool) (scratch : Packet) (addr : SockaddrIn) (pck : Packet) where
  -- what is sent to a client that becomes a superpeer
  pub send_promote : SpState → Option Outcome
  send_promote s = do
    promote ← new_promote_packet scratch pck.index
    d ← memcpy addr_str_len (addr2str addr.s_addr addr.sin_port) promote.payload
    some (record {
      state = s;
      reply = some (record promote { payload = d; data_len = addr_str_len });
      ok = delivered;
    })

  pub send_ack : SpState → Option Outcome
  send_ack s = do
    ack ← new_ack_packet scratch pck.index
    some (record { state = s; reply = some ack; ok = delivered })

  unfoldable pub sp_register : Ptr → SpState → Option Outcome
  unfolding send_ack
  sp_register fresh s =
      if not (pck.data_len == 1)
      then some (failed s)
      else send_ack (insert_sp fresh addr (byte_at pck.payload) s)

  unfoldable pub sp_leave : SpState → Option Outcome
  unfolding send_ack
  sp_leave s = send_ack (remove_sp addr s)

  unfoldable pub send_addr_list : SpState → Option Outcome
  send_addr_list s = do
    (listed, t) ← set_str_addrlist (not (is_set_flag pck (mask superpeer) == 0)) s
    elim listed [
      | none ↦ some (failed t)
      | some (str, dim) ↦ do
        p ← new_packet scratch cmd_list pck.index (some str) (dim * addr_str_len) 1
        some (record { state = t; reply = some p; ok = delivered })
    ]

  -- the client is the only superpeer of the list
  abbrev pub is_only_sp : SpState → Bool
  is_only_sp s =
      (s.sp_count == 1) && elim s.sp_list [ [] ↦ false | e ∷ rest ↦ addrcmp e.1.sp_addr addr ]

  unfoldable pub sp_join : Ptr → SpState → Option Outcome
  unfolding send_promote
  sp_join fresh s =
      if head s.sp_list == null
      then send_promote (insert_sp fresh addr (addr_tosend * 2) s)
      else if is_only_sp s
      then send_promote s
      else send_addr_list s

  -- `main` on one datagram; a command that it does not know is dropped
  unfoldable pub handle : Ptr → SpState → Option Outcome
  handle fresh s =
      if same_bytes 3 pck.cmd cmd_ping
      then some (elim (update_sp_flag addr (byte_at pck.payload) s) [
        | none ↦ failed s
        | some t ↦ record { state = t; reply = none; ok = true }
      ])
      else if same_bytes 3 pck.cmd cmd_join
      then sp_join fresh s
      else if same_bytes 3 pck.cmd cmd_leave
      then sp_leave s
      else if same_bytes 3 pck.cmd cmd_register
      then sp_register fresh s
      else some (record { state = s; reply = none; ok = true })
