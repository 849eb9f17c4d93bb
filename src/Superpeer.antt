-- ===== src/Superpeer.antt =====
-- What src/client/superpeer.c does for a peer that joins, and the promotion of a peer: join_peer and
-- promote_peer. Locking does not fail, and no other thread runs in between.
pub mod Promotion
use karmanet.Common.{ℕ, Bool, true, false, Option, none, some}
use karmanet.Common.Memory.{◌>>=◌}
use karmanet.Wire.{SockaddrIn}
use karmanet.Packet.{Packet, get_index, new_promote_packet}
use karmanet.PeerList.{PeerState, sorted_insert_peer, get_addr_head}
use karmanet.Retx.{PacketState, retx_send}

unfoldable pub join_peer : SockaddrIn → ℕ → ℕ → PeerState → PeerState
join_peer peer_addr peer_rate dw_port s = sorted_insert_peer peer_addr peer_rate dw_port s

-- The packets that wait, the index counter, and whether the result is 0.
pub record Promoted : Type 0 where
  pub packets : PacketState
  pub start_index : ℕ
  pub ok : Bool

-- `scratch` is the uninitialised packet, `raw` the one in the memory from `malloc`. `sent` says
-- whether the packet can be sent to an address; to NULL it cannot.
unfoldable pub promote_peer :
    Packet → Packet → (SockaddrIn → Bool) → ℕ → ℕ → PeerState → PacketState → Option Promoted
promote_peer scratch raw sent udp_sock start_index peers packets = do
  let index = get_index start_index
  tmp_packet ← new_promote_packet scratch index.0
  let failed : Promoted = record { packets = packets; start_index = index.1; ok = false }
  elim (get_addr_head peers) [
    | none ↦ some failed
    | some best_peer_addr ↦ do
      r ← retx_send (sent best_peer_addr) raw udp_sock best_peer_addr tmp_packet packets
      elim r [
        | none ↦ some failed
        | some u ↦ some (record { packets = u; start_index = index.1; ok = true })
      ]
  ]
