-- ===== src/Superpeer/Promotion.antt =====
-- The peer that is promoted.
use karmanet.Common.{
  ℕ, ◌+◌, ◌%◌, ◌^◌, ◌≡◌, refl, sym, Bool, true, some, List, [], ◌∷◌, arith, if◌then◌else◌,
}
use mathlib.Core.Path.{subst}
use karmanet.Common.Positions.{is_empty}
use karmanet.Wire.{SockaddrIn}
use karmanet.Packet.{Packet, cmd_promote, get_index, new_packet, new_promote_packet, pckcpy}
use karmanet.PeerList.{PeerNode, PeerState, get_addr_head, sorted_insert_peer}
use karmanet.PeerList.Order.{sorted_insert_peer-IsValid}
use karmanet.PeerList.Places.{AllBelow, IsSorted, IsValid}
use karmanet.Retx.{PacketNode, PacketState, retx_send, insert_packet, new_packet_node}
use karmanet.Superpeer.{Promoted, promote_peer}

-- the packet that `promote_peer` leaves in the list of those that wait
abbrev pub promotion : Packet → ℕ → SockaddrIn → ℕ → PacketNode
promotion raw udp_sock addr index = record {
  socksd = udp_sock;
  pck = record raw { cmd = cmd_promote; flag = 0; index = index; ttl = 1; data_len = 0 };
  addrto = addr;
  nretx = 1;
  countdown = some 1;
  errors = 0;
}

head-cons :
    (s : PeerState) (n : PeerNode) (ns : List PeerNode)
    → s.peer_list_head ≡ n ∷ ns
    → get_addr_head s ≡ some n.peer_addr
unfolding get_addr_head
head-cons s n ns e = rw (e, get_addr_head) refl

-- the list that the joins `js` of peers make, the last of them first: an address, a rate and a port
abbrev pub joins : List (SockaddrIn × ℕ × ℕ) → PeerState
joins [] = record { peer_list_head = []; curr_p_count = 0 }
joins ((a, rate, port) ∷ js) = sorted_insert_peer a rate port (joins js)

joins-IsValid : (js : List (SockaddrIn × ℕ × ℕ)) → IsValid (joins js)
joins-IsValid [] = record { sorted = tt; count = refl }
joins-IsValid ((a, rate, port) ∷ js) =
    sorted_insert_peer-IsValid a rate port (joins js) (joins-IsValid js)

-- Whatever peers have joined by `sorted_insert_peer`, in any order, and as long as no ping has changed
-- a rate: if the packet can be sent, `promote_peer` promotes the peer at the head of the list, and no
-- peer of the list has a greater rate. A PRM packet to its address waits for an answer, in front of the
-- others, and the index counter goes on by one.
pub promote_peer-AllBelow :
    (scratch raw : Packet) (sent : SockaddrIn → Bool) (udp_sock start_index : ℕ)
    (js : List (SockaddrIn × ℕ × ℕ)) (packets : PacketState) (n : PeerNode) (ns : List PeerNode)
    → (joins js).peer_list_head ≡ n ∷ ns
    → sent n.peer_addr ≡ true
    → (p : Promoted) × (promote_peer scratch raw sent udp_sock start_index (joins js) packets
        ≡ some p)
      × (p.ok ≡ true)
      × (p.start_index ≡ (start_index + 1) % 2 ^ 16)
      × (p.packets.packet_list_head
          ≡ promotion raw udp_sock n.peer_addr start_index ∷ packets.packet_list_head)
      × AllBelow n.peer_rate (joins js).peer_list_head
unfolding promote_peer new_promote_packet new_packet retx_send insert_packet new_packet_node pckcpy
    get_index
promote_peer-AllBelow scratch raw sent udp_sock start_index js packets n ns e ok =
    let peers = joins js in
    let sorted : IsSorted (n ∷ ns) = subst IsSorted e (joins-IsValid js).sorted in
    let below : AllBelow n.peer_rate (n ∷ ns) = (omega arith, sorted.0) in
    let p : Promoted = record {
      packets = record {
        packet_list_head =
            promotion raw udp_sock n.peer_addr start_index ∷ packets.packet_list_head;
        packet_count = (if is_empty packets.packet_list_head then 0 else packets.packet_count) + 1;
      };
      start_index = (start_index + 1) % 2 ^ 16;
      ok = true;
    } in
    (
      p,
      rw (head-cons peers n ns e, ok) refl,
      refl,
      refl,
      refl,
      subst (AllBelow n.peer_rate) (sym e) below,
    )
