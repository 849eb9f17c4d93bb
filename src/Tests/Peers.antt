-- ===== src/Tests/Peers.antt =====
-- A superpeer with two peers, its requests, its descriptors, its packets and its downloads.
use karmanet.Common.{ℕ, ◌≡◌, refl, true, false, none, some, List, [], ◌∷◌, arith, replicate}
use karmanet.Wire.{SockaddrIn, af_inet, btol, le_value}
use karmanet.Packet.{Packet, cmd_ping}
use karmanet.PeerList.{
  search_place, new_peer_node, get_node_peer, PeerNode, PeerState, sorted_insert_peer,
  get_addr_head, update_peer_flag, check,
}
use karmanet.PeerList.Places.{AllBelow, IsSorted, IsValid}
use karmanet.PeerList.Order.{sorted_insert_peer-IsValid, update_peer_flag-IsSorted}
use karmanet.PeerList.Checks.{check-silent}
use karmanet.Requests.{Requests, insert_request}
use karmanet.Requests.Ageing.{seen, passes, seen-passes-insert_request}
use karmanet.Select.{fd_init, fd_add}
use karmanet.Select.Bookkeeping.{Call, add, remove, run, fd_add-run}
use karmanet.Retx.{PacketState}
use karmanet.Superpeer.{Promoted, promote_peer}
use karmanet.Superpeer.Promotion.{joins, promotion, promote_peer-AllBelow}
use karmanet.Transfers.{TransferNode, Downloads, get_download}
use karmanet.Transfers.Queue.{get_download-none}

abbrev host : ℕ → SockaddrIn
host n = record { sin_family = af_inet; sin_port = 4000; s_addr = n }

abbrev peer : ℕ → ℕ → ℕ → PeerNode
peer n rate flag = record { peer_addr = host n; peer_rate = rate; dw_port = 5000; flag = flag }

abbrev two_peers : PeerState
two_peers = record { peer_list_head = peer 1 50 1 ∷ peer 2 30 0 ∷ []; curr_p_count = 2 }

two_peers-IsValid : IsValid two_peers
two_peers-IsValid = record { sorted = ((omega arith, tt), (tt, tt)); count = refl }

sorted_insert_peer-IsValid_example : IsValid (sorted_insert_peer (host 3) 40 5001 two_peers)
sorted_insert_peer-IsValid_example =
    sorted_insert_peer-IsValid (host 3) 40 5001 two_peers two_peers-IsValid

abbrev faster : Packet
faster = record {
  cmd = cmd_ping;
  flag = 0;
  index = 0;
  ttl = 1;
  data_len = 4;
  payload = 200 ∷ 0 ∷ 0 ∷ 0 ∷ [];
}

update_peer_flag-IsSorted_example :
    (¬ IsSorted (update_peer_flag (host 2) faster two_peers).peer_list_head)
    × (get_addr_head (update_peer_flag (host 2) faster two_peers) ≡ some (host 1))
update_peer_flag-IsSorted_example =
    update_peer_flag-IsSorted (host 2) faster two_peers (peer 1 50 1) (peer 2 30 0 ∷ []) 0 refl refl
      (unfold get_node_peer in refl) (unfold btol le_value in omega arith)

check-silent_example :
    check two_peers
    ≡ (record { peer_list_head = peer 1 50 0 ∷ []; curr_p_count = 1 }, (2, 5000) ∷ [])
check-silent_example = check-silent (peer 1 50 1 ∷ peer 2 30 0 ∷ [])

abbrev promote_raw : Packet
promote_raw = record {
  cmd = 0 ∷ 0 ∷ 0 ∷ [];
  flag = 0;
  index = 0;
  ttl = 0;
  data_len = 0;
  payload = replicate 4 0;
}

abbrev no_packets : PacketState
no_packets = record { packet_list_head = []; packet_count = 0 }

abbrev three_joins : List (SockaddrIn × ℕ × ℕ)
three_joins = (host 3, 40, 5000) ∷ (host 1, 50, 5000) ∷ (host 2, 30, 5000) ∷ []

abbrev fastest : PeerNode
fastest = record { peer_addr = host 1; peer_rate = 50; dw_port = 5000; flag = 1 }

abbrev others : List PeerNode
others =
    record { peer_addr = host 3; peer_rate = 40; dw_port = 5000; flag = 1 }
    ∷ record { peer_addr = host 2; peer_rate = 30; dw_port = 5000; flag = 1 }
    ∷ []

promote_peer-AllBelow_example :
    (p : Promoted) × (promote_peer faster promote_raw
        (λ a. true)
        3
        65535
        (joins three_joins)
        no_packets
      ≡ some p)
    × (p.ok ≡ true)
    × (p.start_index ≡ 0)
    × (p.packets.packet_list_head ≡ promotion promote_raw 3 (host 1) 65535 ∷ [])
    × AllBelow 50 (joins three_joins).peer_list_head
unfolding sorted_insert_peer search_place new_peer_node
promote_peer-AllBelow_example =
    promote_peer-AllBelow faster promote_raw (λ a. true) 3 65535 three_joins no_packets fastest
      others refl refl

abbrev one_request : Requests
one_request = record { id = 7; ip_sender = 1; port = 4000; ttl = 2 } ∷ []

seen-passes-insert_request_example :
    seen 8 1 4000 (passes 4 (insert_request 8 1 4000 one_request).1) ≡ false
seen-passes-insert_request_example = seen-passes-insert_request 8 1 4000 4 one_request refl

abbrev nine_times : List Call
nine_times =
    add 3
    ∷ remove 3
    ∷ add 3
    ∷ remove 3
    ∷ add 3
    ∷ remove 3
    ∷ add 3
    ∷ remove 3
    ∷ add 3
    ∷ remove 3
    ∷ add 3
    ∷ remove 3
    ∷ add 3
    ∷ remove 3
    ∷ add 3
    ∷ remove 3
    ∷ add 3
    ∷ remove 3
    ∷ []

fd_add-run_example : fd_add 4 (run nine_times fd_init) ≡ none
fd_add-run_example = fd_add-run nine_times 4 (omega arith)

abbrev download : TransferNode
download = record { addrto = host 1; md5 = replicate 16 1 }

abbrev two_downloads : Downloads
two_downloads = record { download_list_head = download ∷ download ∷ []; download_count = 2 }

get_download-none_example : get_download 100 two_downloads ≡ none
get_download-none_example = get_download-none 100 two_downloads download download [] refl
