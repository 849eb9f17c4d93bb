-- ===== src/Tests/Neighbours.antt =====
-- A superpeer with two neighbours, and a packet that waits for its answer.
use karmanet.Common.{
  ℕ, ◌≤◌, ◌<◌, ◌≡◌, refl, ◌⊎◌, true, false, none, some, List, [], ◌∷◌, ◌++◌, arith, leb, replicate,
}
use karmanet.Wire.{SockaddrIn, af_inet}
use karmanet.Wire.Addresses.{IsAddr, addr_bytes}
use karmanet.Packet.{Packet, cmd_join}
use karmanet.Overlay.{
  NearNode, Overlay, Accepted, err, near_data_len, get_near_node, update_near, accept_conn,
  close_conn, flood_overlay,
}
use karmanet.Overlay.Neighbours.{mirror}
use karmanet.Overlay.Nodes.{IsValid}
use karmanet.Overlay.Connections.{accept_conn-IsValid, close_conn-IsValid, told, update_near-told}
use karmanet.Overlay.Join.{
  Attempt, unreachable, rejected, acknowledged, Joined, enlarge, join_overlay,
}
use karmanet.Overlay.Joining.{IsJoined}
use karmanet.Overlay.Rounds.{Ends, join_overlay-Ends}
use karmanet.Overlay.Flooding.{targets, flood_overlay-targets}
use karmanet.Retx.{PacketNode}
use karmanet.Retx.Rounds.{IsLive, AllStopped}
use karmanet.Retx.Termination.{passes, AllStopped-passes}

abbrev host : ℕ → SockaddrIn
host n = record { sin_family = af_inet; sin_port = 4000; s_addr = n }

host-IsAddr : (n : ℕ) → n < 100 → IsAddr (host n)
host-IsAddr n h = record { s_addr = omega arith; sin_port = omega arith }

-- the neighbour on socket 5 has told that host 2 is its neighbour
abbrev first : NearNode
first = record {
  socksd = 5;
  addr = host 1;
  bytes = addr_bytes (host 2 ∷ []) ++ replicate 30 0;
  near_number = 1;
}

abbrev near : ℕ → ℕ → NearNode
near sock n = record { socksd = sock; addr = host n; bytes = replicate 36 0; near_number = 0 }

abbrev three : List NearNode
three = first ∷ near 6 2 ∷ near 7 3 ∷ []

flood_overlay-targets_example : flood_overlay 5 three ≡ targets 5 (host 2 ∷ []) three
flood_overlay-targets_example =
    flood_overlay-targets 5 three first (host 2 ∷ []) (replicate 30 0)
      (
        host-IsAddr 1 (omega arith),
        (host-IsAddr 2 (omega arith), (host-IsAddr 3 (omega arith), tt)),
      )
      (unfold get_near_node in refl) refl refl (host-IsAddr 2 (omega arith), tt)

abbrev overlay : Overlay
overlay = record { near_list = three; near_str = mirror 6 three; nsock = 3; max_tcp_sock = 6 }

overlay-IsValid : IsValid overlay
overlay-IsValid = record { count = refl; limit = omega arith; copy = refl }

accept_conn-IsValid_example :
    (a : Accepted) × (accept_conn (replicate 36 0) 0 8 (host 4) (some 4001) overlay ≡ some a)
    × IsValid a.state
    × (leb overlay.max_tcp_sock overlay.nsock ≡ true → a.reply ≡ err)
accept_conn-IsValid_example =
    accept_conn-IsValid (replicate 36 0) 0 8 (host 4) overlay overlay-IsValid
      (unfold get_near_node in refl) (some 4001)

close_conn-IsValid_example :
    (get_near_node 6 overlay.near_list ≡ none) × (close_conn 6 overlay ≡ some none)
    ⊎ ((xs ys : List NearNode) × (m : NearNode) × (get_near_node 6 overlay.near_list ≡ some m)
        × (get_near_node 6 xs ≡ none)
        × (overlay.near_list ≡ xs ++ m ∷ ys)
        × ((u : Overlay) × (close_conn 6 overlay ≡ some (some u))
            × IsValid u
            × (u.near_list ≡ xs ++ ys)))
close_conn-IsValid_example = close_conn-IsValid 6 overlay overlay-IsValid

update_near-told_example :
    (near_data_len < 42 → update_near 6 (replicate 60 1) 42 three ≡ none)
    × (42 ≤ near_data_len
        → (l : List NearNode) × (update_near 6 (replicate 60 1) 42 three ≡ some (some l))
          × (get_near_node 6 l ≡ some (told (replicate 60 1) 42 (near 6 2))))
update_near-told_example =
    update_near-told 6 (replicate 60 1) 42 three (near 6 2) (unfold get_near_node in refl) refl
      (omega arith)

abbrev alone : Overlay
alone = record { near_list = []; near_str = replicate 36 0; nsock = 0; max_tcp_sock = 6 }

alone-IsJoined : IsJoined [] alone
alone-IsJoined = record { count = refl; copy = refl }

abbrev four : List (SockaddrIn × Attempt)
four =
    (host 1, acknowledged 5 true)
    ∷ (host 2, unreachable)
    ∷ (host 3, rejected)
    ∷ (host 4, acknowledged 6 true)
    ∷ []

join_overlay-Ends_example :
    (j : Joined) × (join_overlay (replicate 36 0) 0 four alone ≡ some j)
    × Ends (replicate 36 0) 0 [] four [] (enlarge 4 alone).max_tcp_sock j
join_overlay-Ends_example = join_overlay-Ends (replicate 36 0) 0 four alone alone-IsJoined

abbrev pck : Packet
pck = record { cmd = cmd_join; flag = 0; index = 9; ttl = 1; data_len = 1; payload = 5 ∷ 0 ∷ [] }

abbrev waiting : PacketNode
waiting = record {
  socksd = 3;
  pck = pck;
  addrto = host 1;
  nretx = 1;
  countdown = some 1;
  errors = 0;
}

waiting-IsLive : IsLive waiting
waiting-IsLive = record { nretx = omega arith; errors = omega arith; countdown = omega arith }

AllStopped-passes_example : AllStopped (passes (replicate 91 (λ i. false)) (waiting ∷ []))
AllStopped-passes_example =
    AllStopped-passes (replicate 91 (λ i. false)) (waiting ∷ []) (waiting-IsLive, tt) (omega arith)
