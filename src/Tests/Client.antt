-- ===== src/Tests/Client.antt =====
-- A client that joins, and its superpeers.
use karmanet.Common.{ℕ, ◌≡◌, refl, inl, true, some, [], ◌∷◌, replicate}
use karmanet.Wire.{SockaddrIn, af_inet}
use karmanet.Overlay.Join.{rejected}
use karmanet.Retx.{retx_send, insert_packet, new_packet_node}
use karmanet.Client.Joining.{back_to_bs}
use karmanet.Packet.{new_packet, new_join_packet, pckcpy, Packet, cmd_ping, cmd_join, cmd_promote}
use karmanet.Client.{
  join_bs, request, send_retx, Env, Client, Outcome, done, joinsp_sent, joinbs_sent, with_core,
}
use karmanet.Client.Commands.{udp_handler}
use karmanet.Client.Loop.{initial, start, turn, error, started}
use karmanet.Client.Keeping.{IsEnv}
use karmanet.Client.Invariant.{IsSound, Sound}
use karmanet.Client.Invariant.Dispatch.{Excuse, udp_handler-IsSound}
use karmanet.Client.Invariant.Reachable.{Reaches-IsSound}
use karmanet.Client.Progress.{recipients, unanswered, unanswered-Unanswered}

abbrev host : ℕ → SockaddrIn
host n = record { sin_family = af_inet; sin_port = 4000; s_addr = n }

abbrev scratch : Packet
scratch = record {
  cmd = cmd_ping;
  flag = 0;
  index = 0;
  ttl = 1;
  data_len = 0;
  payload = replicate 1024 0;
}

-- everything succeeds
abbrev fine : Env
fine = record {
  udp_sock = 3;
  bs_addr = host 1;
  scratch = scratch;
  raw = scratch;
  delivers = λ a. true;
  peer_rate = 100;
  tcp_port = 5000;
  udp_port = 5001;
  pinger_stops = true;
  checker_stops = true;
  checker_joins = true;
  pinger_joins = true;
  checker_runs = true;
  pinger_runs = true;
  listens = true;
  attempts = λ a. rejected;
  near_bytes = [];
  near_count = 0;
  init_transfer = true;
  create_diff = true;
  send_share = true;
  add_sp_file = true;
  own_fits = true;
  removes = λ ip port. true;
}

fine-IsEnv : IsEnv fine
fine-IsEnv = record { scratch_size = refl; raw_size = refl }

-- no files
abbrev files : SockaddrIn → Packet → Client → Outcome
files addr pck c = done c

abbrev joining : Client
joining = with_core (initial 0) (record (initial 0).core {
  state = joinsp_sent;
  addr_list = some (host 2 ∷ host 3 ∷ []);
  addr_list_len = 2;
})

abbrev left_of : Outcome → Client
left_of (done c) = c
left_of o = initial 0

abbrev asked : Client
asked = left_of (start fine files 0)

-- the bootstrap server did not answer, and is asked again
abbrev asked_again : Client
asked_again = left_of (turn fine files (error cmd_join) asked)

asked-IsSound : IsSound asked.core
unfolding start back_to_bs join_bs request new_join_packet new_packet send_retx retx_send
    insert_packet new_packet_node pckcpy
asked-IsSound =
    Reaches-IsSound fine files fine-IsEnv (λ a p d. refl) asked (started 0 asked (inl refl))

-- the bootstrap server promotes the client
udp_handler-IsSound_example :
    Sound
      (Excuse fine files (host 1) (record scratch { cmd = cmd_promote }) asked)
      (udp_handler fine files (host 1) (record scratch { cmd = cmd_promote }) asked)
unfolding start back_to_bs join_bs request new_join_packet new_packet send_retx retx_send
    insert_packet new_packet_node pckcpy
udp_handler-IsSound_example =
    udp_handler-IsSound fine files (host 1) (record scratch { cmd = cmd_promote }) asked fine-IsEnv
      (λ a p d. refl) (λ h k. refl) asked-IsSound

unanswered-Unanswered_example :
    (d : Client) × (unanswered fine 2 joining ≡ done d)
    × (d.core.state ≡ joinbs_sent)
    × (recipients d ≡ host 1 ∷ host 3 ∷ [])
unanswered-Unanswered_example =
    unanswered-Unanswered fine (host 2) (host 3 ∷ []) joining fine-IsEnv (λ b. refl) refl refl refl
      refl
