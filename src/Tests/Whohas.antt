-- ===== src/Tests/Whohas.antt =====
-- A superpeer with one file that is asked for.
use karmanet.Common.{
  ℕ, ◌+◌, ◌≤◌, ◌<◌, ◌≡◌, refl, true, false, Option, none, some, List, [], ◌∷◌, ◌++◌, arith, length,
  replicate, All,
}
use karmanet.Wire.{SockaddrIn, af_inet}
use karmanet.Packet.{Packet, max_packet_data_len, cmd_whohas, pckcpy, is_set_flag}
use karmanet.Common.Memory.{store_byte}
use karmanet.Requests.{insert_request, get_request_node}
use karmanet.Requests.Ageing.{Step, pass, insertion, later}
use karmanet.Overlay.{NearNode}
use karmanet.FileIndex.{AddrNode, Index, init_hashtable, get_by_name, find, same_text}
use karmanet.Whohas.{whohas_request_handler_name}
use karmanet.Whohas.Entries.{shown}
use karmanet.Whohas.Rounds.{hear}
use karmanet.Whohas.Names.{whohas_request_handler_name-Answers}
use karmanet.Whohas.Faults.{whohas_request_handler_name-none}
use karmanet.Whohas.Handler.{Handled, tmp_packet, answered, handle_new, whohas_request_handler}
use karmanet.Whohas.Forwarding.{ignored, whohas_request_handler-again, whohas_request_handler-ttl}

abbrev name : List ℕ
name = b'a' ∷ b'b' ∷ []

abbrev peer : AddrNode
peer = record { id = 0; ip = 16777226; port = 80; md5 = replicate 16 7 }

-- each chain holds a file with this name
abbrev shared : Index
shared = record init_hashtable {
  hash_file = λ key. record { id = 0; name = name; addr_list = peer ∷ [] } ∷ [];
}

whohas_request_handler_name-Answers_example :
    (answers : List (List ℕ)) × (whohas_request_handler_name 2 []
        (replicate 6 1 ++ (name ++ 0 ∷ []))
        8
        shared
      ≡ some answers)
    × (hear answers ≡ some (shown name peer ∷ []))
    × All (λ a. length a < max_packet_data_len) answers
unfolding get_by_name find same_text
whohas_request_handler_name-Answers_example =
    whohas_request_handler_name-Answers 2 [] (replicate 6 1) name [] shared refl
      (
        ((λ h. absurd (omega (arith, h))), (λ h. absurd (omega (arith, h)))),
        (((λ h. absurd (omega (arith, h))), (λ h. absurd (omega (arith, h)))), tt),
      )
      (omega arith) (record { ip = omega arith; port = omega arith; md5 = refl }, tt) (omega arith)

abbrev host : ℕ → SockaddrIn
host n = record { sin_family = af_inet; sin_port = 4000; s_addr = n }

abbrev query : Packet
query = record {
  cmd = cmd_whohas;
  flag = 0;
  index = 7;
  ttl = 3;
  data_len = 0;
  payload = replicate 1024 0;
}

abbrev near : NearNode
near = record { socksd = 5; addr = host 3; bytes = replicate 36 0; near_number = 0 }

abbrev left_of : Option Handled → Handled
left_of none = record { requests = []; forwarded = []; answers = [] }
left_of (some h) = h

abbrev first_time : Handled
first_time =
    left_of (whohas_request_handler 2 [] query (host 9) true 4 (host 1) query (near ∷ []) [] shared)

abbrev between : List Step
between = pass ∷ insertion 8 7 6 ∷ pass ∷ insertion 5 7 6 ∷ []

whohas_request_handler-again_example :
    whohas_request_handler 2 [] query
      (host 9)
      false
      6
      (host 1)
      query
      []
      (later between first_time.requests)
      shared
    ≡ ignored (later between first_time.requests)
unfolding whohas_request_handler handle_new tmp_packet answered insert_request get_request_node
    pckcpy store_byte is_set_flag
whohas_request_handler-again_example =
    whohas_request_handler-again 2 [] query (host 9) true false 4 6 between (host 1) query query
      (near ∷ []) [] [] shared shared first_time refl refl refl (omega arith)

whohas_request_handler-ttl_example :
    All {A = ℕ × Packet} (λ f. f.1.ttl + 1 ≡ 3) first_time.forwarded
    × (3 ≤ 1 → first_time.forwarded ≡ [])
unfolding whohas_request_handler handle_new tmp_packet answered insert_request get_request_node
    pckcpy store_byte is_set_flag
whohas_request_handler-ttl_example =
    whohas_request_handler-ttl 2 [] query (host 9) 4 (host 1) query (near ∷ []) [] shared first_time
      (omega arith) refl

whohas_request_handler_name-none_example :
    whohas_request_handler_name 9 (replicate 1024 0) (replicate 6 1 ++ (name ++ 0 ∷ [])) 1007 shared
    ≡ none
unfolding get_by_name find same_text
whohas_request_handler_name-none_example =
    whohas_request_handler_name-none 9 (replicate 1024 0) (replicate 6 1 ++ (name ++ 0 ∷ [])) 1007
      shared peer [] refl (omega arith) (omega arith)
