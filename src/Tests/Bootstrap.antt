-- ===== src/Tests/Bootstrap.antt =====
-- A bootstrap server with two superpeers.
use karmanet.Common.{
  ℕ, ◌≡◌, refl, inr, true, false, not, ◌&&◌, none, some, [], ◌∷◌, arith, length, replicate,
}
use karmanet.Wire.{SockaddrIn, af_inet, addrcmp}
use karmanet.Wire.Addresses.{addr_bytes}
use karmanet.Packet.{Packet, cmd_join, cmd_ping}
use karmanet.SpList.{SpaddrNode, SpState, remove_sp, get_addr, check}
use karmanet.SpList.Cells.{knows}
use karmanet.SpList.Iterator.{IsValid, empty}
use karmanet.SpList.Invariant.{remove_sp-IsValid}
use karmanet.SpList.Expiry.{survivors, check-survivors, get_addr-check-check}
use karmanet.SpList.Walk.{next_addrs, at_node}
use karmanet.SpList.Rotation.{next_addrs-length}
use karmanet.Bootstrap.{set_str_addrlist, handle}
use karmanet.Bootstrap.Lists.{set_str_addrlist-client}
use karmanet.Bootstrap.Replies.{Answers}
use karmanet.Bootstrap.Service.{handle-some, started, moved, passed, Reachable-IsValid}

abbrev host : ℕ → SockaddrIn
host n = record { sin_family = af_inet; sin_port = 4000; s_addr = n }

abbrev sp : ℕ → SpaddrNode
sp n = record { sp_addr = host n; free_spots = n; flag = 1 }

abbrev two : SpState
two = record { sp_list = (10, sp 1) ∷ (20, sp 2) ∷ []; it_addr = 20; sp_count = 2 }

two-IsValid : IsValid two
two-IsValid = record {
  distinct = (omega arith, refl, refl, (omega arith, refl, refl, tt));
  count = refl;
  iterator = inr refl;
}

abbrev scratch : Packet
scratch = record {
  cmd = cmd_ping;
  flag = 0;
  index = 0;
  ttl = 1;
  data_len = 0;
  payload = replicate 1024 0;
}

length-scratch : length scratch.payload ≡ 1024
length-scratch = refl

abbrev join : Packet
join = record scratch { cmd = cmd_join }

handle-some_example : Answers (handle true scratch (host 3) join 30 two)
handle-some_example =
    handle-some true scratch (host 3) join length-scratch 30 two two-IsValid (omega arith) refl

Reachable-IsValid_example : IsValid (check empty)
Reachable-IsValid_example =
    Reachable-IsValid (check empty) (moved empty (check empty) started (passed empty))

remove_sp-IsValid_example :
    IsValid (remove_sp (host 2) two)
    × ((b : SockaddrIn)
        → knows b (remove_sp (host 2) two).sp_list
          ≡ (not (addrcmp (host 2) b) && knows b two.sp_list))
remove_sp-IsValid_example = remove_sp-IsValid (host 2) two two-IsValid

check-survivors_example : IsValid (check two) × ((check two).sp_list ≡ survivors two.sp_list)
check-survivors_example = check-survivors two two-IsValid

get_addr-check-check_example :
    ((check (check two)).sp_list ≡ []) × (get_addr (check (check two)) ≡ none)
get_addr-check-check_example = get_addr-check-check two two-IsValid

next_addrs-length_example : next_addrs 2 two ≡ some (host 2 ∷ host 1 ∷ [], two)
next_addrs-length_example = next_addrs-length two ((10, sp 1) ∷ []) [] (sp 2) two-IsValid refl

set_str_addrlist-client_example :
    set_str_addrlist false two ≡ some (some (addr_bytes (host 2 ∷ host 1 ∷ []), 2), at_node two 10)
set_str_addrlist-client_example =
    set_str_addrlist-client two ((10, sp 1) ∷ []) [] (sp 2) two-IsValid refl
