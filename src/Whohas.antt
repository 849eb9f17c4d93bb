-- ===== src/Whohas.antt =====
-- Requests for files and their answers: the functions of src/client/client.c whose names begin with
-- whohas. A request names a file or a digest. An answer has, behind the name or the digest, the
-- addresses that share the file; with a digest each address comes with a name. `out` is what the
-- array `buf` holds before `offset`; what stands behind is not sent. The packet that holds an answer
-- goes to `retx_send`, which is taken to succeed. What a peer prints is the result.
pub mod Entries
pub mod Rounds
pub mod Names
pub mod Faults
pub mod Handler
pub mod Forwarding
use karmanet.Common.{
  ℕ, zero, suc, ◌+◌, ◌-◌, Option, none, some, List, [], ◌∷◌, ◌++◌, ltb, ◌==◌, if◌then◌else◌, length,
  take, drop,
}
use karmanet.Common.Memory.{◌>>=◌, read_bytes}
use karmanet.Common.Positions.{is_empty}
use karmanet.Wire.{addr_str_len, addr2str, btol, btos}
use karmanet.Packet.{max_packet_data_len}
use karmanet.FileIndex.{AddrNode, Md5Info, Index, md5_digest_length, get_by_name, get_by_md5}

-- a string, up to its zero
abbrev pub text : List ℕ → List ℕ
text [] = []
text (b ∷ bs) = let rest = text bs in if b == 0 then [] else b ∷ rest

-- an address and a digest
abbrev pub entry : AddrNode → List ℕ
entry r = addr2str r.ip r.port ++ take md5_digest_length r.md5

abbrev pub entry_len : ℕ
entry_len = addr_str_len + md5_digest_length

-- The loop over the results, where `start` is the offset behind the name. It need not end, and so
-- runs on fuel.
unfoldable pub name_loop : ℕ → ℕ → List ℕ → List AddrNode → Option (List (List ℕ))
name_loop fuel start out [] = some []
name_loop zero start out (r ∷ rest) = none
name_loop (suc fuel) start out (r ∷ rest) =
    let next = name_loop fuel start (out ++ entry r) rest in
    let again = name_loop fuel start (take start out) (r ∷ rest) in
    if ltb (length out + entry_len) max_packet_data_len
    then if is_empty rest then some ((out ++ entry r) ∷ []) else next
    else (again >>= λ answers. some (out ∷ answers))

-- `strcpy` to `buf`, which held `scratch`, and a newline at the end of the request's data
abbrev pub name_start : List ℕ → List ℕ → ℕ → List ℕ
name_start scratch name n =
    take n (text name ++ 0 ∷ drop (suc (length (text name))) scratch) ++ b'\n' ∷ []

-- the answers to the request `pck_data` of `data_len` bytes
unfoldable pub whohas_request_handler_name :
    ℕ → List ℕ → List ℕ → ℕ → Index → Option (List (List ℕ))
unfolding name_loop
whohas_request_handler_name fuel scratch pck_data data_len ix =
    name_loop fuel (data_len - addr_str_len + 1)
      (name_start scratch (drop addr_str_len pck_data) (data_len - addr_str_len))
      (get_by_name (text (drop addr_str_len pck_data)) ix)

-- an address and a name
abbrev pub named_entry : Md5Info → List ℕ
named_entry r = addr2str r.info.ip r.info.port ++ (r.info.name ++ b'\n' ∷ [])

unfoldable pub md5_loop : ℕ → ℕ → List ℕ → List Md5Info → Option (List (List ℕ))
md5_loop fuel start out [] = some []
md5_loop zero start out (r ∷ rest) = none
md5_loop (suc fuel) start out (r ∷ rest) =
    let next = md5_loop fuel start (out ++ named_entry r) rest in
    let again = md5_loop fuel start (take start out) (r ∷ rest) in
    if ltb (length out + addr_str_len + length r.info.name) max_packet_data_len
    then if is_empty rest then some ((out ++ named_entry r) ∷ []) else next
    else (again >>= λ answers. some (out ∷ answers))

-- a further packet starts at the offset behind a name, one more than the length of a digest
unfoldable pub whohas_request_handler_md5 : ℕ → List ℕ → ℕ → Index → Option (List (List ℕ))
unfolding md5_loop
whohas_request_handler_md5 fuel pck_data data_len ix =
    md5_loop fuel (data_len - addr_str_len + 1)
      (take md5_digest_length (drop addr_str_len pck_data))
      (get_by_md5 (drop addr_str_len pck_data) ix)

-- what a line of the output shows
pub record Found : Type 0 where
  pub ip : ℕ
  pub port : ℕ
  pub md5 : List ℕ
  pub name : List ℕ

-- `strstr(str, "\n")`: what stands before the newline and behind it
unfoldable pub split_line : List ℕ → Option (List ℕ × List ℕ)
split_line [] = none
split_line (b ∷ bs) =
    let further = split_line bs in
    if b == b'\n'
    then some ([], bs)
    else if b == 0
    then none
    else (further >>= λ p. some (b ∷ p.0, p.1))

-- The loop `while (offset < pck->data_len)`, `left` bytes before the end; a round takes 22 bytes, so
-- `left` rounds are enough. A read past the array is none.
unfoldable pub read_entries : ℕ → ℕ → List ℕ → List ℕ → Option (List Found)
read_entries fuel zero name rest = some []
read_entries zero (suc left) name rest = none
read_entries (suc fuel) (suc left) name rest =
    let more = read_entries fuel (suc left - entry_len) name (drop entry_len rest) in
    (read_bytes entry_len rest >>= λ r. more >>= λ found. some (
      record { ip = btol r; port = btos (drop 4 r); md5 = drop addr_str_len r; name = name }
      ∷ found))

-- the inner `none` is the result -1
abbrev pub read_name : Option (List ℕ × List ℕ) → ℕ → Option (Option (List Found))
read_name none data_len = some none
read_name (some p) data_len =
    read_entries data_len (data_len - (length p.0 + 1)) p.0 p.1 >>= λ found. some (some found)

unfoldable pub whohas_response_handler_name : List ℕ → ℕ → Option (Option (List Found))
unfolding read_entries
whohas_response_handler_name pck_data data_len = read_name (split_line pck_data) data_len
