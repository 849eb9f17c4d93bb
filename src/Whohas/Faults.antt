-- ===== src/Whohas/Faults.antt =====
-- A request whose name leaves no room for a result.
use karmanet.Common.{
  ℕ, zero, suc, ◌+◌, ◌-◌, ◌≤◌, ◌≡◌, refl, ap, ◌∙◌, false, none, List, [], ◌∷◌, ◌++◌, arith, ltb,
  length, take, drop, length-append, length-take, length-drop,
}
use karmanet.Wire.{addr_str_len}
use karmanet.Packet.{max_packet_data_len}
use karmanet.FileIndex.{AddrNode, Index, get_by_name}
use karmanet.Whohas.{text, entry_len, name_loop, name_start, whohas_request_handler_name}

take_self : (start : ℕ) (out : List ℕ) → length out ≡ start → take start out ≡ out
take_self zero [] h = refl
take_self zero (b ∷ out) h = absurd (omega (arith, h))
take_self (suc start) [] h = absurd (omega (arith, h))
take_self (suc start) (b ∷ out) h = ap (λ l. b ∷ l) (take_self start out (omega (arith, h)))

name_loop-none :
    (fuel start : ℕ) (out : List ℕ) (r : AddrNode) (rs : List AddrNode)
    → length out ≡ start
    → max_packet_data_len ≤ start + entry_len
    → name_loop fuel start out (r ∷ rs) ≡ none
unfolding name_loop
name_loop-none zero start out r rs h full = refl
name_loop-none (suc fuel) start out r rs h full =
    let over : ltb (length out + entry_len) max_packet_data_len ≡ false = ground arith in
    rw (over, take_self start out h, name_loop-none fuel start out r rs h full) refl

length-name_start :
    (scratch name : List ℕ) (n : ℕ)
    → n ≤ length scratch
    → length (name_start scratch name n) ≡ n + 1
length-name_start scratch name n h =
    let t = text name in
    let behind = drop (suc (length t)) scratch in
    let size = length-append t (0 ∷ behind) in
    let left = length-drop (suc (length t)) scratch in
    let first = length-take n (t ++ 0 ∷ behind) (omega (arith, h, size, left)) in
    length-append (take n (t ++ 0 ∷ behind)) (b'\n' ∷ []) ∙ omega (arith, first)

-- The loop does not end, whatever the fuel, if the request takes 1001 bytes of name or more and the
-- index has a result for it: it sends empty answers for ever. The data of the request must be there.
pub whohas_request_handler_name-none :
    (fuel : ℕ) (scratch pck_data : List ℕ) (data_len : ℕ) (ix : Index) (r : AddrNode)
    (rs : List AddrNode)
    → get_by_name (text (drop addr_str_len pck_data)) ix ≡ r ∷ rs
    → addr_str_len + 1001 ≤ data_len
    → data_len - addr_str_len ≤ length scratch
    → whohas_request_handler_name fuel scratch pck_data data_len ix ≡ none
unfolding whohas_request_handler_name
whohas_request_handler_name-none fuel scratch pck_data data_len ix r rs found long size =
    ap
      (λ l.
        name_loop fuel (data_len - 6 + 1) (name_start scratch (drop 6 pck_data) (data_len - 6)) l)
      found
    ∙ name_loop-none fuel (data_len - 6 + 1) (name_start scratch (drop 6 pck_data) (data_len - 6)) r
        rs (length-name_start scratch (drop 6 pck_data) (data_len - 6) size) (omega (arith, long))
