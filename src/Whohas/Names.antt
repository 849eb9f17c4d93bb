-- ===== src/Whohas/Names.antt =====
-- The answers to a request for a name, and how the peer that asked reads them.
use karmanet.Common.{
  ℕ, zero, suc, ◌+◌, ◌-◌, ◌*◌, ◌≤◌, ◌<◌, ◌≡◌, refl, sym, ap, ◌∙◌, some, List, [], ◌∷◌, ◌++◌, map,
  append-nil, arith, ◌==◌, if◌then◌else◌, ==-eq-false, length, take, drop, take-append, drop-append,
  All,
}
use mathlib.Core.Path.{subst}
use karmanet.Wire.{addr_str_len}
use karmanet.Packet.{max_packet_data_len}
use karmanet.FileIndex.{AddrNode, Index, get_by_name}
use karmanet.Whohas.{text, name_loop, name_start, whohas_request_handler_name}
use karmanet.Whohas.Entries.{IsEntry, IsName, shown}
use karmanet.Whohas.Rounds.{hear, Answers, name_loop-Answers, length-answer, ite-false}

text-name : (name rest : List ℕ) → IsName name → text (name ++ 0 ∷ rest) ≡ name
text-name [] rest n = refl
text-name (b ∷ bs) rest n =
    ap (λ l. if b == 0 then [] else b ∷ l) (text-name bs rest n.1)
    ∙ ite-false (b == 0) [] (b ∷ bs) ((==-eq-false b 0).1 n.0.0)

-- what the search for the name of a request gives, and where the answers begin
name_start-name :
    (scratch name rest : List ℕ)
    → IsName name
    → name_start scratch (name ++ 0 ∷ rest) (length name) ≡ name ++ b'\n' ∷ []
name_start-name scratch name rest n =
    ap (λ t. take (length name) (t ++ 0 ∷ drop (suc (length t)) scratch) ++ b'\n' ∷ [])
      (text-name name rest n)
    ∙ ap (λ t. t ++ b'\n' ∷ []) (take-append name (0 ∷ drop (suc (length name)) scratch))

loop-Answers :
    (name : List ℕ) (rs : List AddrNode) (fuel : ℕ)
    → IsName name
    → length name + 23 < max_packet_data_len
    → All IsEntry rs
    → 2 * length rs ≤ fuel
    → Answers name rs (name_loop fuel (length name + 1) (name ++ b'\n' ∷ []) rs)
unfolding name_loop
loop-Answers name [] zero n short v enough = record {
  answers = [];
  result = refl;
  heard = refl;
  fits = tt;
}
loop-Answers name [] (suc fuel) n short v enough = record {
  answers = [];
  result = refl;
  heard = refl;
  fits = tt;
}
loop-Answers name (r ∷ rs) fuel n short v enough =
    subst (λ out. Answers name (r ∷ rs) (name_loop fuel (length name + 1) out (r ∷ rs)))
      (append-nil (name ++ b'\n' ∷ []))
      (name_loop-Answers name n rs fuel [] r enough short
        (omega (arith, short, length-answer name n [] tt)) v tt)

-- A superpeer answers a request for a name that has no zero and no newline and leaves room for one
-- result, whose results have fields of their widths. The loop ends, within two rounds for each
-- result; each answer has fewer than 1024 bytes; and from the answers together the peer that asked
-- reads the address, the port and the digest of each result, in the order of the index, with the
-- name, however many packets they take and whatever the arrays held before.
pub whohas_request_handler_name-Answers :
    (fuel : ℕ) (scratch sender name rest : List ℕ) (ix : Index)
    → length sender ≡ addr_str_len
    → IsName name
    → length name + 23 < max_packet_data_len
    → All IsEntry (get_by_name name ix)
    → 2 * length (get_by_name name ix) ≤ fuel
    → (answers : List (List ℕ)) × (whohas_request_handler_name fuel scratch
          (sender ++ (name ++ 0 ∷ rest))
          (addr_str_len + length name)
          ix
        ≡ some answers)
      × (hear answers ≡ some (map (shown name) (get_by_name name ix)))
      × All (λ a. length a < max_packet_data_len) answers
unfolding whohas_request_handler_name
whohas_request_handler_name-Answers fuel scratch sender name rest ix six n short v enough =
    let a = loop-Answers name (get_by_name name ix) fuel n short v enough in
    let behind : drop 6 (sender ++ (name ++ 0 ∷ rest)) ≡ name ++ 0 ∷ rest =
      ap (λ k. drop k (sender ++ (name ++ 0 ∷ rest))) (sym six)
      ∙ drop-append sender (name ++ 0 ∷ rest) in
    let size : 6 + length name - 6 ≡ length name = omega arith in
    (
      a.answers,
      ap
            (λ d.
              name_loop fuel (6 + length name - 6 + 1) (name_start scratch d (6 + length name - 6))
                (get_by_name (text d) ix))
            behind
          ∙ ap
              (λ k.
                name_loop fuel (k + 1) (name_start scratch (name ++ 0 ∷ rest) k)
                  (get_by_name (text (name ++ 0 ∷ rest)) ix))
              size
          ∙ ap
              (λ out.
                name_loop fuel (length name + 1) out (get_by_name (text (name ++ 0 ∷ rest)) ix))
              (name_start-name scratch name rest n)
          ∙ ap (λ t. name_loop fuel (length name + 1) (name ++ b'\n' ∷ []) (get_by_name t ix))
              (text-name name rest n)
          ∙ a.result,
      a.heard,
      a.fits,
    )
