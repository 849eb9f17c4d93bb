-- ===== src/Whohas/Entries.antt =====
-- The results that one packet holds, and how they are read.
use karmanet.Common.{
  ℕ, zero, suc, ◌+◌, ◌-◌, ◌*◌, ◌^◌, ◌≤◌, ◌<◌, ◌≡◌, refl, sym, ap, ◌∙◌, ◌≢◌, some, List, [], ◌∷◌,
  ◌++◌, map, append_assoc, arith, ==-eq-false, length, take, drop, length-append, take-append,
  length-take, drop-append, All,
}
use karmanet.Common.Memory.{◌>>=◌, read_bytes, read_bytes-some}
use karmanet.Wire.{addr_str_len, addr2str, ltob, stob, btol, btos, le_bytes}
use karmanet.Wire.Numbers.{btol-ltob, btos-stob}
use karmanet.FileIndex.{AddrNode, md5_digest_length}
use karmanet.Whohas.{
  entry, entry_len, Found, split_line, read_entries, whohas_response_handler_name,
}

-- the fields have their widths
pub record IsEntry (r : AddrNode) : Type 0 where
  pub ip : r.ip < 2 ^ 32
  pub port : r.port < 2 ^ 16
  pub md5 : length r.md5 ≡ md5_digest_length

-- a name that the format can carry
abbrev pub IsName : List ℕ → Type 0
IsName name = All (λ b. (b ≢ 0) × (b ≢ b'\n')) name

abbrev pub entries : List AddrNode → List ℕ
entries [] = []
entries (r ∷ rs) = entry r ++ entries rs

abbrev pub shown : List ℕ → AddrNode → Found
shown name r = record { ip = r.ip; port = r.port; md5 = r.md5; name = name }

pub length-entry : (r : AddrNode) → IsEntry r → length (entry r) ≡ 22
unfolding addr2str ltob stob le_bytes
length-entry r v =
    let m = v.md5 in let t = length-take md5_digest_length r.md5 (omega arith) in omega arith

pub entries-append : (rs qs : List AddrNode) → entries (rs ++ qs) ≡ entries rs ++ entries qs
entries-append [] qs = refl
entries-append (r ∷ rs) qs =
    ap (λ l. entry r ++ l) (entries-append rs qs)
    ∙ sym (append_assoc (entry r) (entries rs) (entries qs))

pub length-entries : (rs : List AddrNode) → All IsEntry rs → length (entries rs) ≡ 22 * length rs
length-entries [] v = omega arith
length-entries (r ∷ rs) v =
    length-append (entry r) (entries rs) ∙ omega (arith, length-entry r v.0, length-entries rs v.1)

take_all : (n : ℕ) (bs : List ℕ) → length bs ≡ n → take n bs ≡ bs
take_all zero [] h = refl
take_all (suc n) [] h = refl
take_all zero (b ∷ bs) h = absurd (omega (arith, h))
take_all (suc n) (b ∷ bs) h = ap (λ l. b ∷ l) (take_all n bs (omega (arith, h)))

read_entry :
    (name : List ℕ) (r : AddrNode) (rest : List ℕ)
    → IsEntry r
    → (read_bytes 22 (entry r ++ rest) ≡ some (entry r))
      × (drop 22 (entry r ++ rest) ≡ rest)
      × (btol (entry r) ≡ r.ip)
      × (btos (drop 4 (entry r)) ≡ r.port)
      × (drop 6 (entry r) ≡ r.md5)
unfolding addr2str ltob stob le_bytes
read_entry name r rest v =
    let size = length-entry r v in
    let total : 22 ≤ length (entry r ++ rest) = omega (arith, size, length-append (entry r) rest) in
    (
      read_bytes-some 22 (entry r ++ rest) total
          ∙ ap some (ap (λ k. take k (entry r ++ rest)) (sym size) ∙ take-append (entry r) rest),
      ap (λ k. drop k (entry r ++ rest)) (sym size) ∙ drop-append (entry r) rest,
      btol-ltob r.ip (stob r.port ++ take md5_digest_length r.md5) v.ip,
      btos-stob r.port (take md5_digest_length r.md5) v.port,
      take_all 16 r.md5 v.md5,
    )

one_less : (n : ℕ) → 22 * suc n - 22 ≡ 22 * n
one_less n = omega arith

-- one round of the loop
read_round :
    (fuel left : ℕ) (name bs : List ℕ)
    → 0 < left
    → read_entries (suc fuel) left name bs ≡ (
        read_bytes entry_len bs >>= λ r.
        read_entries fuel (left - entry_len) name (drop entry_len bs) >>= λ found. some (
          record { ip = btol r; port = btos (drop 4 r); md5 = drop addr_str_len r; name = name }
          ∷ found))
unfolding read_entries
read_round fuel zero name bs h = absurd (omega (arith, h))
read_round fuel (suc left) name bs h = refl

read_entries-entries :
    (fuel : ℕ) (name : List ℕ) (rs : List AddrNode) (rest : List ℕ)
    → All IsEntry rs
    → length rs ≤ fuel
    → read_entries fuel (22 * length rs) name (entries rs ++ rest) ≡ some (map (shown name) rs)
unfolding read_entries
read_entries-entries fuel name [] rest v h = nothing fuel
  where
    nothing : (fuel : ℕ) → read_entries fuel 0 name rest ≡ some []
    nothing zero = refl
    nothing (suc fuel) = refl
read_entries-entries zero name (r ∷ rs) rest v h = absurd (omega (arith, h))
read_entries-entries (suc fuel) name (r ∷ rs) rest v h =
    let (got, behind, ip, port, md5) = read_entry name r (entries rs ++ rest) v.0 in
    read_round fuel (22 * suc (length rs)) name ((entry r ++ entries rs) ++ rest) (omega arith)
    ∙ rw
        (
          append_assoc (entry r) (entries rs) rest,
          got,
          behind,
          one_less (length rs),
          read_entries-entries fuel name rs rest v.1 (omega (arith, h)),
          ip,
          port,
          md5,
        )
        refl

split_line-name :
    (name rest : List ℕ) → IsName name → split_line (name ++ b'\n' ∷ rest) ≡ some (name, rest)
unfolding split_line
split_line-name [] rest v = refl
split_line-name (b ∷ bs) rest v =
    rw (split_line-name bs rest v.1, (==-eq-false b b'\n').1 v.0.1, (==-eq-false b 0).1 v.0.0) refl

-- the answer that one packet holds
pub whohas_response_handler_name-entries :
    (name : List ℕ) (rs : List AddrNode) (rest : List ℕ)
    → IsName name
    → All IsEntry rs
    → whohas_response_handler_name
        (name ++ b'\n' ∷ (entries rs ++ rest))
        (length name + 1 + 22 * length rs)
      ≡ some (some (map (shown name) rs))
unfolding whohas_response_handler_name
whohas_response_handler_name-entries name rs rest n v =
    let behind : length name + 1 + 22 * length rs - (length name + 1) ≡ 22 * length rs =
      omega arith in
    rw
      (
        split_line-name name (entries rs ++ rest) n,
        behind,
        read_entries-entries (length name + 1 + 22 * length rs) name rs rest v (omega arith),
      )
      refl
