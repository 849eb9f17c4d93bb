-- ===== src/SharedFiles/Lines.antt =====
-- The lines of `write_diff` against the calls of `add_files`.
use karmanet.Common.{
  ℕ, zero, suc, ◌+◌, ◌-◌, ◌≤◌, ◌≡◌, refl, sym, ap, ◌∙◌, true, false, not, ◌&&◌, Option, some, List,
  [], ◌∷◌, ◌++◌, append_assoc, append-nil, arith, leb, ◌==◌, length, take, drop, length-append,
  take-append, drop-append, All,
}
use karmanet.Common.Memory.{◌>>=◌, read_bytes, read_bytes-some}
use karmanet.SharedFiles.{
  md5_digest_length, Op, insert, remove, Line, op_char, line_bytes, write_diff, Added, made, op_of,
  read_name, add_files_loop, add_files,
}

-- a digest, and a name of at most 253 bytes, none of them a newline
pub record IsLine (l : Line) : Type 0 where
  pub md5 : length l.md5 ≡ md5_digest_length
  pub short : length l.name ≤ 253
  pub name : All (λ b. (b == b'\n') ≡ false) l.name

-- the file after these calls of `write_diff`
abbrev pub written : List Line → Option (List ℕ)
written [] = some []
written (l ∷ ls) = write_diff l >>= λ a. written ls >>= λ b. some (a ++ b)

abbrev pub bytes_of : List Line → List ℕ
bytes_of [] = []
bytes_of (l ∷ ls) = line_bytes l ++ bytes_of ls

write_diff-some : (l : Line) → IsLine l → write_diff l ≡ some (line_bytes l)
unfolding write_diff
write_diff-some l h =
    let fits : leb (md5_digest_length + length l.name + 3) 272 ≡ true = ground (arith, h.short) in
    rw fits refl

pub written-some : (ls : List Line) → All IsLine ls → written ls ≡ some (bytes_of ls)
written-some [] h = refl
written-some (l ∷ ls) h = rw (write_diff-some l h.0, written-some ls h.1) refl

read_name-newline :
    (name rest : List ℕ) (left k : ℕ)
    → All (λ b. (b == b'\n') ≡ false) name
    → left ≡ length name + suc k
    → read_name left (name ++ b'\n' ∷ rest)
      ≡ some (some (record { name = name; left = k; rest = rest }))
unfolding read_name
read_name-newline [] rest zero k h e = absurd (omega arith)
read_name-newline [] rest (suc left) k h e = let same : left ≡ k = omega arith in rw same refl
read_name-newline (b ∷ name) rest zero k h e = absurd (omega arith)
read_name-newline (b ∷ name) rest (suc left) k h e =
    rw (h.0, read_name-newline name rest left k h.1 (omega arith)) refl

pub op_of-op_char :
    (o : Op)
    → (op_of (op_char o) ≡ o) × ((not (op_char o == b'+') && not (op_char o == b'-')) ≡ false)
op_of-op_char insert = (refl, refl)
op_of-op_char remove = (refl, refl)

read_md5 :
    (l : Line) (ys : List ℕ)
    → IsLine l
    → (read_bytes 16 (l.md5 ++ ys) ≡ some l.md5) × (drop 16 (l.md5 ++ ys) ≡ ys)
read_md5 l ys h = (
  read_bytes-some 16 (l.md5 ++ ys) (rw length-append (omega (arith, h.md5)))
      ∙ ap (λ n. some (take n (l.md5 ++ ys))) (sym h.md5)
      ∙ ap some (take-append l.md5 ys),
  ap (λ n. drop n (l.md5 ++ ys)) (sym h.md5) ∙ drop-append l.md5 ys,
)

-- one line
add_files_loop-line :
    (l : Line) (fuel left k : ℕ) (rest : List ℕ)
    → IsLine l
    → left ≡ 16 + (length l.name + suc k)
    → add_files_loop (suc fuel) (suc left) (op_char l.op ∷ (l.md5 ++ (l.name ++ b'\n' ∷ rest)))
      ≡ (add_files_loop fuel k rest >>= λ r. some (made l r))
unfolding add_files_loop
add_files_loop-line l fuel left k rest h e =
    let op = op_of-op_char l.op in
    let digest = read_md5 l (l.name ++ b'\n' ∷ rest) h in
    let name = read_name-newline l.name rest (left - 16) k h.name (omega (arith, e)) in
    rw (op.1, digest.0, digest.1, name, op.0) refl

abbrev after_calls : List Line → Added → Added
after_calls ls r = record { calls = ls ++ r.calls; ok = r.ok }

add_files_loop-lines :
    (ls : List Line) (k : ℕ) (rest : List ℕ) (r : Added)
    → ((fuel : ℕ) → k ≤ fuel → add_files_loop fuel k rest ≡ some r)
    → All IsLine ls
    → (fuel left : ℕ) → left ≤ fuel
    → left ≡ length (bytes_of ls) + k
    → add_files_loop fuel left (bytes_of ls ++ rest) ≡ some (after_calls ls r)
add_files_loop-lines [] k rest r end h fuel left le e =
    let same : left ≡ k = omega arith in
    ap (λ n. add_files_loop fuel n rest) same ∙ end fuel (omega arith)
add_files_loop-lines (l ∷ ls) k rest r end h zero left le e = absurd (omega arith)
add_files_loop-lines (l ∷ ls) k rest r end h (suc fuel) zero le e = absurd (omega arith)
add_files_loop-lines (l ∷ ls) k rest r end h (suc fuel) (suc left) le e =
    let tail = bytes_of ls ++ rest in
    let nl : List ℕ = b'\n' ∷ [] in
    let size : length (line_bytes l ++ bytes_of ls)
        ≡ suc (16 + (length l.name + 1)) + length (bytes_of ls) =
      rw (length-append, length-append, length-append, h.0.md5) (omega arith) in
    let len : left ≡ 16 + (length l.name + suc (length (bytes_of ls) + k)) =
      omega (arith, e, size) in
    let rest_run =
      add_files_loop-lines ls k rest r end h.1 fuel (length (bytes_of ls) + k) (omega (arith, len))
        refl in
    let split =
      append_assoc (l.md5 ++ (l.name ++ nl)) (bytes_of ls) rest
      ∙ append_assoc l.md5 (l.name ++ nl) tail
      ∙ ap (λ t. l.md5 ++ t) (append_assoc l.name nl tail) in
    ap (λ t. add_files_loop (suc fuel) (suc left) (op_char l.op ∷ t)) split
    ∙ add_files_loop-line l fuel left (length (bytes_of ls) + k) tail h.0 len
    ∙ ap (λ o. o >>= λ a. some (made l a)) rest_run

end_of_data :
    (rest : List ℕ) (fuel : ℕ)
    → 0 ≤ fuel
    → add_files_loop fuel 0 rest ≡ some (record { calls = []; ok = true })
unfolding add_files_loop
end_of_data rest zero le = refl
end_of_data rest (suc fuel) le = refl

bad_line :
    (b : ℕ) (rest : List ℕ) (j : ℕ)
    → (b == b'+') ≡ false
    → (b == b'-') ≡ false
    → (fuel : ℕ) → suc j ≤ fuel
    → add_files_loop fuel (suc j) (b ∷ rest) ≡ some (record { calls = []; ok = false })
unfolding add_files_loop
bad_line b rest j plus minus zero le = absurd (omega arith)
bad_line b rest j plus minus (suc fuel) le = rw (plus, minus) refl

pub add_files-bytes_of :
    (ls : List Line) (rest : List ℕ)
    → All IsLine ls
    → add_files (bytes_of ls ++ rest) (length (bytes_of ls))
      ≡ some (record { calls = ls; ok = true })
unfolding add_files
add_files-bytes_of ls rest h =
    add_files_loop-lines ls 0 rest (record { calls = []; ok = true }) (end_of_data rest) h
      (length (bytes_of ls)) (length (bytes_of ls)) (omega arith) (omega arith)
    ∙ ap (λ c. some (record { calls = c; ok = true })) (append-nil ls)

-- What calls of `write_diff` write is read by `add_files` as those calls, in their order, for
-- digests of 16 bytes and names of at most 253 without a newline. If a line follows that begins
-- with neither `+` nor `-`, the same calls are made before the result is -1.
pub add_files-written :
    (ls : List Line)
    → All IsLine ls
    → (bytes : List ℕ) × (written ls ≡ some bytes)
      × ((rest : List ℕ)
          → add_files (bytes ++ rest) (length bytes) ≡ some (record { calls = ls; ok = true }))
      × ((b : ℕ) (rest : List ℕ) (j : ℕ)
          → (b == b'+') ≡ false
          → (b == b'-') ≡ false
          → add_files (bytes ++ b ∷ rest) (length bytes + suc j)
            ≡ some (record { calls = ls; ok = false }))
unfolding add_files
add_files-written ls h =
    let bytes = bytes_of ls in
    let whole = append-nil ls in
    (
      bytes,
      written-some ls h,
      λ rest. add_files-bytes_of ls rest h,
      λ b rest j plus minus.
          add_files_loop-lines ls (suc j) (b ∷ rest) (record { calls = []; ok = false })
            (bad_line b rest j plus minus) h (length bytes + suc j) (length bytes + suc j)
            (omega arith) refl
          ∙ ap (λ c. some (record { calls = c; ok = false })) whole,
    )
