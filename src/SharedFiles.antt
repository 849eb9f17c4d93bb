-- ===== src/SharedFiles.antt =====
-- The lists of shared files that a peer sends to its superpeer: `write_diff` of
-- src/client/shared.c, which writes a line, and `add_files` of src/client/superpeer.c, which reads
-- the lines and calls the file index. `pck_data` is the array of the packet; a read past it is
-- undefined behaviour, `none`. A name is shorter than the array, so it fits the buffer `tmp`.
pub mod Lines
pub mod Share
pub mod Rounds
pub mod Sent
pub mod Own
use karmanet.Common.{
  ℕ, zero, suc, ◌+◌, ◌-◌, Bool, true, false, not, ◌&&◌, Option, none, some, List, [], ◌∷◌, ◌++◌,
  leb, ◌==◌, if◌then◌else◌, length, drop,
}
use karmanet.Common.Memory.{◌>>=◌, read_bytes}

abbrev pub md5_digest_length : ℕ
md5_digest_length = 16

-- the calls of `insert_file` and of `remove_file`
pub data Op : Type 0 where
  insert remove : Op

-- the arguments of one call, the name without its closing zero
pub record Line : Type 0 where
  pub op : Op
  pub md5 : List ℕ
  pub name : List ℕ

-- shared.c

abbrev pub op_char : Op → ℕ
op_char insert = b'+'
op_char remove = b'-'

abbrev pub line_bytes : Line → List ℕ
line_bytes l = op_char l.op ∷ (l.md5 ++ (l.name ++ b'\n' ∷ []))

-- The bytes that `write_diff` writes to the file. It builds them in an array of 272 bytes, with a
-- zero behind them; `none` for a line that is longer.
unfoldable pub write_diff : Line → Option (List ℕ)
write_diff l = if leb (md5_digest_length + length l.name + 3) 272 then some (line_bytes l) else none

-- superpeer.c

-- the calls that were made, and whether the result is 0
pub record Added : Type 0 where
  pub calls : List Line
  pub ok : Bool

abbrev pub made : Line → Added → Added
made l r = record { calls = l ∷ r.calls; ok = r.ok }

abbrev pub op_of : ℕ → Op
op_of b = if b == b'+' then insert else remove

-- The name of a line: what stands before the next newline, and how many bytes and which are left
-- behind that. The inner `none` is a line without its newline.
pub record Name : Type 0 where
  pub name : List ℕ
  pub left : ℕ
  pub rest : List ℕ

unfoldable pub read_name : ℕ → List ℕ → Option (Option Name)
read_name zero rest = some none
read_name (suc left) [] = none
read_name (suc left) (b ∷ rest) =
    let further = read_name left rest in
    if b == b'\n'
    then some (some (record { name = []; left = left; rest = rest }))
    else (further >>= λ o. some (o >>= λ n. some (record n { name = b ∷ n.name })))

-- The loop of `add_files`, where `left` bytes of the data are left and `rest` is what is left of
-- the array.
add_files_loop : ℕ → ℕ → List ℕ → Option Added
add_files_loop fuel zero rest = some (record { calls = []; ok = true })
add_files_loop zero (suc left) rest = none
add_files_loop (suc fuel) (suc left) [] = none
add_files_loop (suc fuel) (suc left) (b ∷ rest) =
    if not (b == b'+') && not (b == b'-') then some (record { calls = []; ok = false }) else (do
      md5 ← read_bytes md5_digest_length rest
      line ← read_name (left - md5_digest_length) (drop md5_digest_length rest)
      elim line [
        | none ↦ some (record { calls = []; ok = true })
        | some n ↦ do
          r ← add_files_loop fuel n.left n.rest
          some (made (record { op = op_of b; md5 = md5; name = n.name }) r)
      ])

-- every round takes a byte, so `data_len` rounds are enough
unfoldable pub add_files : List ℕ → ℕ → Option Added
unfolding add_files_loop
add_files pck_data data_len = add_files_loop data_len data_len pck_data
