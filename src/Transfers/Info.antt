-- ===== src/Transfers/Info.antt =====
-- The exchange before the first chunk: create_infofile_str of src/client/uploader.c, and
-- fill_file_info of src/client/downloader.c. A result is `none` where the source would read or write
-- past an array, and `some none` where it returns -1.
use karmanet.Common.{
  ℕ, suc, not, Option, none, some, List, [], ◌∷◌, ◌++◌, ltb, ◌==◌, if◌then◌else◌, take, drop,
}
use karmanet.Common.Memory.{◌>>=◌, read_bytes}
use karmanet.Wire.{ltob, btol, same_bytes}
use karmanet.Transfers.Chunks.{TransferInfo}

-- `name`, its zero, the digest and the two numbers
unfoldable pub create_infofile_str : List ℕ → List ℕ → TransferInfo → List ℕ
create_infofile_str name md5 info =
    name ++ 0 ∷ (md5 ++ (ltob info.file_size ++ ltob info.chunk_number))

-- `none` when there is no zero in the array
unfoldable pub strlen : List ℕ → Option ℕ
strlen [] = none
strlen (b ∷ bs) = let rest = strlen bs in if b == 0 then some 0 else rest >>= λ n. some (suc n)

-- what `fill_file_info` writes to the node
pub record FilledInfo : Type 0 where
  pub file_name : List ℕ
  pub numbers : TransferInfo

-- from the digest on
unfoldable pub fill_numbers : List ℕ → List ℕ → List ℕ → Option (Option FilledInfo)
fill_numbers file_md5 name rest = read_bytes 16 rest >>= λ md5.
    if not (same_bytes 16 file_md5 md5)
    then some none
    else read_bytes 8 (drop 16 rest) >>= λ s. some (
        some (record {
          file_name = name;
          numbers = record { file_size = btol s; chunk_number = btol (drop 4 s) };
        }))

unfoldable pub fill_file_info : List ℕ → List ℕ → Option (Option FilledInfo)
unfolding strlen fill_numbers
fill_file_info file_md5 bytes = strlen bytes >>= λ n.
    if ltb 254 n then none else fill_numbers file_md5 (take n bytes) (drop (suc n) bytes)
