-- ===== src/Tests/Index.antt =====
-- An index of files to which a peer adds one.
use karmanet.Common.{
  ℕ, ◌≡◌, refl, ap, not, ◌&&◌, some, List, [], ◌∷◌, arith, if◌then◌else◌, take, replicate,
}
use karmanet.Common.Memory.{◌>>=◌}
use karmanet.FileIndex.{
  same_text, find, filehash, chain_insert, file_node, Index, init_hashtable, iphash, get_by_md5,
  get_by_name, insert_file, remove_file, same_md5, create_new_md5_info, create_new_addr_node,
  md5_digest_length,
}
use karmanet.FileIndex.Digests.{
  is_shared, new_info, get_by_md5-insert_file, with_entry, insert_file_new,
}
use karmanet.FileIndex.Names.{get_by_name-insert_file, get_by_name_other}
use karmanet.FileIndex.Removal.{IsValid, remove_file-insert_file}
use karmanet.FileIndex.Invariant.{init_hashtable-IsValid, inserts, calls, calls-IsValid}

abbrev digest : List ℕ
digest = replicate 16 7

abbrev name : List ℕ
name = b'a' ∷ b'b' ∷ []

-- 10.0.0.1
abbrev peer : ℕ
peer = 16777226

abbrev songly : List ℕ
songly = b's' ∷ b'o' ∷ b'n' ∷ b'g' ∷ b'l' ∷ b'y' ∷ []

-- a name whose hash selects the same chain
abbrev songaab : List ℕ
songaab = b's' ∷ b'o' ∷ b'n' ∷ b'g' ∷ b'a' ∷ b'a' ∷ b'b' ∷ []

-- what `insert_file` makes of the empty tables
abbrev with_songly : Index
with_songly = with_entry songly digest peer 80 194 init_hashtable

get_by_md5-insert_file_example :
    (ix' : Index) × (insert_file name digest peer 80 init_hashtable ≡ some ix')
    × (get_by_md5 digest ix' ≡ (
        if not (is_shared name digest peer 80 init_hashtable) && same_md5 digest digest
        then create_new_md5_info (new_info name digest peer 80 init_hashtable)
          ∷ get_by_md5 digest init_hashtable
        else get_by_md5 digest init_hashtable))
unfolding iphash
get_by_md5-insert_file_example =
    get_by_md5-insert_file name digest digest peer 80 init_hashtable (omega arith) refl refl refl

get_by_name-insert_file_example :
    (ix' : Index) × (insert_file name digest peer 80 init_hashtable ≡ some ix')
    × (get_by_name name ix'
        ≡ create_new_addr_node 0 peer 80 (take md5_digest_length digest)
          ∷ get_by_name name init_hashtable)
unfolding iphash find
get_by_name-insert_file_example =
    get_by_name-insert_file name digest peer 80 init_hashtable (omega arith) tt refl refl

get_by_name_other_example :
    (ix' : Index) × (insert_file songaab digest peer 81 with_songly ≡ some ix')
    × (get_by_name songaab ix' ≡ create_new_addr_node 0 peer 80 digest ∷ [])
unfolding iphash same_text find filehash chain_insert file_node
get_by_name_other_example =
    get_by_name_other songaab digest peer 81 with_songly
      (record { id = 0; name = songly; addr_list = create_new_addr_node 0 peer 80 digest ∷ [] }) []
      (omega arith) refl refl refl refl refl

remove_file-insert_file_example :
    (ix' ix'' : Index) × (insert_file name digest peer 80 init_hashtable ≡ some ix')
    × (remove_file peer 80 name digest ix' ≡ some ix'')
    × ((k : ℕ) → ix''.hash_file k ≡ [])
    × ((k : ℕ) → ix''.hash_ip k ≡ [])
    × ((k : ℕ) → ix''.hash_md5 k ≡ [])
unfolding iphash find
remove_file-insert_file_example =
    remove_file-insert_file name digest peer 80 init_hashtable init_hashtable-IsValid (omega arith)
      refl refl refl

with_file :
    insert_file name digest peer 80 init_hashtable
    ≡ some (with_entry name digest peer 80 194 init_hashtable)
unfolding iphash find
with_file = insert_file_new name digest peer 80 init_hashtable (λ _. omega arith) refl refl

calls-IsValid_example : IsValid (with_entry name digest peer 80 194 init_hashtable)
calls-IsValid_example =
    calls-IsValid (inserts name digest peer 80 ∷ []) (ap (λ o. o >>= calls []) with_file)
