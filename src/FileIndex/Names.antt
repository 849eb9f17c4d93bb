-- ===== src/FileIndex/Names.antt =====
-- Lookup by name after an insertion, src/client/hashtable.c.
use karmanet.Common.{
  ℕ, ◌≤◌, ◌≡◌, refl, ap, ◌∙◌, inl, inr, true, false, some, List, [], ◌∷◌, Bool-cases, length, take,
  All,
}
use karmanet.FileIndex.{
  Index, AddrNode, FileNode, find, chain_insert, filehash, same_text, starts_with, addrs_of,
  insert_file, create_new_addr_node, file_node, get_by_name, iphash, md5_digest_length,
}
use karmanet.FileIndex.Hashes.{same_text_refl}
use karmanet.FileIndex.Chains.{put_same}
use karmanet.FileIndex.Digests.{is_shared, with_entry, insert_file_new}

-- the first four bytes tell which nodes of the chain `insert_file` would add the name to
abbrev pub IsToldApart : List ℕ → List FileNode → Type 0
IsToldApart str ns = All (λ n. same_text 4 n.name str ≡ starts_with n.name str) ns

module _ (str : List ℕ) (addr : AddrNode) (new : FileNode) where
  find-told_apart :
      (ns : List FileNode)
      → IsToldApart str ns
      → same_text 4 new.name str ≡ true
      → new.addr_list ≡ addr ∷ []
      → addrs_of (
          find
            (λ n. same_text 4 n.name str)
            (chain_insert
              (λ n. starts_with n.name str)
              (λ n. record n { addr_list = addr ∷ n.addr_list })
              new
              ns))
        ≡ addr ∷ addrs_of (find (λ n. same_text 4 n.name str) ns)
  unfolding find chain_insert
  find-told_apart [] told h k = rw h k
  find-told_apart (n ∷ ns) told h k = elim (Bool-cases (starts_with n.name str)) [
    | inl e ↦ rw (e, told.0 ∙ e)
    | inr e ↦ rw (e, told.0 ∙ e) (find-told_apart ns told.1 h k)
  ]

-- After `insert_file` of a name of at most 254 bytes that the first four bytes tell apart from the other names of its
-- chain, by an address whose hash is not negative and that did not share this file, the search for
-- the name finds the address in front of those that it found before.
pub get_by_name-insert_file :
    (str md5 : List ℕ) (ip port : ℕ) (ix : Index) {key : ℕ}
    → length str ≤ 254
    → IsToldApart str (ix.hash_file (filehash str))
    → is_shared str md5 ip port ix ≡ false
    → iphash ip ≡ some key
    → (ix' : Index) × (insert_file str md5 ip port ix ≡ some ix')
      × (get_by_name str ix'
          ≡ create_new_addr_node ix.next_id ip port (take md5_digest_length md5)
            ∷ get_by_name str ix)
unfolding get_by_name file_node
get_by_name-insert_file str md5 ip port ix {key} short told new e = (
  with_entry str md5 ip port key ix,
  insert_file_new str md5 ip port ix (λ _. short) new e,
  ap (λ c. addrs_of (find (λ n. same_text 4 n.name str) c)) (put_same ix.hash_file (filehash str) _)
      ∙ find-told_apart str (create_new_addr_node ix.next_id ip port (take md5_digest_length md5))
          (file_node ix.next_id str ip port (take md5_digest_length md5))
          (ix.hash_file (filehash str)) told (same_text_refl 4 str) refl,
)

-- For a name of at most 254 bytes that an address with a hash that is not negative inserts and does not
-- share yet: if the first node of the chain that the hash of the name selects has a name that agrees
-- with it on four bytes without beginning with it, the search for the new name finds the addresses of
-- that other file after the insertion.
pub get_by_name_other :
    (str md5 : List ℕ) (ip port : ℕ) (ix : Index) (n : FileNode) (ns : List FileNode) {key : ℕ}
    → length str ≤ 254
    → ix.hash_file (filehash str) ≡ n ∷ ns
    → same_text 4 n.name str ≡ true
    → starts_with n.name str ≡ false
    → is_shared str md5 ip port ix ≡ false
    → iphash ip ≡ some key
    → (ix' : Index) × (insert_file str md5 ip port ix ≡ some ix')
      × (get_by_name str ix' ≡ n.addr_list)
unfolding get_by_name find chain_insert
get_by_name_other str md5 ip port ix n ns {key} short chain close apart new e = (
  with_entry str md5 ip port key ix,
  insert_file_new str md5 ip port ix (λ _. short) new e,
  ap (λ c. addrs_of (find (λ n. same_text 4 n.name str) c)) (put_same ix.hash_file (filehash str) _)
      ∙ rw (chain, apart, close) refl,
)
