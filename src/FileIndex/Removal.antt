-- ===== src/FileIndex/Removal.antt =====
-- Removal from the index, src/client/hashtable.c: what an insertion followed by the removal of the
-- same file leaves, and the lists that are never empty.
use karmanet.Common.{
  ℕ, ◌≤◌, ◌<◌, ◌≡◌, refl, sym, ap, ◌∙◌, ◌≢◌, inl, inr, Bool, true, false, ◌&&◌, Option, none, some,
  List, [], ◌∷◌, arith, ◌==◌, ==_iff, Bool-cases, Option-cases, ==-eq-false, length, take,
  length-take-min, All,
}
use mathlib.Core.Bool.{false≢true}
use mathlib.Core.Path.{subst}
use karmanet.Common.Memory.{◌>>=◌}
use karmanet.Common.Positions.{is_empty}
use karmanet.FileIndex.{
  Index, FileInfo, FileNode, IpNode, AddrNode, find, put, chain_remove, filehash, starts_with,
  same_md5, remove_id, remove_file, remove_found, is_file, remove_entry, remove_file_info,
  remove_addr_node, remove_md5_info, files_at, files_of, insert_file, insert_md5_node,
  create_new_md5_node, create_new_md5_info, create_new_addr_node, file_node, iphash,
  md5_digest_length,
}
use karmanet.FileIndex.Hashes.{same_bytes_sym, same_bytes_refl, same_text_refl}
use karmanet.FileIndex.Chains.{
  put_same, inserted, find-cons, find-test, find-chain_insert, Agree, chain_remove-chain_insert,
}
use karmanet.FileIndex.Digests.{
  entry_for, is_shared, new_info, with_entry, insert_file_new, take_all, number_of, name_of,
}

-- the numbers of the nodes of a chain are below a bound, and no two are the same
abbrev pub Below : ℕ → List FileNode → Type 0
Below id ns = All (λ n. n.id < id) ns

abbrev pub Distinct : List FileNode → Type 0
Distinct [] = Unit
Distinct (n ∷ ns) = All (λ m. m.id ≢ n.id) ns × Distinct ns

-- What holds of an index in use: no node has an empty list, the nodes of the files stand in the chain
-- of their name and have numbers of their own.
pub record IsValid (ix : Index) : Type 0 where
  pub files : (key : ℕ) → All (λ n. is_empty n.addr_list ≡ false) (ix.hash_file key)
  pub digests : (key : ℕ) → All (λ n. is_empty n.md5_info ≡ false) (ix.hash_md5 key)
  pub addresses : (key : ℕ) → All (λ n. is_empty n.file_list ≡ false) (ix.hash_ip key)
  pub placed : (key : ℕ) → All (λ n. filehash n.name ≡ key) (ix.hash_file key)
  pub below : (key : ℕ) → Below ix.next_id (ix.hash_file key)
  pub distinct : (key : ℕ) → Distinct (ix.hash_file key)

module _ (test : FileNode → Bool) where
  number_of-ne :
      (k id : ℕ) (ns : List FileNode)
      → All (λ m. m.id ≢ k) ns
      → id ≢ k
      → number_of (find test ns) id ≢ k
  unfolding find
  number_of-ne k id [] all h = h
  number_of-ne k id (n ∷ ns) all h = elim (Bool-cases (test n)) [
    | inl e ↦ rw e all.0
    | inr e ↦ rw e (number_of-ne k id ns all.1 h)
  ]

  -- the test for the number of the node that the walk finds stops at that node
  Agree-number :
      (id : ℕ) (ns : List FileNode)
      → Below id ns
      → Distinct ns
      → Agree (λ n. n.id == number_of (find test ns) id) test ns
  unfolding find
  Agree-number id [] below distinct = tt
  Agree-number id (n ∷ ns) below distinct = elim (Bool-cases (test n)) [
    | inl e ↦ rw e ((==_iff n.id n.id).1 refl, λ f. absurd (false≢true (sym f)))
    | inr e ↦
        subst (λ o. Agree (λ m. m.id == number_of o id) test (n ∷ ns)) (sym (skip e))
          (
            (==-eq-false n.id (number_of (find test ns) id)).1
                  (λ f. number_of-ne n.id id ns distinct.0 (omega arith) (sym f))
                ∙ sym e,
            λ _. Agree-number id ns below.1 distinct.1,
          )
  ]
    where
      skip : test n ≡ false → find test (n ∷ ns) ≡ find test ns
      skip e = rw e

put-put {ℓ} :
    {A : Type ℓ} (table : ℕ → List A) (key : ℕ) (c d : List A)
    → d ≡ table key
    → (k : ℕ) → put (put table key c) key d k ≡ table k
put-put table key c d h k = elim (Bool-cases (k == key)) [
  | inl e ↦ rw e (h ∙ ap table (sym ((==_iff k key).0 e)))
  | inr e ↦ rw e
]

find-All {ℓ κ} :
    {A : Type ℓ} (P : A → Type κ) (test : A → Bool) (ns : List A) {n : A}
    → All P ns
    → find test ns ≡ some n
    → P n
unfolding find
find-All P test [] all e = absurd (cc)
find-All P test (m ∷ ns) {n} all e = elim (Bool-cases (test m)) [
  | inl t ↦ let e' : some m ≡ some n = rw t at e in let same : m ≡ n = cc in subst P same all.0
  | inr t ↦ let e' : find test ns ≡ some n = rw t at e in find-All P test ns all.1 e'
]

remove_id-cons {ℓ} :
    {A : Type ℓ} (key : A → ℕ) (x : A) (xs : List A) → remove_id key (key x) (x ∷ xs) ≡ xs
remove_id-cons key x xs = rw ((==_iff (key x) (key x)).1 refl)

Agree-eq {ℓ} :
    {A : Type ℓ} (meant test : A → Bool) (ns : List A)
    → ((n : A) → meant n ≡ test n)
    → Agree meant test ns
Agree-eq meant test [] h = tt
Agree-eq meant test (n ∷ ns) h = (h n, λ _. Agree-eq meant test ns h)

files_of-inserted :
    (ip : ℕ) (info : FileInfo) (o : Option IpNode)
    → files_of (
        some (
          inserted
            (λ n. record n { file_list = info ∷ n.file_list })
            (record { ip = ip; file_list = info ∷ [] })
            o))
      ≡ info ∷ files_of o
files_of-inserted ip info none = refl
files_of-inserted ip info (some n) = refl

module _ (str md5 : List ℕ) (ip port : ℕ) (ix : Index) (key : ℕ) where
  abbrev info : FileInfo
  info = new_info str md5 ip port ix

  abbrev after : Index
  after = with_entry str md5 ip port key ix

  files_at-after :
      iphash ip ≡ some key
      → files_at ip after ≡ some (info ∷ files_of (find (λ n. n.ip == ip) (ix.hash_ip key)))
  unfolding files_at
  files_at-after e = rw e (
      ap (λ c. some (files_of (find (λ n. n.ip == ip) c))) (put_same ix.hash_ip key _)
      ∙ ap (λ o. some (files_of o))
          (find-chain_insert (λ n. n.ip == ip) (λ n. n.ip == ip)
            (λ n. record n { file_list = info ∷ n.file_list })
            (record { ip = ip; file_list = info ∷ [] }) (ix.hash_ip key) (λ n. refl) (λ n. refl)
            ((==_iff ip ip).1 refl))
      ∙ ap some (files_of-inserted ip info (find (λ n. n.ip == ip) (ix.hash_ip key))))

  abbrev addr : AddrNode
  unfolding create_new_addr_node
  addr = create_new_addr_node ix.next_id ip port (take md5_digest_length md5)

  -- the node of the file stands in the chain of the name that is inserted
  filehash-info : IsValid ix → filehash info.name ≡ filehash str
  filehash-info v = elim (Option-cases (entry_for str ix)) [
    | inl e ↦ rw e
    | inr (n, e) ↦ rw e (
        find-All (λ m. filehash m.name ≡ filehash str) (λ m. starts_with m.name str)
          (ix.hash_file (filehash str)) (v.placed (filehash str)) e)
  ]

  hash_file-after :
      IsValid ix
      → (k : ℕ) → remove_addr_node info.id info.file info.name after.hash_file k ≡ ix.hash_file k
  unfolding remove_addr_node file_node create_new_addr_node
  hash_file-after v k =
      subst
        (λ key.
          put after.hash_file key
            (chain_remove (λ n. n.id == info.file)
              (λ n. record n { addr_list = remove_id (λ a. a.id) info.id n.addr_list })
              (λ n. is_empty n.addr_list) (after.hash_file key))
            k
          ≡ ix.hash_file k)
        (sym (filehash-info v))
        (put-put ix.hash_file (filehash str) _ _
          (ap
              (chain_remove (λ n. n.id == info.file)
                (λ n. record n { addr_list = remove_id (λ a. a.id) info.id n.addr_list })
                (λ n. is_empty n.addr_list))
              (put_same ix.hash_file (filehash str) _)
            ∙ chain_remove-chain_insert (λ n. starts_with n.name str) (λ n. n.id == info.file)
                (λ n. record n { addr_list = addr ∷ n.addr_list })
                (λ n. record n { addr_list = remove_id (λ a. a.id) info.id n.addr_list })
                (λ n. is_empty n.addr_list) (file_node ix.next_id str ip port (take 16 md5))
                (ix.hash_file (filehash str))
                (Agree-number (λ n. starts_with n.name str) ix.next_id (ix.hash_file (filehash str))
                  (v.below (filehash str)) (v.distinct (filehash str)))
                (λ n. refl)
                (λ n.
                  ap (λ l. record n { addr_list = l })
                    (remove_id-cons (λ a. a.id) addr n.addr_list))
                (v.files (filehash str)) (λ f. rw f ((==_iff ix.next_id ix.next_id).1 refl))
                (ap is_empty (remove_id-cons (λ a. a.id) addr [])))
          k)

  hash_md5-after :
      IsValid ix
      → length md5 ≡ 16
      → (k : ℕ) → remove_md5_info info.id info.md5 after.hash_md5 k ≡ ix.hash_md5 k
  unfolding remove_md5_info insert_md5_node create_new_md5_node create_new_md5_info
  hash_md5-after v h k =
      put-put ix.hash_md5 (filehash (take 16 md5)) _ _
        (ap
            (chain_remove (λ n. same_md5 n.md5 info.md5)
              (λ n. record n { md5_info = remove_id (λ i. i.id) info.id n.md5_info })
              (λ n. is_empty n.md5_info))
            (put_same ix.hash_md5 (filehash (take 16 md5)) _)
          ∙ chain_remove-chain_insert (λ n. same_md5 md5 n.md5) (λ n. same_md5 n.md5 info.md5)
              (λ n. record n { md5_info = create_new_md5_info info ∷ n.md5_info })
              (λ n. record n { md5_info = remove_id (λ i. i.id) info.id n.md5_info })
              (λ n. is_empty n.md5_info) (create_new_md5_node md5 info)
              (ix.hash_md5 (filehash (take 16 md5)))
              (Agree-eq _ _ (ix.hash_md5 (filehash (take 16 md5)))
                (λ n. ap (same_md5 n.md5) (take_all 16 md5 h) ∙ same_bytes_sym 16 n.md5 md5))
              (λ n. refl)
              (λ n.
                ap (λ l. record n { md5_info = l })
                  (remove_id-cons (λ i. i.id) (create_new_md5_info info) n.md5_info))
              (v.digests (filehash (take 16 md5)))
              (λ _. same_bytes_refl 16 (take 16 md5) (omega (arith, length-take-min 16 md5)))
              (ap is_empty (remove_id-cons (λ i. i.id) (create_new_md5_info info) [])))
        k

  hash_ip-after :
      IsValid ix
      → iphash ip ≡ some key
      → (t : ℕ → List IpNode) × (remove_file_info info.id ip after.hash_ip ≡ some t)
        × ((k : ℕ) → t k ≡ ix.hash_ip k)
  unfolding remove_file_info
  hash_ip-after v e = (
    put after.hash_ip key (
        chain_remove (λ n. n.ip == ip)
          (λ n. record n { file_list = remove_id (λ i. i.id) info.id n.file_list })
          (λ n. is_empty n.file_list) (after.hash_ip key)),
    rw e,
    put-put ix.hash_ip key _ _ (
        ap
          (chain_remove (λ n. n.ip == ip)
            (λ n. record n { file_list = remove_id (λ i. i.id) info.id n.file_list })
            (λ n. is_empty n.file_list))
          (put_same ix.hash_ip key _)
        ∙ chain_remove-chain_insert (λ n. n.ip == ip) (λ n. n.ip == ip)
            (λ n. record n { file_list = info ∷ n.file_list })
            (λ n. record n { file_list = remove_id (λ i. i.id) info.id n.file_list })
            (λ n. is_empty n.file_list) (record { ip = ip; file_list = info ∷ [] }) (ix.hash_ip key)
            (Agree-eq _ _ (ix.hash_ip key) (λ n. refl)) (λ n. refl)
            (λ n.
              ap (λ l. record n { file_list = l }) (remove_id-cons (λ i. i.id) info n.file_list))
            (v.addresses key) (λ _. (==_iff ip ip).1 refl)
            (ap is_empty (remove_id-cons (λ i. i.id) info []))),
  )

  -- the new entry passes the three tests of `remove_file`
  info-matches :
      length md5 ≡ 16
      → (starts_with info.name str && (port == port) && same_md5 info.md5 md5) ≡ true
  info-matches h =
      rw (name-matches, (==_iff port port).1 refl, take_all 16 md5 h)
        (same_bytes_refl 16 md5 (omega arith))
    where
      name-matches : starts_with info.name str ≡ true
      name-matches = elim (Option-cases (entry_for str ix)) [
        | inl e ↦ rw e (same_text_refl (length str) str)
        | inr (n, e) ↦
            rw e (find-test (λ m. starts_with m.name str) (ix.hash_file (filehash str)) e)
      ]

-- The removal of the file that the same address has just inserted, under a name of at most 254
-- bytes and with a hash that is not negative,
-- gives back the three tables.
pub remove_file-insert_file :
    (str md5 : List ℕ) (ip port : ℕ) (ix : Index) {key : ℕ}
    → IsValid ix
    → length str ≤ 254
    → length md5 ≡ 16
    → is_shared str md5 ip port ix ≡ false
    → iphash ip ≡ some key
    → (ix' ix'' : Index) × (insert_file str md5 ip port ix ≡ some ix')
      × (remove_file ip port str md5 ix' ≡ some ix'')
      × ((k : ℕ) → ix''.hash_file k ≡ ix.hash_file k)
      × ((k : ℕ) → ix''.hash_ip k ≡ ix.hash_ip k)
      × ((k : ℕ) → ix''.hash_md5 k ≡ ix.hash_md5 k)
unfolding remove_file remove_entry
remove_file-insert_file str md5 ip port ix {key} v short h new e =
    let (hash_ip, removed, same) = hash_ip-after str md5 ip port ix key v e in
    (
      with_entry str md5 ip port key ix,
      record (with_entry str md5 ip port key ix) {
        hash_file =
            remove_addr_node ix.next_id (number_of (entry_for str ix) ix.next_id)
              (name_of (entry_for str ix) str) (with_entry str md5 ip port key ix).hash_file;
        hash_ip = hash_ip;
        hash_md5 =
            remove_md5_info ix.next_id (take 16 md5) (with_entry str md5 ip port key ix).hash_md5;
      },
      insert_file_new str md5 ip port ix (λ _. short) new e,
      ap
            (λ o. o >>= λ files.
              remove_found (find (is_file port str md5) files) (with_entry str md5 ip port key ix))
            (files_at-after str md5 ip port ix key e)
          ∙ ap (λ o. remove_found o (with_entry str md5 ip port key ix))
              (find-cons (is_file port str md5) (new_info str md5 ip port ix)
                (files_of (find (λ n. n.ip == ip) (ix.hash_ip key)))
                (info-matches str md5 ip port ix key h))
          ∙ rw removed,
      hash_file-after str md5 ip port ix key v,
      same,
      hash_md5-after str md5 ip port ix key v h,
    )
