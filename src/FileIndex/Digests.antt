-- ===== src/FileIndex/Digests.antt =====
-- Lookup by digest after an insertion, src/client/hashtable.c.
use karmanet.Common.{
  ℕ, zero, suc, ◌≤◌, ◌≡◌, refl, sym, ap, ◌∙◌, inl, inr, Bool, true, false, not, ◌&&◌, Option, none,
  some, List, [], ◌∷◌, arith, ltb, ◌==◌, if◌then◌else◌, ==_iff, Bool-cases, Option-cases, length,
  take,
}
use mathlib.Core.Path.{subst}
use karmanet.FileIndex.{
  Index, FileInfo, FileNode, Md5Node, find, put, chain_insert, filehash, starts_with, same_md5,
  has_addr, infos_of, insert_file, insert_entry, insert_ip_node, insert_md5_node,
  create_new_md5_node, create_new_md5_info, create_new_addr_node, create_new_file_node, file_node,
  get_by_md5, iphash, md5_digest_length,
}
use karmanet.FileIndex.Hashes.{same_bytes_sym, same_bytes_refl, same_bytes_trans, same_bytes-eq}
use karmanet.FileIndex.Chains.{put_same, inserted, find-chain_insert, find-chain_insert_other}

-- the node that `insert_file` finds for a name
abbrev pub entry_for : List ℕ → Index → Option FileNode
entry_for str ix = find (λ n. starts_with n.name str) (ix.hash_file (filehash str))

abbrev has_addr_in : ℕ → ℕ → List ℕ → Option FileNode → Bool
has_addr_in ip port md5 none = false
has_addr_in ip port md5 (some n) = has_addr ip port md5 n.addr_list

-- whether `insert_file` returns because the address shares the file already
abbrev pub is_shared : List ℕ → List ℕ → ℕ → ℕ → Index → Bool
is_shared str md5 ip port ix = has_addr_in ip port md5 (entry_for str ix)

abbrev pub number_of : Option FileNode → ℕ → ℕ
number_of none id = id
number_of (some n) id = n.id

abbrev pub name_of : Option FileNode → List ℕ → List ℕ
name_of none str = str
name_of (some n) str = n.name

-- the `file_info` of an insertion
abbrev pub new_info : List ℕ → List ℕ → ℕ → ℕ → Index → FileInfo
new_info str md5 ip port ix = record {
  id = ix.next_id;
  file = number_of (entry_for str ix) ix.next_id;
  name = name_of (entry_for str ix) str;
  ip = ip;
  port = port;
  md5 = take md5_digest_length md5;
}

pub take_all : (n : ℕ) (md5 : List ℕ) → length md5 ≡ n → take n md5 ≡ md5
take_all zero [] h = refl
take_all zero (x ∷ md5) h = absurd (omega arith)
take_all (suc n) [] h = absurd (omega arith)
take_all (suc n) (x ∷ md5) h = ap (λ l. x ∷ l) (take_all n md5 (omega arith))

-- a walk that finds a node makes no new one
chain_insert_found :
    (test : FileNode → Bool) (add : FileNode → FileNode) (x y : FileNode) (ns : List FileNode)
    {m : FileNode}
    → find test ns ≡ some m
    → chain_insert test add x ns ≡ chain_insert test add y ns
unfolding find chain_insert
chain_insert_found test add x y [] h = absurd (cc)
chain_insert_found test add x y (n ∷ ns) h = elim (Bool-cases (test n)) [
  | inl e ↦ rw e
  | inr e ↦ rw e (ap (λ l. n ∷ l) (chain_insert_found test add x y ns (rw e at h)))
]

insert_entry_found :
    (str md5 : List ℕ) (ip port file : ℕ) (name : List ℕ) (x y : FileNode) (ix : Index)
    {m : FileNode}
    → entry_for str ix ≡ some m
    → insert_entry str md5 ip port file name x ix ≡ insert_entry str md5 ip port file name y ix
unfolding insert_entry
insert_entry_found str md5 ip port file name x y ix h =
    let same =
      chain_insert_found (λ n. starts_with n.name str)
        (λ n. record n {
          addr_list =
              create_new_addr_node ix.next_id ip port (take md5_digest_length md5) ∷ n.addr_list;
        })
        x y (ix.hash_file (filehash str)) h in
    rw same refl

-- the insertion as one function of the node that the walk finds
pub insert_file-entry :
    (str md5 : List ℕ) (ip port : ℕ) (ix : Index)
    → (entry_for str ix ≡ none → length str ≤ 254)
    → is_shared str md5 ip port ix ≡ false
    → insert_file str md5 ip port ix
      ≡ insert_entry str md5 ip port
          (number_of (entry_for str ix) ix.next_id)
          (name_of (entry_for str ix) str)
          (file_node ix.next_id str ip port (take md5_digest_length md5))
          ix
unfolding insert_file create_new_file_node
insert_file-entry str md5 ip port ix short h = elim (Option-cases (entry_for str ix)) [
  | inl e ↦
      let fits : ltb 254 (length str) ≡ false = short_test (length str) (short e) in
      rw (e, insert_file) (rw fits)
  | inr (n, e) ↦
      let old : has_addr ip port md5 n.addr_list ≡ false = rw e at h in
      rw (e, insert_file) (rw old)
      ∙ insert_entry_found str md5 ip port n.id n.name n
          (file_node ix.next_id str ip port (take md5_digest_length md5)) ix e
      ∙ rw e
]
  where
    short_test : (n : ℕ) → n ≤ 254 → ltb 254 n ≡ false
    short_test n k = ground arith

-- a name that does not fit the array of a new node
pub insert_file_long :
    (str md5 : List ℕ) (ip port : ℕ) (ix : Index)
    → entry_for str ix ≡ none
    → ltb 254 (length str) ≡ true
    → insert_file str md5 ip port ix ≡ none
unfolding insert_file create_new_file_node
insert_file_long str md5 ip port ix e k = rw (e, insert_file) (rw k)

pub insert_file_shared :
    (str md5 : List ℕ) (ip port : ℕ) (ix : Index)
    → is_shared str md5 ip port ix ≡ true
    → insert_file str md5 ip port ix ≡ some ix
unfolding insert_file
insert_file_shared str md5 ip port ix h = elim (Option-cases (entry_for str ix)) [
  | inl e ↦ let no_node : false ≡ true = rw e at h in cc
  | inr (n, e) ↦
      let old : has_addr ip port md5 n.addr_list ≡ true = rw e at h in rw (e, insert_file) (rw old)
]

-- the tables after an insertion that adds an entry, where `key` is the hash of the address
abbrev pub with_entry : List ℕ → List ℕ → ℕ → ℕ → ℕ → Index → Index
with_entry str md5 ip port key ix = record {
  hash_file = put ix.hash_file (filehash str) (
      chain_insert (λ n. starts_with n.name str)
        (λ n. record n {
          addr_list =
              create_new_addr_node ix.next_id ip port (take md5_digest_length md5) ∷ n.addr_list;
        })
        (file_node ix.next_id str ip port (take md5_digest_length md5))
        (ix.hash_file (filehash str)));
  hash_ip = put ix.hash_ip key (
      chain_insert (λ n. n.ip == ip)
        (λ n. record n { file_list = new_info str md5 ip port ix ∷ n.file_list })
        (record { ip = ip; file_list = new_info str md5 ip port ix ∷ [] }) (ix.hash_ip key));
  hash_md5 = insert_md5_node md5 (new_info str md5 ip port ix) ix.hash_md5;
  next_id = suc ix.next_id;
}

pub insert_file_new :
    (str md5 : List ℕ) (ip port : ℕ) (ix : Index) {key : ℕ}
    → (entry_for str ix ≡ none → length str ≤ 254)
    → is_shared str md5 ip port ix ≡ false
    → iphash ip ≡ some key
    → insert_file str md5 ip port ix ≡ some (with_entry str md5 ip port key ix)
unfolding insert_entry insert_ip_node
insert_file_new str md5 ip port ix short h e = insert_file-entry str md5 ip port ix short h ∙ rw e

-- the digest of a node is compared from either side
digest_sym : (md5 : List ℕ) (n : Md5Node) → same_md5 md5 n.md5 ≡ same_md5 n.md5 md5
digest_sym md5 n = same_bytes_sym 16 md5 n.md5

digest_apart :
    (md5 m : List ℕ)
    → same_md5 md5 m ≡ false
    → (n : Md5Node) → same_md5 md5 n.md5 ≡ true
    → same_md5 n.md5 m ≡ false
digest_apart md5 m h n e = elim (Bool-cases (same_md5 n.md5 m)) [
  | inl k ↦ cc (h, same_bytes_trans 16 md5 n.md5 m e k)
  | inr k ↦ k
]

infos_of-inserted :
    (info : FileInfo) (new : Md5Node) (o : Option Md5Node)
    → new.md5_info ≡ create_new_md5_info info ∷ []
    → infos_of
        (some (inserted (λ n. record n { md5_info = create_new_md5_info info ∷ n.md5_info }) new o))
      ≡ create_new_md5_info info ∷ infos_of o
infos_of-inserted info new none h = h
infos_of-inserted info new (some n) h = refl

module _ (md5 : List ℕ) (info : FileInfo) (ix : Index) where
  key_of : ℕ
  key_of = filehash (take md5_digest_length md5)

  with_digest : Index
  with_digest = record ix { hash_md5 = insert_md5_node md5 info ix.hash_md5 }

  get_by_md5_self :
      length md5 ≡ 16 → get_by_md5 md5 with_digest ≡ create_new_md5_info info ∷ get_by_md5 md5 ix
  unfolding get_by_md5 insert_md5_node create_new_md5_node with_digest key_of
  get_by_md5_self h =
      ap (λ c. infos_of (find (λ n. same_md5 n.md5 md5) c)) (put_same ix.hash_md5 key_of _)
      ∙ ap infos_of (
          find-chain_insert (λ n. same_md5 md5 n.md5) (λ n. same_md5 n.md5 md5)
            (λ n. record n { md5_info = create_new_md5_info info ∷ n.md5_info })
            (create_new_md5_node md5 info) (ix.hash_md5 key_of) (digest_sym md5) (λ n. refl)
            (rw (take_all 16 md5 h) (same_bytes_refl 16 md5 (omega arith))))
      ∙ infos_of-inserted info (create_new_md5_node md5 info) _ refl

  get_by_md5_other :
      (m : List ℕ)
      → length md5 ≡ 16
      → same_md5 md5 m ≡ false
      → get_by_md5 m with_digest ≡ get_by_md5 m ix
  unfolding get_by_md5 insert_md5_node create_new_md5_node with_digest key_of
  get_by_md5_other m h e = elim (Bool-cases (filehash (take 16 m) == filehash (take 16 md5))) [
    | inl same ↦ rw same (
        ap infos_of (
          find-chain_insert_other (λ n. same_md5 md5 n.md5) (λ n. same_md5 n.md5 m)
            (λ n. record n { md5_info = create_new_md5_info info ∷ n.md5_info })
            (create_new_md5_node md5 info) (ix.hash_md5 (filehash (take 16 md5)))
            (digest_apart md5 m e) (λ n. refl) (rw (take_all 16 md5 h) e))
        ∙ ap (λ k. infos_of (find (λ n. same_md5 n.md5 m) (ix.hash_md5 k)))
            (sym ((==_iff (filehash (take 16 m)) (filehash (take 16 md5))).0 same)))
    | inr apart ↦ rw apart
  ]

-- After `insert_file` of a name of at most 254 bytes with the address of a peer whose hash is not
-- negative, the search for a digest finds the new file in front of what it found before, if the digest is that of the file and the
-- address did not share this file already, and what it found before otherwise.
pub get_by_md5-insert_file :
    (str md5 m : List ℕ) (ip port : ℕ) (ix : Index) {key : ℕ}
    → length str ≤ 254
    → length md5 ≡ 16
    → length m ≡ 16
    → iphash ip ≡ some key
    → (ix' : Index) × (insert_file str md5 ip port ix ≡ some ix')
      × (get_by_md5 m ix' ≡ (
          if not (is_shared str md5 ip port ix) && same_md5 md5 m
          then create_new_md5_info (new_info str md5 ip port ix) ∷ get_by_md5 m ix
          else get_by_md5 m ix))
unfolding get_by_md5 with_digest
get_by_md5-insert_file str md5 m ip port ix {key} short h k e =
    elim (Bool-cases (is_shared str md5 ip port ix)) [
      | inl old ↦ (ix, insert_file_shared str md5 ip port ix old, rw old)
      | inr new ↦ (
        with_entry str md5 ip port key ix,
        insert_file_new str md5 ip port ix (λ _. short) new e,
        rw new (elim (Bool-cases (same_md5 md5 m)) [
          | inl same ↦ rw same (
              subst
                (λ d.
                  get_by_md5 d (with_entry str md5 ip port key ix)
                  ≡ create_new_md5_info (new_info str md5 ip port ix) ∷ get_by_md5 d ix)
                (same_bytes-eq 16 md5 m h k same)
                (get_by_md5_self md5 (new_info str md5 ip port ix) ix h))
          | inr apart ↦ rw apart (get_by_md5_other md5 (new_info str md5 ip port ix) ix m h apart)
        ]),
      )
    ]
