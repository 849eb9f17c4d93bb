-- ===== src/FileIndex/Invariant.antt =====
-- What the operations of src/client/hashtable.c keep, in whatever order they are called.
use mathlib.Core.Path.{subst}
use karmanet.Common.{
  ℕ, suc, ◌≤◌, ◌<◌, ◌≡◌, refl, sym, ◌∙◌, ◌≢◌, inl, inr, Bool, false, ◌||◌, Option, none, some, List,
  [], ◌∷◌, arith, ltb, ◌==◌, Bool-cases, Option-cases, length, take, All,
}
use karmanet.Common.Memory.{◌>>=◌}
use karmanet.Common.Positions.{is_empty}
use karmanet.FileIndex.{
  Index, FileInfo, FileNode, find, put, chain_insert, chain_remove, filehash, init_hashtable,
  remove_id, remove_file, remove_found, is_file, remove_entry, remove_file_info, remove_addr_node,
  remove_md5_info, is_alive, remove_all_loop, remove_all_file, files_at, insert_file, insert_entry,
  insert_ip_node, insert_md5_node, create_new_md5_node, create_new_md5_info, create_new_addr_node,
  file_node, iphash,
}
use karmanet.FileIndex.Chains.{put-All, All-map, All-chain_insert, All-chain_remove}
use karmanet.FileIndex.Digests.{
  is_shared, with_entry, insert_file_new, insert_file_shared, insert_file-entry, insert_file_long,
  entry_for,
}
use karmanet.FileIndex.Removal.{IsValid, Below, Distinct}

Distinct-chain_insert :
    (test : FileNode → Bool) (add : FileNode → FileNode) (new : FileNode) (ns : List FileNode)
    → ((n : FileNode) → (add n).id ≡ n.id)
    → Below new.id ns
    → Distinct ns
    → Distinct (chain_insert test add new ns)
unfolding chain_insert
Distinct-chain_insert test add new [] keep below d = (tt, tt)
Distinct-chain_insert test add new (n ∷ ns) keep below d = elim (Bool-cases (test n)) [
  | inl e ↦
      rw e
        (All-map (λ m. m.id ≢ n.id) (λ m. m.id ≢ (add n).id) ns (λ m h k. h (k ∙ keep n)) d.0, d.1)
  | inr e ↦ rw e (
    All-chain_insert (λ m. m.id ≢ n.id) test add new ns (λ m h k. h (sym (keep m) ∙ k))
        (omega arith) d.0,
    Distinct-chain_insert test add new ns keep below.1 d.1,
  )
]

Distinct-chain_remove :
    (meant : FileNode → Bool) (cut : FileNode → FileNode) (gone : FileNode → Bool)
    (ns : List FileNode)
    → ((n : FileNode) → (cut n).id ≡ n.id)
    → Distinct ns
    → Distinct (chain_remove meant cut gone ns)
unfolding chain_remove
Distinct-chain_remove meant cut gone [] keep d = tt
Distinct-chain_remove meant cut gone (n ∷ ns) keep d = elim (Bool-cases (meant n)) [
  | inl e ↦ elim (Bool-cases (gone (cut n))) [
    | inl g ↦ rw (e, g) d.1
    | inr g ↦
        rw (e, g)
          (
            All-map (λ m. m.id ≢ n.id) (λ m. m.id ≢ (cut n).id) ns (λ m h k. h (k ∙ keep n)) d.0,
            d.1,
          )
  ]
  | inr e ↦ rw e (
    All-chain_remove (λ m. m.id ≢ n.id) meant cut gone ns (λ m h _ k. h (sym (keep m) ∙ k)) d.0,
    Distinct-chain_remove meant cut gone ns keep d.1,
  )
]

pub init_hashtable-IsValid : IsValid init_hashtable
unfolding init_hashtable
init_hashtable-IsValid = record {
  files = λ _. tt;
  digests = λ _. tt;
  addresses = λ _. tt;
  placed = λ _. tt;
  below = λ _. tt;
  distinct = λ _. tt;
}

with_entry-IsValid :
    (str md5 : List ℕ) (ip port key : ℕ) (ix : Index)
    → IsValid ix
    → IsValid (with_entry str md5 ip port key ix)
unfolding create_new_addr_node file_node insert_md5_node create_new_md5_node create_new_md5_info
with_entry-IsValid str md5 ip port key ix v = record {
  files =
      put-All (λ _ ns. All (λ n. is_empty n.addr_list ≡ false) ns) ix.hash_file (filehash str) _
        v.files
        (All-chain_insert (λ n. is_empty n.addr_list ≡ false) _ _ _ (ix.hash_file (filehash str))
          (λ n h. refl) refl (v.files (filehash str)));
  digests =
      put-All (λ _ ns. All (λ n. is_empty n.md5_info ≡ false) ns) ix.hash_md5
        (filehash (take 16 md5)) _ v.digests
        (All-chain_insert (λ n. is_empty n.md5_info ≡ false) _ _ _
          (ix.hash_md5 (filehash (take 16 md5))) (λ n h. refl) refl
          (v.digests (filehash (take 16 md5))));
  addresses =
      put-All (λ _ ns. All (λ n. is_empty n.file_list ≡ false) ns) ix.hash_ip key _ v.addresses
        (All-chain_insert (λ n. is_empty n.file_list ≡ false) _ _ _ (ix.hash_ip key) (λ n h. refl)
          refl (v.addresses key));
  placed =
      put-All (λ k ns. All (λ n. filehash n.name ≡ k) ns) ix.hash_file (filehash str) _ v.placed
        (All-chain_insert (λ n. filehash n.name ≡ filehash str) _ _ _ (ix.hash_file (filehash str))
          (λ n h. h) refl (v.placed (filehash str)));
  below =
      put-All (λ _ ns. Below (suc ix.next_id) ns) ix.hash_file (filehash str) _ (λ k. raised k)
        (All-chain_insert (λ n. n.id < suc ix.next_id) _ _ _ (ix.hash_file (filehash str))
          (λ n h. h) (omega arith) (raised (filehash str)));
  distinct =
      put-All (λ _ ns. Distinct ns) ix.hash_file (filehash str) _ v.distinct
        (Distinct-chain_insert _ _ _ (ix.hash_file (filehash str)) (λ n. refl)
          (v.below (filehash str)) (v.distinct (filehash str)));
}
  where
    raised : (k : ℕ) → Below (suc ix.next_id) (ix.hash_file k)
    raised k =
        All-map (λ n. n.id < ix.next_id) (λ n. n.id < suc ix.next_id) (ix.hash_file k)
          (λ n h. omega arith) (v.below k)

name_short :
    (str md5 : List ℕ) (ip port : ℕ) (ix : Index) {ix' : Index}
    → insert_file str md5 ip port ix ≡ some ix'
    → entry_for str ix ≡ none
    → length str ≤ 254
name_short str md5 ip port ix h e = elim (Bool-cases (ltb 254 (length str))) [
  | inl long ↦
      let failed : insert_file str md5 ip port ix ≡ none =
        insert_file_long str md5 ip port ix e long in
      absurd (cc (h, failed))
  | inr fits ↦ not-long (length str) fits
]
  where
    not-long : (n : ℕ) → ltb 254 n ≡ false → n ≤ 254
    not-long n k = ground arith

insert_file-IsValid :
    (str md5 : List ℕ) (ip port : ℕ) (ix : Index) {ix' : Index}
    → IsValid ix
    → insert_file str md5 ip port ix ≡ some ix'
    → IsValid ix'
unfolding insert_entry insert_ip_node
insert_file-IsValid str md5 ip port ix {ix'} v h =
    elim (Bool-cases (is_shared str md5 ip port ix)) [
      | inl old ↦
          let same : ix ≡ ix' = cc (h, insert_file_shared str md5 ip port ix old) in
          subst IsValid same v
      | inr new ↦
          let short = name_short str md5 ip port ix h in
          elim (Option-cases (iphash ip)) [
            | inl e ↦
                let failed : insert_file str md5 ip port ix ≡ none =
                  insert_file-entry str md5 ip port ix short new ∙ rw e in
                absurd (cc (h, failed))
            | inr (key, e) ↦
                let same : with_entry str md5 ip port key ix ≡ ix' =
                  cc (h, insert_file_new str md5 ip port ix short new e) in
                subst IsValid same (with_entry-IsValid str md5 ip port key ix v)
          ]
    ]

without_entry : FileInfo → ℕ → Index → Index
without_entry info key ix = record ix {
  hash_file = remove_addr_node info.id info.file info.name ix.hash_file;
  hash_ip = put ix.hash_ip key (
      chain_remove (λ n. n.ip == info.ip)
        (λ n. record n { file_list = remove_id (λ i. i.id) info.id n.file_list })
        (λ n. is_empty n.file_list) (ix.hash_ip key));
  hash_md5 = remove_md5_info info.id info.md5 ix.hash_md5;
}

without_entry-IsValid :
    (info : FileInfo) (key : ℕ) (ix : Index) → IsValid ix → IsValid (without_entry info key ix)
unfolding without_entry remove_addr_node remove_md5_info
without_entry-IsValid info key ix v = record {
  files =
      put-All (λ _ ns. All (λ n. is_empty n.addr_list ≡ false) ns) ix.hash_file (filehash info.name)
        _ v.files
        (All-chain_remove (λ n. is_empty n.addr_list ≡ false) _ _ _
          (ix.hash_file (filehash info.name)) (λ n h g. g) (v.files (filehash info.name)));
  digests =
      put-All (λ _ ns. All (λ n. is_empty n.md5_info ≡ false) ns) ix.hash_md5 (filehash info.md5) _
        v.digests
        (All-chain_remove (λ n. is_empty n.md5_info ≡ false) _ _ _ (ix.hash_md5 (filehash info.md5))
          (λ n h g. g) (v.digests (filehash info.md5)));
  addresses =
      put-All (λ _ ns. All (λ n. is_empty n.file_list ≡ false) ns) ix.hash_ip key _ v.addresses
        (All-chain_remove (λ n. is_empty n.file_list ≡ false) _ _ _ (ix.hash_ip key) (λ n h g. g)
          (v.addresses key));
  placed =
      put-All (λ k ns. All (λ n. filehash n.name ≡ k) ns) ix.hash_file (filehash info.name) _
        v.placed
        (All-chain_remove (λ n. filehash n.name ≡ filehash info.name) _ _ _
          (ix.hash_file (filehash info.name)) (λ n h g. h) (v.placed (filehash info.name)));
  below =
      put-All (λ _ ns. Below ix.next_id ns) ix.hash_file (filehash info.name) _ v.below
        (All-chain_remove (λ n. n.id < ix.next_id) _ _ _ (ix.hash_file (filehash info.name))
          (λ n h g. h) (v.below (filehash info.name)));
  distinct =
      put-All (λ _ ns. Distinct ns) ix.hash_file (filehash info.name) _ v.distinct
        (Distinct-chain_remove _ _ _ (ix.hash_file (filehash info.name)) (λ n. refl)
          (v.distinct (filehash info.name)));
}

remove_entry-IsValid :
    (info : FileInfo) (ix : Index) {ix' : Index}
    → IsValid ix
    → remove_entry info ix ≡ some ix'
    → IsValid ix'
unfolding remove_entry remove_file_info without_entry
remove_entry-IsValid info ix {ix'} v h = elim (Option-cases (iphash info.ip)) [
  | inl e ↦ let failed : remove_entry info ix ≡ none = rw e in absurd (cc (h, failed))
  | inr (key, e) ↦
      let done : remove_entry info ix ≡ some (without_entry info key ix) = rw e in
      let same : without_entry info key ix ≡ ix' = cc (h, done) in
      subst IsValid same (without_entry-IsValid info key ix v)
]

remove_found-IsValid :
    (o : Option FileInfo) (ix : Index) {ix' : Index}
    → IsValid ix
    → remove_found o ix ≡ some ix'
    → IsValid ix'
remove_found-IsValid none ix v h = subst IsValid (cc) v
remove_found-IsValid (some info) ix v h = remove_entry-IsValid info ix v h

remove_file-IsValid :
    (ip port : ℕ) (str md5 : List ℕ) (ix : Index) {ix' : Index}
    → IsValid ix
    → remove_file ip port str md5 ix ≡ some ix'
    → IsValid ix'
unfolding remove_file
remove_file-IsValid ip port str md5 ix v h = elim (Option-cases (files_at ip ix)) [
  | inl e ↦ let h' : none ≡ some _ = rw e at h in absurd (cc)
  | inr (files, e) ↦ remove_found-IsValid (find (is_file port str md5) files) ix v (rw e at h)
]

remove_all_loop-IsValid :
    (kept : Bool) (port : ℕ) (it : List FileInfo) (ix : Index) {ix' : Index}
    → IsValid ix
    → remove_all_loop kept port it ix ≡ some ix'
    → IsValid ix'
unfolding remove_all_loop
remove_all_loop-IsValid kept port [] ix v h = subst IsValid (cc) v
remove_all_loop-IsValid kept port (i ∷ it) ix {ix'} v h = elim (Bool-cases (i.port == port)) [
  | inr e ↦ remove_all_loop-IsValid kept port it ix v (rw e at h)
  | inl e ↦ elim (Option-cases (remove_entry i ix)) [
    | inl f ↦ let h' : none ≡ some ix' = rw (e, f) at h in absurd (cc)
    | inr (next, f) ↦ elim (Bool-cases (is_alive i next || kept)) [
      | inr g ↦ let h' : none ≡ some ix' = rw (e, f, g) at h in absurd (cc)
      | inl g ↦
          let h' : remove_all_loop kept port it next ≡ some ix' = rw (e, f, g) at h in
          remove_all_loop-IsValid kept port it next (remove_entry-IsValid i ix v f) h'
    ]
  ]
]

remove_all_file-IsValid :
    (kept : Bool) (ip port : ℕ) (ix : Index) {ix' : Index}
    → IsValid ix
    → remove_all_file kept ip port ix ≡ some ix'
    → IsValid ix'
unfolding remove_all_file
remove_all_file-IsValid kept ip port ix {ix'} v h = elim (Option-cases (files_at ip ix)) [
  | inl e ↦ let h' : none ≡ some ix' = rw e at h in absurd (cc)
  | inr (files, e) ↦ remove_all_loop-IsValid kept port files ix v (rw e at h)
]

-- the calls of the superpeer
pub data Call : Type 0 where
  inserts : (str md5 : List ℕ) (ip port : ℕ) → Call
  removes : (ip port : ℕ) (str md5 : List ℕ) → Call
  removes_all : (kept : Bool) (ip port : ℕ) → Call

abbrev pub call : Call → Index → Option Index
call (inserts str md5 ip port) ix = insert_file str md5 ip port ix
call (removes ip port str md5) ix = remove_file ip port str md5 ix
call (removes_all kept ip port) ix = remove_all_file kept ip port ix

abbrev pub calls : List Call → Index → Option Index
calls [] ix = some ix
calls (c ∷ cs) ix = call c ix >>= λ ix'. calls cs ix'

call-IsValid :
    (c : Call) (ix : Index) {ix' : Index} → IsValid ix → call c ix ≡ some ix' → IsValid ix'
call-IsValid (inserts str md5 ip port) ix v h = insert_file-IsValid str md5 ip port ix v h
call-IsValid (removes ip port str md5) ix v h = remove_file-IsValid ip port str md5 ix v h
call-IsValid (removes_all kept ip port) ix v h = remove_all_file-IsValid kept ip port ix v h

calls-keep :
    (cs : List Call) (ix : Index) {ix' : Index} → IsValid ix → calls cs ix ≡ some ix' → IsValid ix'
calls-keep [] ix v h = subst IsValid (cc) v
calls-keep (c ∷ cs) ix {ix'} v h = elim (Option-cases (call c ix)) [
  | inl e ↦ let h' : none ≡ some ix' = rw e at h in absurd (cc)
  | inr (next, e) ↦ calls-keep cs next (call-IsValid c ix v e) (rw e at h)
]

-- Whatever insertions and removals are made from the empty tables on, as long as none leaves an
-- array or reads memory that is freed: no node of the three tables has an empty list, each file stands in the chain of the hash of
-- its name, and the nodes of the files of a chain are different ones.
pub calls-IsValid : (cs : List Call) {ix : Index} → calls cs init_hashtable ≡ some ix → IsValid ix
calls-IsValid cs h = calls-keep cs init_hashtable init_hashtable-IsValid h
