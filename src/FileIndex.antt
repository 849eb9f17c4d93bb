-- ===== src/FileIndex.antt =====
-- The superpeer's index of the files that its peers share: include/hashtable.h and
-- src/client/hashtable.c. A table is a function from the positions of its array to the chain of nodes
-- there, and a chain is given by the data of its nodes in order. One call of `insert_file` makes one
-- `addr_node`, one `file_info` and one `md5_info` that point at one another; they carry the number of
-- the call. A pointer to a node is the number of that node, with a copy of the fields read through it
-- that no assignment changes later. Pointers have four bytes, as a `long` has. A name is the list of
-- its bytes without the closing zero.
pub mod Hashes
pub mod Chains
pub mod Digests
pub mod Names
pub mod Removal
pub mod Invariant
use Prim.Native.Nat.{bit_xor}
use karmanet.Common.{
  ℕ, zero, suc, ◌+◌, ◌-◌, ◌*◌, ◌%◌, ◌^◌, Bool, true, false, ◌&&◌, ◌||◌, Option, none, some, List,
  [], ◌∷◌, ltb, ◌==◌, if◌then◌else◌, length, take,
}
use karmanet.Common.Memory.{◌>>=◌}
use karmanet.Common.Positions.{is_empty}
use karmanet.Wire.{same_bytes}

-- HASH_PRIME_NUMBER_FILE
abbrev pub hash_prime_number_file : ℕ
hash_prime_number_file = 30011

-- HASH_PRIME_NUMBER_PEER
abbrev pub hash_prime_number_peer : ℕ
hash_prime_number_peer = 211

-- MD5_DIGEST_LENGTH
abbrev pub md5_digest_length : ℕ
md5_digest_length = 16

pub record AddrNode : Type 0 where
  pub id : ℕ
  pub ip : ℕ
  pub port : ℕ
  pub md5 : List ℕ

pub record FileNode : Type 0 where
  pub id : ℕ
  pub name : List ℕ
  pub addr_list : List AddrNode

-- `name` is `file->name`; `ip`, `port` and `md5` are those of `addr`
pub record FileInfo : Type 0 where
  pub id : ℕ
  pub file : ℕ
  pub name : List ℕ
  pub ip : ℕ
  pub port : ℕ
  pub md5 : List ℕ

pub record Md5Info : Type 0 where
  pub id : ℕ
  pub info : FileInfo

pub record Md5Node : Type 0 where
  pub md5 : List ℕ
  pub md5_info : List Md5Info

pub record IpNode : Type 0 where
  pub ip : ℕ
  pub file_list : List FileInfo

-- the global variables, and the number of the next call of `insert_file`
pub record Index : Type 0 where
  pub hash_file : ℕ → List FileNode
  pub hash_ip : ℕ → List IpNode
  pub hash_md5 : ℕ → List Md5Node
  pub next_id : ℕ

abbrev pub init_hashtable : Index
init_hashtable = record {
  hash_file = λ key. [];
  hash_ip = λ key. [];
  hash_md5 = λ key. [];
  next_id = 0;
}

-- the hash functions

-- a `char` as an `unsigned int`: its sign is extended
abbrev pub char_value : ℕ → ℕ
char_value c = if ltb c 128 then c else c + (2 ^ 32 - 256)

unfoldable pub filehash_loop : ℕ → List ℕ → ℕ
filehash_loop hash [] = hash
filehash_loop hash (c ∷ str) =
    filehash_loop (bit_xor ((hash * 0x811C9DC5) % 2 ^ 32) (char_value c)) str

unfoldable pub filehash : List ℕ → ℕ
unfolding filehash_loop
filehash str = filehash_loop 0 str % hash_prime_number_file

-- The argument is a `long`, negative from 2 ^ 31 on, and so is the remainder then; `none` for a
-- negative result.
unfoldable pub iphash : ℕ → Option ℕ
iphash ip =
    if ltb ip (2 ^ 31)
    then some (ip % hash_prime_number_peer)
    else if (2 ^ 32 - ip) % hash_prime_number_peer == 0
    then some 0
    else none

-- `!strncmp(a, b, n)` on texts that end with a zero
unfoldable pub same_text : ℕ → List ℕ → List ℕ → Bool
same_text zero a b = true
same_text (suc n) [] [] = true
same_text (suc n) (x ∷ a) (y ∷ b) = (x == y) && same_text n a b
same_text (suc n) a b = false

-- `!strncmp(name, str, strlen(str))`
abbrev pub starts_with : List ℕ → List ℕ → Bool
starts_with name str = same_text (length str) name str

-- `!memcmp(a, b, MD5_DIGEST_LENGTH)`
abbrev pub same_md5 : List ℕ → List ℕ → Bool
same_md5 a b = same_bytes md5_digest_length a b

-- the chains

-- `table[key] = chain`
abbrev pub put {ℓ} : {A : Type ℓ} → (ℕ → List A) → ℕ → List A → ℕ → List A
put table key chain k = if k == key then chain else table k

-- the node at which the walk along a chain stops, if it passes the test
unfoldable pub find {ℓ} : {A : Type ℓ} → (A → Bool) → List A → Option A
find test [] = none
find test (n ∷ ns) = if test n then some n else find test ns

-- The insertions into a chain: the node that the walk finds is changed, and without one a new node
-- is put behind the last, or into the empty cell.
unfoldable pub chain_insert {ℓ} : {A : Type ℓ} → (A → Bool) → (A → A) → A → List A → List A
chain_insert test add new [] = new ∷ []
chain_insert test add new (n ∷ ns) = if test n then add n ∷ ns else n ∷ chain_insert test add new ns

-- The removals from a chain: the node that is meant is changed, and unlinked if `cut` then holds.
unfoldable pub chain_remove {ℓ} : {A : Type ℓ} → (A → Bool) → (A → A) → (A → Bool) → List A → List A
chain_remove test cut gone [] = []
chain_remove test cut gone (n ∷ ns) =
    if test n then if gone (cut n) then ns else cut n ∷ ns else n ∷ chain_remove test cut gone ns

-- insertion

-- `insert_ip_node`, with `create_new_ip_node` and `create_new_file_info`; `none` for an access
-- outside the array
unfoldable pub insert_ip_node : FileInfo → (ℕ → List IpNode) → Option (ℕ → List IpNode)
insert_ip_node info hash_ip = do
  key ← iphash info.ip
  some (
      put hash_ip key (
        chain_insert (λ n. n.ip == info.ip) (λ n. record n { file_list = info ∷ n.file_list })
          (record { ip = info.ip; file_list = info ∷ [] }) (hash_ip key)))

unfoldable pub create_new_md5_info : FileInfo → Md5Info
create_new_md5_info file_info = record { id = file_info.id; info = file_info }

unfoldable pub create_new_md5_node : List ℕ → FileInfo → Md5Node
unfolding create_new_md5_info
create_new_md5_node md5 file_info = record {
  md5 = take md5_digest_length md5;
  md5_info = create_new_md5_info file_info ∷ [];
}

unfoldable pub insert_md5_node : List ℕ → FileInfo → (ℕ → List Md5Node) → ℕ → List Md5Node
unfolding create_new_md5_node create_new_md5_info
insert_md5_node md5 file_info hash_md5 = put hash_md5 (filehash (take md5_digest_length md5)) (
    chain_insert (λ n. same_md5 md5 n.md5)
      (λ n. record n { md5_info = create_new_md5_info file_info ∷ n.md5_info })
      (create_new_md5_node md5 file_info) (hash_md5 (filehash (take md5_digest_length md5))))

unfoldable pub create_new_addr_node : ℕ → ℕ → ℕ → List ℕ → AddrNode
create_new_addr_node id ip port md5 = record { id = id; ip = ip; port = port; md5 = md5 }

-- the data of a new node of a file
unfoldable pub file_node : ℕ → List ℕ → ℕ → ℕ → List ℕ → FileNode
unfolding create_new_addr_node
file_node id str ip port md5 = record {
  id = id;
  name = str;
  addr_list = create_new_addr_node id ip port md5 ∷ [];
}

-- The name and its zero are written to an array of 255 bytes; `none` for a longer one.
unfoldable pub create_new_file_node : ℕ → List ℕ → ℕ → ℕ → List ℕ → Option FileNode
unfolding file_node
create_new_file_node id str ip port md5 =
    if ltb 254 (length str) then none else some (file_node id str ip port md5)

-- whether the walk over the addresses of a file returns
unfoldable pub has_addr : ℕ → ℕ → List ℕ → List AddrNode → Bool
has_addr ip port md5 [] = false
has_addr ip port md5 (a ∷ rest) =
    ((a.ip == ip) && (a.port == port) && same_md5 a.md5 md5) || has_addr ip port md5 rest

module _ (str md5 : List ℕ) (ip port : ℕ) where
  -- What the three branches share: the chain of the file is written, and the other two tables get
  -- their nodes. `file` and `name` are those of the file's node, and `new` is the node that is linked
  -- if the walk finds none.
  unfoldable pub insert_entry : ℕ → List ℕ → FileNode → Index → Option Index
  insert_entry file name new ix = do
    let digest = take md5_digest_length md5
    let info : FileInfo = record {
      id = ix.next_id;
      file = file;
      name = name;
      ip = ip;
      port = port;
      md5 = digest;
    }
    let addr = create_new_addr_node ix.next_id ip port digest
    hash_ip ← insert_ip_node info ix.hash_ip
    some (record {
      hash_file = put ix.hash_file (filehash str) (
          chain_insert (λ n. starts_with n.name str)
            (λ n. record n { addr_list = addr ∷ n.addr_list }) new (ix.hash_file (filehash str)));
      hash_ip = hash_ip;
      hash_md5 = insert_md5_node md5 info ix.hash_md5;
      next_id = suc ix.next_id;
    })

  unfoldable pub insert_file : Index → Option Index
  unfolding create_new_file_node
  insert_file ix = elim (find (λ n. starts_with n.name str) (ix.hash_file (filehash str))) [
    | none ↦ create_new_file_node ix.next_id str ip port (take md5_digest_length md5) >>= λ new.
        insert_entry ix.next_id str new ix
    | some n ↦ if has_addr ip port md5 n.addr_list then some ix else insert_entry n.id n.name n ix
  ]

-- lookup, `[]` for NULL

abbrev pub addrs_of : Option FileNode → List AddrNode
addrs_of none = []
addrs_of (some n) = n.addr_list

abbrev pub infos_of : Option Md5Node → List Md5Info
infos_of none = []
infos_of (some n) = n.md5_info

-- `sizeof(file_name)` is the size of a pointer
unfoldable pub get_by_name : List ℕ → Index → List AddrNode
get_by_name file_name ix =
    addrs_of (find (λ n. same_text 4 n.name file_name) (ix.hash_file (filehash file_name)))

unfoldable pub get_by_md5 : List ℕ → Index → List Md5Info
get_by_md5 md5 ix =
    infos_of (find (λ n. same_md5 n.md5 md5) (ix.hash_md5 (filehash (take md5_digest_length md5))))

-- removal

abbrev pub remove_id {ℓ} : {A : Type ℓ} → (A → ℕ) → ℕ → List A → List A
remove_id key id [] = []
remove_id key id (x ∷ xs) = if key x == id then xs else x ∷ remove_id key id xs

-- `remove_md5_info`, with `remove_md5_node` when the list of the node becomes empty
unfoldable pub remove_md5_info : ℕ → List ℕ → (ℕ → List Md5Node) → ℕ → List Md5Node
remove_md5_info id md5 hash_md5 = put hash_md5 (filehash md5) (
    chain_remove (λ n. same_md5 n.md5 md5)
      (λ n. record n { md5_info = remove_id (λ i. i.id) id n.md5_info }) (λ n. is_empty n.md5_info)
      (hash_md5 (filehash md5)))

-- `remove_addr_node`, with `remove_file_node`; `file` and `name` are those of the file's node
unfoldable pub remove_addr_node : ℕ → ℕ → List ℕ → (ℕ → List FileNode) → ℕ → List FileNode
remove_addr_node id file name hash_file = put hash_file (filehash name) (
    chain_remove (λ n. n.id == file)
      (λ n. record n { addr_list = remove_id (λ a. a.id) id n.addr_list })
      (λ n. is_empty n.addr_list) (hash_file (filehash name)))

-- `remove_file_info`, with `remove_ip_node`
unfoldable pub remove_file_info : ℕ → ℕ → (ℕ → List IpNode) → Option (ℕ → List IpNode)
remove_file_info id ip hash_ip = do
  key ← iphash ip
  some (
      put hash_ip key (
        chain_remove (λ n. n.ip == ip)
          (λ n. record n { file_list = remove_id (λ i. i.id) id n.file_list })
          (λ n. is_empty n.file_list) (hash_ip key)))

-- the three calls for one `file_info`
unfoldable pub remove_entry : FileInfo → Index → Option Index
remove_entry info ix = do
  hash_ip ← remove_file_info info.id info.ip ix.hash_ip
  some (record ix {
    hash_file = remove_addr_node info.id info.file info.name ix.hash_file;
    hash_ip = hash_ip;
    hash_md5 = remove_md5_info info.id info.md5 ix.hash_md5;
  })

abbrev pub files_of : Option IpNode → List FileInfo
files_of none = []
files_of (some n) = n.file_list

-- the nodes of an address; the walk does not find any if there is no node for the address
unfoldable pub files_at : ℕ → Index → Option (List FileInfo)
files_at ip ix = do key ← iphash ip; some (files_of (find (λ n. n.ip == ip) (ix.hash_ip key)))

-- the end of `remove_file`, after its second walk
abbrev pub remove_found : Option FileInfo → Index → Option Index
remove_found none ix = some ix
remove_found (some info) ix = remove_entry info ix

-- what that walk compares
abbrev pub is_file : ℕ → List ℕ → List ℕ → FileInfo → Bool
is_file port str md5 i = starts_with i.name str && (i.port == port) && same_md5 i.md5 md5

unfoldable pub remove_file : ℕ → ℕ → List ℕ → List ℕ → Index → Option Index
remove_file ip port str md5 ix = do
  files ← files_at ip ix
  remove_found (find (is_file port str md5) files) ix

-- whether the node of `info` is still in the list of its address, so that its memory is not freed
unfoldable pub is_linked : ℕ → List FileInfo → Bool
is_linked id [] = false
is_linked id (i ∷ is) = (i.id == id) || is_linked id is

abbrev pub is_alive : FileInfo → Index → Bool
is_alive info ix = elim (files_at info.ip ix) [
  | none ↦ false
  | some files ↦ is_linked info.id files
]

-- The loop goes on with `next` of the node that it looked at, which `remove_file_info` frees when it
-- takes it off its list. `kept` says that freed memory still holds the pointer; where it does not,
-- the read is undefined behaviour.
unfoldable pub remove_all_loop : Bool → ℕ → List FileInfo → Index → Option Index
unfolding is_linked
remove_all_loop kept port [] ix = some ix
remove_all_loop kept port (i ∷ it) ix =
    if i.port == port
    then (remove_entry i ix >>= λ ix'.
        if is_alive i ix' || kept then remove_all_loop kept port it ix' else none)
    else remove_all_loop kept port it ix

unfoldable pub remove_all_file : Bool → ℕ → ℕ → Index → Option Index
remove_all_file kept ip port ix = files_at ip ix >>= λ files. remove_all_loop kept port files ix
