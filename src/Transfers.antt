-- ===== src/Transfers.antt =====
-- The queue of downloads: include/transfer_list.h and src/client/transfer_list.c. The list is given
-- by the data of its nodes in order, of which the model keeps the address and the digest.
pub mod Queue
pub mod Chunks
pub mod Parts
pub mod Sizes
pub mod Missing
pub mod Download
pub mod Info
use karmanet.Common.{ℕ, zero, suc, ◌+◌, ◌-◌, Option, none, some, List, [], ◌∷◌, if◌then◌else◌}
use karmanet.Common.Memory.{◌>>=◌, memcpy}
use karmanet.Common.Positions.{is_empty}
use karmanet.Wire.{SockaddrIn}

-- MD5_DIGEST_LENGTH
abbrev pub md5_digest_length : ℕ
md5_digest_length = 16

pub record TransferNode : Type 0 where
  pub addrto : SockaddrIn
  pub md5 : List ℕ

-- the global variables
pub record Downloads : Type 0 where
  pub download_list_head : List TransferNode
  pub download_count : ℕ

-- `raw` is the digest in the memory from `malloc`; `none` for a copy out of bounds
unfoldable pub new_download_node : List ℕ → SockaddrIn → List ℕ → Option TransferNode
new_download_node raw addr md5 = do
  d ← memcpy md5_digest_length md5 raw
  some (record { addrto = addr; md5 = d })

unfoldable pub insert_download : List ℕ → SockaddrIn → List ℕ → Downloads → Option Downloads
insert_download raw addr md5 s = do
  new_node ← new_download_node raw addr md5
  some (record {
    download_list_head = new_node ∷ s.download_list_head;
    download_count = (if is_empty s.download_list_head then 0 else s.download_count) + 1;
  })

-- The loop of `get_download` at the node `it`, for at most `fuel` rounds: `none` if it is still
-- running then. A round changes nothing.
unfoldable pub get_download_loop : ℕ → List TransferNode → Option (List TransferNode)
get_download_loop fuel [] = some []
get_download_loop fuel (n ∷ []) = some (n ∷ [])
get_download_loop zero (n ∷ m ∷ ns) = none
get_download_loop (suc fuel) (n ∷ m ∷ ns) = get_download_loop fuel (n ∷ m ∷ ns)

-- The node that is returned, if any, and the list; `none` while the loop is running. The loop
-- leaves `it` at the head, which `remove_node` then takes out.
unfoldable pub get_download : ℕ → Downloads → Option (Option TransferNode × Downloads)
get_download fuel s = do
  it ← get_download_loop fuel s.download_list_head
  some (elim it [
    | [] ↦ (none, s)
    | n ∷ ns ↦ (some n, record { download_list_head = ns; download_count = s.download_count - 1 })
  ])
