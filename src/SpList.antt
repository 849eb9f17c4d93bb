-- ===== src/SpList.antt =====
-- The bootstrap server's list of superpeers: include/sp_list.h, src/bootstrap/sp_list.c and the
-- critical sections of src/bootstrap/sp_list_checker.c. The list is given by its cells in order,
-- each the address of its node and the data that the node points to (`DList` relates such cells to
-- linked memory), because `it_addr` points into it.
pub mod Shape
pub mod Invariant
pub mod Expiry
pub mod Free
pub mod Rotation
pub mod Iterator
pub mod Walk
pub mod Cells
use karmanet.Common.{
  ℕ, ◌+◌, ◌-◌, not, ◌||◌, Option, none, some, List, [], ◌∷◌, ltb, leb, ◌==◌, if◌then◌else◌,
}
use karmanet.DList.{Ptr, null}
use karmanet.Wire.{SockaddrIn, addrcmp}

pub record SpaddrNode : Type 0 where
  pub sp_addr : SockaddrIn
  pub free_spots : ℕ
  pub flag : ℕ

abbrev pub Entries : Type 0
Entries = List (Ptr × SpaddrNode)

-- the global variables
pub record SpState : Type 0 where
  pub sp_list : Entries
  pub it_addr : Ptr
  pub sp_count : ℕ

-- reading and updating the list at a node

abbrev pub head : Entries → Ptr
head [] = null
head ((p, n) ∷ xs) = p

unfoldable pub node_at : Ptr → Entries → Option SpaddrNode
node_at p [] = none
node_at p ((q, n) ∷ xs) = if q == p then some n else node_at p xs

unfoldable pub next_of : Ptr → Entries → Ptr
next_of p [] = null
next_of p ((q, n) ∷ xs) = if q == p then head xs else next_of p xs

-- `b` is the node before `xs`
unfoldable pub prev_of : Ptr → Ptr → Entries → Ptr
prev_of b p [] = null
prev_of b p ((q, n) ∷ xs) = if q == p then b else prev_of q p xs

unfoldable pub erase : Ptr → Entries → Entries
erase p [] = []
erase p ((q, n) ∷ xs) = if q == p then xs else (q, n) ∷ erase p xs

unfoldable pub modify : Ptr → (SpaddrNode → SpaddrNode) → Entries → Entries
modify p f [] = []
modify p f ((q, n) ∷ xs) = if q == p then (q, f n) ∷ xs else (q, n) ∷ modify p f xs

-- sp_list.c

unfoldable pub get_node_sp : SockaddrIn → Entries → Ptr
get_node_sp sp_addr [] = null
get_node_sp sp_addr ((p, n) ∷ xs) = if addrcmp n.sp_addr sp_addr then p else get_node_sp sp_addr xs

abbrev raise_flag : SpaddrNode → SpaddrNode
raise_flag n = record n { flag = 1 }

-- `fresh` is the node that `insert_node` allocates
unfoldable pub insert_sp : Ptr → SockaddrIn → ℕ → SpState → SpState
insert_sp fresh sp_addr free_spots s =
    let count = if head s.sp_list == null then 0 else s.sp_count in
    let found = get_node_sp sp_addr s.sp_list in
    if found == null
    then record {
      sp_list =
          (fresh, record { sp_addr = sp_addr; free_spots = free_spots; flag = 1 }) ∷ s.sp_list;
      it_addr = if s.it_addr == null then fresh else s.it_addr;
      sp_count = count + 1;
    }
    else record s { sp_list = modify found raise_flag s.sp_list; sp_count = count }

unfoldable pub remove_sp_node : Ptr → SpState → SpState
remove_sp_node sp_node s =
    if (sp_node == null) || (head s.sp_list == null)
    then s
    else record s { sp_list = erase sp_node s.sp_list; sp_count = s.sp_count - 1 }

-- where the iterator goes when its own node is removed
unfoldable pub move_iterator : Ptr → Entries → Ptr
move_iterator p xs =
    if not (next_of p xs == null)
    then next_of p xs
    else if not (prev_of null p xs == null)
    then prev_of null p xs
    else null

unfoldable pub remove_sp : SockaddrIn → SpState → SpState
remove_sp sp_addr s =
    let p = get_node_sp sp_addr s.sp_list in
    if p == null
    then s
    else remove_sp_node p
        (record s { it_addr = if s.it_addr == p then move_iterator p s.sp_list else s.it_addr })

-- `none` where `it_addr` is NULL or points to no node
unfoldable pub get_addr : SpState → Option (SockaddrIn × SpState)
get_addr s = elim (node_at s.it_addr s.sp_list) [
  | none ↦ none
  | some n ↦
      let after = next_of s.it_addr s.sp_list in
      some (n.sp_addr, record s { it_addr = if not (after == null) then after else head s.sp_list })
]

-- The data pointers of the new list, which is built by insertion at its head, and `*dim`.
get_addr_sp_loop : ℕ → Entries → List SpaddrNode → ℕ → List SpaddrNode × ℕ
get_addr_sp_loop addr_to_send [] ret dim = (ret, dim)
get_addr_sp_loop addr_to_send ((p, n) ∷ it) ret dim =
    let taken = get_addr_sp_loop addr_to_send it (n ∷ ret) (dim + 1) in
    let skipped = get_addr_sp_loop addr_to_send it ret dim in
    if ltb 0 n.free_spots
    then if leb addr_to_send (dim + 1) then (n ∷ ret, dim + 1) else taken
    else skipped

unfoldable pub get_addr_sp : ℕ → SpState → List SpaddrNode × ℕ
unfolding get_addr_sp_loop
get_addr_sp addr_to_send s = get_addr_sp_loop addr_to_send s.sp_list [] 0

-- `free_list_sp`, one round for each node; `it_addr` is not reset
free_list_sp_loop : Entries → SpState → SpState
free_list_sp_loop [] s = s
free_list_sp_loop (x ∷ rounds) s = free_list_sp_loop rounds (remove_sp_node (head s.sp_list) s)

unfoldable pub free_list_sp : SpState → SpState
unfolding free_list_sp_loop
free_list_sp s = free_list_sp_loop s.sp_list s

-- sp_list_checker.c

abbrev clear_flag : SpaddrNode → SpaddrNode
clear_flag n = record n { flag = 0 }

-- one round of the loop of `sp_list_checker_func`, at the node `p`
check_node : Ptr → SpaddrNode → SpState → SpState
check_node p n s =
    if n.flag == 0
    then remove_sp n.sp_addr s
    else record s { sp_list = modify p clear_flag s.sp_list }

-- The loop under its lock; `it` is what is left of the list, whose nodes a round before does not
-- change.
check_loop : Entries → SpState → SpState
check_loop [] s = s
check_loop ((p, n) ∷ it) s = check_loop it (check_node p n s)

unfoldable pub check : SpState → SpState
unfolding check_loop check_node
check s = check_loop s.sp_list s

-- `none` for the result -1, an address that is not in the list
unfoldable pub update_sp_flag : SockaddrIn → ℕ → SpState → Option SpState
update_sp_flag sp_addr free_spots s =
    let p = get_node_sp sp_addr s.sp_list in
    if p == null
    then none
    else some (record s {
      sp_list = modify p (λ n. record n { flag = 1; free_spots = free_spots }) s.sp_list;
    })
