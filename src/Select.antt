-- ===== src/Select.antt =====
-- The descriptors that the client waits for: include/select_util.h and src/client/select_util.c.
-- An entry of `fds` that holds -1 is `none`, as is -1 for `maxd`. `allset` says which bits of the
-- `fd_set` are set; the descriptors are those of open files, below FD_SETSIZE.
pub mod Bookkeeping
pub mod Maximum
use karmanet.Common.{
  ℕ, ◌+◌, Bool, true, false, Option, none, some, List, [], ◌∷◌, ltb, leb, ◌==◌, if◌then◌else◌,
  replicate,
}
use karmanet.Common.Memory.{◌>>=◌}

-- MAX_FD_SIZE
abbrev pub max_fd_size : ℕ
max_fd_size = 9

-- the global variables
pub record FdState : Type 0 where
  pub maxd : Option ℕ
  pub fds : List (Option ℕ)
  pub fd_count : ℕ
  pub allset : ℕ → Bool

unfoldable pub fd_init : FdState
fd_init = record {
  maxd = none;
  fds = replicate max_fd_size none;
  fd_count = 0;
  allset = λ fd. false;
}

-- the larger of the two, as the comparisons with `maxd` choose it
abbrev pub later : Option ℕ → ℕ → Option ℕ
later none fd = some fd
later (some m) fd = if ltb m fd then some fd else some m

-- the loop of `fd_add`: `none` if no entry is free
unfoldable pub put_fd : ℕ → List (Option ℕ) → Option (List (Option ℕ))
put_fd fd [] = none
put_fd fd (none ∷ fds) = some (some fd ∷ fds)
put_fd fd (some d ∷ fds) = put_fd fd fds >>= λ l. some (some d ∷ l)

-- `none` for the result -1
unfoldable pub fd_add : ℕ → FdState → Option FdState
fd_add fd s =
    if leb max_fd_size s.fd_count
    then none
    else let marked = record s {
      allset = λ d. if d == fd then true else s.allset d;
      maxd = later s.maxd fd;
    } in
      some (elim (put_fd fd s.fds) [
        | none ↦ marked
        | some fds ↦ record marked { fds = fds; fd_count = s.fd_count + 1 }
      ])

-- the first loop of `fd_remove`
unfoldable pub clear_fd : ℕ → List (Option ℕ) → List (Option ℕ)
clear_fd fd [] = []
clear_fd fd (none ∷ fds) = none ∷ clear_fd fd fds
clear_fd fd (some d ∷ fds) = if d == fd then none ∷ fds else some d ∷ clear_fd fd fds

-- its second loop
unfoldable pub find_maxd : Option ℕ → List (Option ℕ) → Option ℕ
find_maxd maxd [] = maxd
find_maxd maxd (none ∷ fds) = find_maxd maxd fds
find_maxd maxd (some d ∷ fds) = find_maxd (later maxd d) fds

abbrev pub is_maxd : Option ℕ → ℕ → Bool
is_maxd none fd = false
is_maxd (some m) fd = fd == m

unfoldable pub fd_remove : ℕ → FdState → FdState
fd_remove fd s =
    let fds = clear_fd fd s.fds in
    record s {
      allset = λ d. if d == fd then false else s.allset d;
      fds = fds;
      maxd = if is_maxd s.maxd fd then find_maxd none fds else s.maxd;
    }
