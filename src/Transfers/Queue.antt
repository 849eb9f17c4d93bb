-- ===== src/Transfers/Queue.antt =====
-- What `get_download` returns, and when.
use karmanet.Common.{ℕ, zero, suc, ◌≡◌, refl, none, List, ◌∷◌}
use karmanet.Transfers.{TransferNode, Downloads, get_download_loop, get_download}

loop-none :
    (fuel : ℕ) (n m : TransferNode) (ns : List TransferNode)
    → get_download_loop fuel (n ∷ m ∷ ns) ≡ none
unfolding get_download_loop
loop-none zero n m ns = refl
loop-none (suc fuel) n m ns = loop-none fuel n m ns

-- `get_download` never returns when two downloads or more are waiting, however long it runs.
pub get_download-none :
    (fuel : ℕ) (s : Downloads) (n m : TransferNode) (ns : List TransferNode)
    → s.download_list_head ≡ n ∷ m ∷ ns
    → get_download fuel s ≡ none
unfolding get_download
get_download-none fuel s n m ns e = rw (e, loop-none fuel n m ns) refl
