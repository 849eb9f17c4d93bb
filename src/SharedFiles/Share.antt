-- ===== src/SharedFiles/Share.antt =====
-- `send_share` of src/client/client.c, by which a peer sends the lines of its file of changes to its
-- superpeer, and `readline` of src/common/ioutil.c. The file is the list of its bytes, with the
-- position at which the next read begins; reads and the calls of `retx_send` are taken to succeed.
-- `out` is what the array `tmp` holds behind the port, `count` bytes.
use karmanet.Common.{
  ℕ, zero, suc, ◌+◌, ◌-◌, Bool, true, false, not, Option, none, some, List, [], ◌∷◌, ◌++◌, ltb, leb,
  ◌==◌, if◌then◌else◌, length, take, drop,
}
use karmanet.Common.Memory.{◌>>=◌}
use karmanet.Wire.{stob}
use karmanet.SharedFiles.{md5_digest_length, Added, add_files}

-- MAXLINE
abbrev pub maxline : ℕ
maxline = 1024

-- what `readline` leaves: its result, the bytes without the zero behind them, and how many were read
pub record Read : Type 0 where
  pub n : ℕ
  pub bytes : List ℕ

-- The loop of `readline` with `left` rounds left. At its end and at the end of the file `n` is one
-- more than the number of the bytes.
unfoldable pub readline_loop : ℕ → List ℕ → Read
readline_loop zero file = record { n = 1; bytes = [] }
readline_loop (suc left) [] = record { n = 1; bytes = [] }
readline_loop (suc left) (c ∷ file) =
    let more = readline_loop left file in
    if c == b'\n'
    then record { n = 1; bytes = c ∷ [] }
    else record { n = suc more.n; bytes = c ∷ more.bytes }

unfoldable pub readline : ℕ → List ℕ → Read
unfolding readline_loop
readline maxlen [] = record { n = 0; bytes = [] }
readline maxlen (c ∷ file) = readline_loop (maxlen - 1) (c ∷ file)

-- `lseek(fd, -k, SEEK_CUR)`, which fails before the beginning of the file
abbrev pub back : ℕ → ℕ → ℕ
back k pos = if leb k pos then pos - k else pos

-- the data of the packets, and whether the result is 0
pub record Shared : Type 0 where
  pub packets : List (List ℕ)
  pub ok : Bool

abbrev pub with_packet : List ℕ → Shared → Shared
with_packet p s = record { packets = p ∷ s.packets; ok = s.ok }

module _ (port : ℕ) (file : List ℕ) where
  -- the data of a packet
  abbrev pub share_data : List ℕ → List ℕ
  share_data out = stob port ++ out

  -- One round, where `head` are the bytes that `read` gets, `r` is what `readline` then leaves, and
  -- `go` is the rest of the loop. A line that does not fit is read again for the next packet.
  unfoldable pub share_step :
      (ℕ → List ℕ → Option Shared) → ℕ → List ℕ → List ℕ → Read → Option Shared
  share_step go pos out head r =
      let size = r.n + md5_digest_length + 1 in
      let after = pos + length head + length r.bytes in
      if length head == 0
      then some
          (record { packets = if ltb 0 (length out) then share_data out ∷ [] else []; ok = true })
      else if not (length head == md5_digest_length + 1)
      then some (record { packets = []; ok = false })
      else if ltb (length out + length head) (maxline - 2)
      then if r.n == 0
        then some (record { packets = []; ok = false })
        else if ltb (length out + size) (maxline - 2)
        then go after (out ++ (head ++ take r.n (r.bytes ++ 0 ∷ [])))
        else (go (back size after) [] >>= λ s. some (with_packet (share_data out) s))
      else (go (back (length head) (pos + length head)) [] >>= λ s.
          some (with_packet (share_data out) s))

  -- The loop goes back in the file, and so runs on fuel.
  unfoldable pub share_loop : ℕ → ℕ → List ℕ → Option Shared
  unfolding share_step
  share_loop zero pos out = none
  share_loop (suc fuel) pos out =
      let go = share_loop fuel in
      share_step go pos out (take (md5_digest_length + 1) (drop pos file))
        (readline 255 (drop (pos + (md5_digest_length + 1)) file))

  unfoldable pub send_share : ℕ → Option Shared
  unfolding share_loop
  send_share fuel = share_loop fuel 0 []

-- The end of `update_file_list_handler`: the calls of `add_files` for the data of a packet, behind
-- the port.
unfoldable pub update_file_list : List ℕ → Option Added
update_file_list pck_data = add_files (drop 2 pck_data) (length pck_data - 2)
