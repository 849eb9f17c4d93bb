-- ===== src/Transfers/Chunks.antt =====
-- The chunks of a file: get_file_info, send_chunk and get_part_number of src/client/uploader.c, and
-- get_missing_chunk, download and get_chunk of src/client/downloader.c. The file of the uploader is
-- the list of its bytes, and that of the downloader a function from positions to bytes, `none` where
-- nothing was written. TCP brings what is sent, in order; when the uploader stops, the downloader
-- reads the end of the connection. The model is of files of fewer than 2^31 bytes: no number here
-- passes that size, and an index fits the 16 bits of a packet. Errors of the sockets, and of
-- `read` and `write`, are not in the model, nor is the form of the file of the parts.
use karmanet.Common.Memory.{◌>>=◌}
use karmanet.Common.{
  ℕ, zero, suc, ◌+◌, ◌-◌, ◌*◌, ◌/◌, ◌%◌, Bool, true, false, not, ◌&&◌, ◌||◌, Option, none, some,
  List, [], ◌∷◌, ltb, leb, ◌==◌, if◌then◌else◌, length, take, drop,
}

-- CHUNK_SIZE
abbrev pub chunk_size : ℕ
chunk_size = 512000

-- MAXLINE
abbrev pub maxline : ℕ
maxline = 1024

-- the numbers of `struct transfer_info`
pub record TransferInfo : Type 0 where
  pub file_size : ℕ
  pub chunk_number : ℕ

unfoldable pub get_file_info : List ℕ → TransferInfo
get_file_info file = record {
  file_size = length file;
  chunk_number =
      if length file % chunk_size == 0
      then length file / chunk_size
      else length file / chunk_size + 1;
}

-- how many parts `left` bytes make
abbrev pub parts_of : ℕ → ℕ
parts_of left = if left % maxline == 0 then left / maxline else left / maxline + 1

unfoldable pub get_part_number : ℕ → TransferInfo → ℕ
get_part_number chunk_number info =
    if chunk_number + 1 == info.chunk_number
    then parts_of (info.file_size - chunk_number * chunk_size)
    else chunk_size / maxline

-- a packet DAT: its index, the flag for a further part, and its data
pub record Part : Type 0 where
  pub index : ℕ
  pub next_chunk : Bool
  pub bytes : List ℕ

-- the packets that were sent, and whether the result is 0
pub record SentChunk : Type 0 where
  pub parts : List Part
  pub ok : Bool

abbrev pub with_part : Part → SentChunk → SentChunk
with_part p s = record { parts = p ∷ s.parts; ok = s.ok }

-- the loop, with the parts that are left and what is left of the file
unfoldable pub send_parts : ℕ → ℕ → List ℕ → SentChunk
send_parts index zero rest = record { parts = []; ok = true }
send_parts index (suc left) rest =
    let further = send_parts index left (drop maxline rest) in
    let bytes = take maxline rest in
    if length bytes == 0
    then record { parts = []; ok = false }
    else if left == 0
    then with_part (record { index = index; next_chunk = false; bytes = bytes }) further
    else if not (length bytes == maxline)
    then record { parts = []; ok = false }
    else with_part (record { index = index; next_chunk = true; bytes = bytes }) further

unfoldable pub send_chunk : List ℕ → ℕ → SentChunk
unfolding send_parts
send_chunk file chunk_index =
    send_parts chunk_index (get_part_number chunk_index (get_file_info file))
      (drop (chunk_index * chunk_size) file)

-- downloader.c

abbrev pub byte_at : List ℕ → ℕ → Option ℕ
byte_at [] i = none
byte_at (b ∷ bs) zero = some b
byte_at (b ∷ bs) (suc i) = byte_at bs i

abbrev pub Disk : Type 0
Disk = ℕ → Option ℕ

-- `write` at a position
abbrev pub write : ℕ → List ℕ → Disk → Disk
write pos bytes out i =
    if leb pos i && ltb i (pos + length bytes) then byte_at bytes (i - pos) else out i

-- the file, and whether the result is 0
pub record Received : Type 0 where
  pub out : Disk
  pub ok : Bool

-- the loop of `get_chunk` over the packets that come
unfoldable pub receive_parts : ℕ → ℕ → List Part → Disk → Received
receive_parts index pos [] out = record { out = out; ok = false }
receive_parts index pos (p ∷ parts) out =
    let written = write pos p.bytes out in
    let further = receive_parts index (pos + length p.bytes) parts written in
    if not (p.index == index)
    then record { out = out; ok = false }
    else if p.next_chunk
    then further
    else record { out = written; ok = true }

-- one chunk, which the uploader sends from `file`
unfoldable pub get_chunk : List ℕ → ℕ → Disk → Received
unfolding receive_parts
get_chunk file missing_chunk out =
    receive_parts missing_chunk (missing_chunk * chunk_size) (send_chunk file missing_chunk).parts
      out

-- What the disk does in a download: whether `write_filepart` succeeds for a chunk, where `lseek`
-- finds the end of the file, and whether `remove_filepart` succeeds.
pub record Disks : Type 0 where
  pub saved : ℕ → Bool
  pub end_of : Disk → ℕ
  pub removed : Bool

-- The loop of `download` with `left` rounds left; `none` where the array was not written.
unfoldable pub download_loop : List ℕ → Disks → ℕ → List ℕ → Disk → Option Received
download_loop file disks zero missing_chunk out = some (record { out = out; ok = true })
download_loop file disks (suc left) [] out = none
download_loop file disks (suc left) (c ∷ missing_chunk) out =
    let r = get_chunk file c out in
    let further = download_loop file disks left missing_chunk r.out in
    if not r.ok
    then some r
    else if not (disks.saved c)
    then some (record { out = r.out; ok = false })
    else further

-- `my_chunk_number` is the number before the loop, which counts it up in each round
unfoldable pub download : List ℕ → Disks → TransferInfo → List ℕ → ℕ → ℕ → Disk → Option Received
unfolding download_loop
download file disks info missing_chunk miss_chunk_number my_chunk_number out =
    download_loop file disks miss_chunk_number missing_chunk out >>= λ r.
    if not r.ok
    then some r
    else if (disks.end_of r.out == info.file_size)
        && (my_chunk_number + miss_chunk_number == info.chunk_number)
    then some (record { out = r.out; ok = disks.removed })
    else some r

-- `i` is one of the numbers
abbrev pub has : ℕ → List ℕ → Bool
has i [] = false
has i (c ∷ cs) = (i == c) || has i cs

-- the loop of `get_missing_chunk` with `left` rounds left
unfoldable pub missing_from : ℕ → ℕ → List ℕ → List ℕ
missing_from zero i my_chunk = []
missing_from (suc left) i my_chunk =
    let further = missing_from left (suc i) my_chunk in
    if has i my_chunk then further else i ∷ further

-- The array has `miss_chunk_number` numbers; `none` for a write past its end. `my_chunk` is what the
-- file of the parts holds.
unfoldable pub get_missing_chunk : ℕ → List ℕ → ℕ → Option (List ℕ)
unfolding missing_from
get_missing_chunk chunk_number my_chunk miss_chunk_number =
    let missing_chunk = missing_from chunk_number 0 my_chunk in
    if ltb miss_chunk_number (length missing_chunk) then none else some missing_chunk
