-- ===== src/Tests/Transfers.antt =====
-- A download of a file of two chunks that is taken up again with the first chunk on disk.
use karmanet.Common.{ℕ, true, none, some, List, ltb, if◌then◌else◌, replicate}
use karmanet.Transfers.Chunks.{Disks, Disk}

abbrev sevens : List ℕ
sevens = replicate 600000 7

abbrev first_chunk : Disk
first_chunk i = if ltb i 512000 then some 7 else none

-- no error, and each file has 600000 bytes
abbrev disks : Disks
disks = record { saved = λ c. true; end_of = λ out. 600000; removed = true }
