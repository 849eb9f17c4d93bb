-- ===== src/Tests/Files.antt =====
-- Two lines of a list of shared files.
use karmanet.Common.{
  ℕ, zero, suc, ◌<◌, ◌≡◌, refl, true, false, none, some, List, [], ◌∷◌, arith, ◌==◌, length,
  replicate, All,
}
use karmanet.SharedFiles.{insert, remove, Line, add_files}
use karmanet.SharedFiles.Share.{maxline, send_share}
use karmanet.SharedFiles.Sent.{told, send_share-Sent}
use karmanet.SharedFiles.Own.{IsOwn, add_sp_file, add_sp_file-add_files}
use karmanet.SharedFiles.Lines.{bytes_of, IsLine, written}

abbrev two_lines : List Line
two_lines =
    record { op = insert; md5 = replicate 16 7; name = 97 ∷ 98 ∷ [] }
    ∷ record { op = remove; md5 = replicate 16 10; name = 99 ∷ [] }
    ∷ []

two_lines-IsLine : All IsLine two_lines
two_lines-IsLine = (
  record { md5 = refl; short = omega arith; name = (refl, (refl, tt)) },
  (record { md5 = refl; short = omega arith; name = (refl, tt) }, tt),
)

send_share-Sent_example :
    (file : List ℕ) × (written two_lines ≡ some file)
    × (packets : List (List ℕ)) × (send_share 5000 file 5
        ≡ some (record { packets = packets; ok = true }))
    × (told packets ≡ some two_lines)
    × All (λ p. length p < maxline) packets
send_share-Sent_example = send_share-Sent 5000 5 two_lines two_lines-IsLine (omega arith)

abbrev long_line : Line
long_line = record { op = insert; md5 = replicate 16 7; name = replicate 250 97 }

two_lines-IsOwn : All IsOwn two_lines
two_lines-IsOwn = (
  record { short = omega arith; name = (refl, (refl, tt)) },
  (record { short = omega arith; name = (refl, tt) }, tt),
)

All-replicate : (n : ℕ) → All (λ b. (b == b'\n') ≡ false) (replicate n 97)
All-replicate zero = tt
All-replicate (suc n) = (refl, All-replicate n)

long_line-IsLine : IsLine long_line
long_line-IsLine = record { md5 = refl; short = omega arith; name = All-replicate 250 }

add_sp_file-add_files_example :
    (file : List ℕ) × (written two_lines ≡ some file)
    × (add_sp_file file [] ≡ add_files file (length file))
    × (add_sp_file (bytes_of (long_line ∷ [])) [] ≡ none)
add_sp_file-add_files_example =
    add_sp_file-add_files [] two_lines long_line [] two_lines-IsLine two_lines-IsOwn
      long_line-IsLine (omega arith)
