-- ===== src/Transfers/Download.antt =====
-- A download, also one that is taken up again, gives the file.
use karmanet.Common.{
  ℕ, suc, ◌+◌, ◌-◌, ◌*◌, ◌/◌, ◌≤◌, ◌<◌, min, ◌≡◌, refl, sym, ap, ◌∙◌, ◌≢◌, ◌⊎◌, inl, inr, Bool,
  true, false, not, ◌&&◌, Option, some, List, [], ◌∷◌, arith, ltb, ◌==◌, if◌then◌else◌, ==_iff,
  Bool-cases, ==-eq-false, length, drop, length-drop,
}
use karmanet.Common.Memory.{◌>>=◌}
use karmanet.Transfers.Chunks.{
  chunk_size, get_file_info, send_parts, send_chunk, byte_at, Disk, Received, receive_parts,
  get_chunk, download, Disks, download_loop, has, missing_from, get_missing_chunk,
}
use karmanet.Transfers.Parts.{
  before-or-after, byte_at-drop, if-then, if-else, Fills, receives, ==-self,
}
use karmanet.Transfers.Sizes.{get_part_number_lem, chunk_count_lem, part-inside, part-whole}
use karmanet.Transfers.Missing.{
  or-first, or-second, or-cases, missing-has, missing-below, missing-count, IsPart,
}
use mathlib.Core.Path.{subst}

-- the bytes that get_chunk changes are those of its chunk
get_chunk-Fills :
    (file : List ℕ) (c : ℕ) (out : Disk)
    → c < (get_file_info file).chunk_number
    → Fills
        (c * 512000)
        (min 512000 (length file - c * 512000))
        (drop (c * 512000) file)
        out
        (get_chunk file c out)
unfolding get_chunk send_chunk get_file_info
get_chunk-Fills file c out h =
    subst (λ n. Fills (c * 512000) n rest out (get_chunk file c out)) whole
      (subst
        (λ k.
          Fills (c * 512000) (min (1024 * suc left) (length rest)) rest out
            (receive_parts c (c * 512000) (send_parts c k rest).parts out))
        (sym (get_part_number_lem file c h)) (receives c left (c * 512000) rest out inside))
  where
    rest : List ℕ
    rest = drop (c * 512000) file

    left : ℕ
    left = (min 512000 (length file - c * 512000) - 1) / 1024

    size : length rest ≡ length file - c * 512000
    size = length-drop (c * 512000) file

    inside : 1024 * left < length rest
    inside =
        part-inside (length file) c (length rest) size
          (omega (arith, h, chunk_count_lem (length file)))

    whole : min (1024 * suc left) (length rest) ≡ min 512000 (length file - c * 512000)
    whole = part-whole (length file) c (length rest) size

outside-chunk :
    (i c n : ℕ) → i / 512000 ≢ c → (i < c * 512000) ⊎ (c * 512000 + min 512000 (n - c * 512000) ≤ i)
outside-chunk i c n h = elim (before-or-after i (c * 512000)) [
  | inl g ↦ inl g
  | inr g ↦ inr (omega (arith, g, h))
]

-- after a chunk, what is missing is in the chunks that follow
chunk-got :
    (file : List ℕ) (c : ℕ) (cs : List ℕ) (out : Disk) (r : Received)
    → Fills (c * 512000) (min 512000 (length file - c * 512000)) (drop (c * 512000) file) out r
    → (i : ℕ) → i < length file
    → (has (i / 512000) (c ∷ cs) ≡ true) ⊎ (out i ≡ byte_at file i)
    → (has (i / 512000) cs ≡ true) ⊎ (r.out i ≡ byte_at file i)
chunk-got file c cs out r fill i k w = elim (Bool-cases (i / 512000 == c)) [
  | inl e ↦
      let same = (==_iff _ _).0 e in
      inr (
        fill.inside i (omega (arith, same)) (omega (arith, same, k))
        ∙ byte_at-drop (c * 512000) file (i - c * 512000)
        ∙ ap (byte_at file) (omega (arith, same)))
  | inr e ↦ elim w [
    | inl g ↦ inl (elim (or-cases (i / 512000 == c) _ g) [ inl t ↦ absurd (cc) | inr t ↦ t ])
    | inr g ↦ inr (fill.outside i (outside-chunk i c (length file) ((==-eq-false _ _).0 e)) ∙ g)
  ]
]

-- every byte of the file is there, except in the chunks of `cs`
downloads :
    (file : List ℕ) (disks : Disks) (cs : List ℕ) (out : Disk)
    → ((c : ℕ) → disks.saved c ≡ true)
    → ((c : ℕ) → has c cs ≡ true → c < (get_file_info file).chunk_number)
    → (r : Received) × (download_loop file disks (length cs) cs out ≡ some r)
      × (r.ok ≡ true)
      × ((i : ℕ)
          → i < length file
          → (has (i / 512000) cs ≡ true) ⊎ (out i ≡ byte_at file i)
          → r.out i ≡ byte_at file i)
unfolding download_loop
downloads file disks [] out saved h =
    (_, refl, refl, λ i k w. elim w [ inl e ↦ absurd (cc) | inr e ↦ e ])
downloads file disks (c ∷ cs) out saved h =
    let fill = get_chunk-Fills file c out (h c (or-first (c == c) _ (==-self c))) in
    let got = if-else (not (get_chunk file c out).ok) _ _ (ap not fill.ok) in
    let kept = if-else (not (disks.saved c)) _ _ (ap not (saved c)) in
    let (r, run, ok, all) =
      downloads file disks cs (get_chunk file c out).out saved
        (λ d e. h d (or-second (d == c) _ e)) in
    (r, got ∙ kept ∙ run, ok, λ i k w. all i k (chunk-got file c cs out _ fill i k w))

in-a-chunk :
    (file : List ℕ) (i : ℕ) → i < length file → i / 512000 < (get_file_info file).chunk_number
unfolding get_file_info
in-a-chunk file i h = (let count = chunk_count_lem (length file) in omega (arith, h, count))

-- The thread of the downloader, which starts with the chunks `my_chunk` of the file on disk, each of
-- them once, gets every byte of the file, and ends without an error if the disk makes none.
pub download-get_missing_chunk :
    (file : List ℕ) (disks : Disks) (my_chunk : List ℕ) (out : Disk)
    → ((c : ℕ) → disks.saved c ≡ true)
    → disks.removed ≡ true
    → IsPart (get_file_info file).chunk_number my_chunk
    → ((i : ℕ) → i < length file → has (i / chunk_size) my_chunk ≡ true → out i ≡ byte_at file i)
    → (missing_chunk : List ℕ) × (get_missing_chunk
          (get_file_info file).chunk_number
          my_chunk
          ((get_file_info file).chunk_number - length my_chunk)
        ≡ some missing_chunk)
      × (r : Received) × (download file disks
            (get_file_info file)
            missing_chunk
            ((get_file_info file).chunk_number - length my_chunk)
            (length my_chunk)
            out
          ≡ some r)
      × (r.ok ≡ true)
      × ((i : ℕ) → i < length file → r.out i ≡ byte_at file i)
unfolding get_missing_chunk download
download-get_missing_chunk file disks my_chunk out saved removed part h =
    let (r, run, ok, whole) = all in
    let loop = subst (λ n. download_loop file disks n missing out ≡ some r) size run in
    elim (Bool-cases (at-end r)) [
      | inl e ↦ (
        missing,
        if-else (ltb miss (length missing)) _ _ (fits miss (length missing) size),
        record { out = r.out; ok = disks.removed },
        ap (λ o. o >>= finish) loop ∙ if-else (not r.ok) _ _ (ap not ok) ∙ if-then (at-end r) _ _ e,
        removed,
        λ i k. whole i k (there i k),
      )
      | inr e ↦ (
        missing,
        if-else (ltb miss (length missing)) _ _ (fits miss (length missing) size),
        r,
        ap (λ o. o >>= finish) loop ∙ if-else (not r.ok) _ _ (ap not ok) ∙ if-else (at-end r) _ _ e,
        ok,
        λ i k. whole i k (there i k),
      )
    ]
  where
    from-zero : (c n : ℕ) → c < 0 + n → c < n
    from-zero c n b = omega (arith, b)

    to-zero : (c n : ℕ) → c < n → c < 0 + n
    to-zero c n b = omega (arith, b)

    fits : (a b : ℕ) → b ≡ a → ltb a b ≡ false
    fits a b e = ground arith

    chunks : ℕ
    chunks = (get_file_info file).chunk_number

    miss : ℕ
    miss = chunks - length my_chunk

    missing : List ℕ
    missing = missing_from chunks 0 my_chunk

    at-end : Received → Bool
    at-end r =
        (disks.end_of r.out == (get_file_info file).file_size) && (length my_chunk + miss == chunks)

    finish : Received → Option Received
    finish r =
        if not r.ok
        then some r
        else if at-end r
        then some (record { out = r.out; ok = disks.removed })
        else some r

    size : length missing ≡ miss
    size = (let count = missing-count chunks my_chunk part in omega (arith, count))

    all :
        (r : Received) × (download_loop file disks (length missing) missing out ≡ some r)
        × (r.ok ≡ true)
        × ((i : ℕ)
            → i < length file
            → (has (i / 512000) missing ≡ true) ⊎ (out i ≡ byte_at file i)
            → r.out i ≡ byte_at file i)
    all =
        downloads file disks missing out saved
          (λ c e. from-zero c chunks (missing-below chunks 0 c my_chunk e))

    there : (i : ℕ) → i < length file → (has (i / 512000) missing ≡ true) ⊎ (out i ≡ byte_at file i)
    there i k = elim (Bool-cases (has (i / 512000) my_chunk)) [
      | inl e ↦ inr (h i k e)
      | inr e ↦ inl (
          missing-has chunks 0 (i / 512000) my_chunk (omega arith)
            (to-zero (i / 512000) chunks (in-a-chunk file i k)) e)
    ]
