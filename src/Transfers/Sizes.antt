-- ===== src/Transfers/Sizes.antt =====
-- The number of parts of a chunk, which get_file_info and get_part_number of src/client/uploader.c
-- work out.
use karmanet.Common.{
  ℕ, suc, ◌+◌, ◌-◌, ◌*◌, ◌/◌, ◌%◌, ◌<◌, min, ◌≡◌, ap, ◌∙◌, ◌≢◌, inl, inr, List, arith, ◌==◌,
  if◌then◌else◌, ==_iff, Bool-cases, ==-eq-false, length,
}
use karmanet.Transfers.Chunks.{get_file_info, get_part_number, parts_of}
use karmanet.Transfers.Parts.{if-then, if-else}

parts_of_lem : (n : ℕ) → 0 < n → parts_of n ≡ suc ((n - 1) / 1024)
parts_of_lem n h = elim (Bool-cases (n % 1024 == 0)) [
  | inl e ↦ if-then (n % 1024 == 0) _ _ e ∙ (let z = (==_iff _ _).0 e in omega (arith, h, z))
  | inr e ↦ if-else (n % 1024 == 0) _ _ e ∙ (let z = (==-eq-false _ _).0 e in omega (arith, h, z))
]

pub chunk_count_lem :
    (n : ℕ) → (if n % 512000 == 0 then n / 512000 else n / 512000 + 1) ≡ (n + 511999) / 512000
chunk_count_lem n = elim (Bool-cases (n % 512000 == 0)) [
  | inl e ↦ if-then (n % 512000 == 0) _ _ e ∙ (let z = (==_iff _ _).0 e in omega (arith, z))
  | inr e ↦ if-else (n % 512000 == 0) _ _ e ∙ (let z = (==-eq-false _ _).0 e in omega (arith, z))
]

last-size : (n c : ℕ) → c + 1 ≡ (n + 511999) / 512000 → 0 < n - c * 512000
last-size n c e = omega (arith, e)

last-limit :
    (n c : ℕ) → c + 1 ≡ (n + 511999) / 512000 → n - c * 512000 ≡ min 512000 (n - c * 512000)
last-limit n c e = omega (arith, e)

full-part :
    (n c : ℕ) → c + 1 < (n + 511999) / 512000 → 500 ≡ suc ((min 512000 (n - c * 512000) - 1) / 1024)
full-part n c h = omega (arith, h)

-- the number of parts of a chunk
pub get_part_number_lem :
    (file : List ℕ) (c : ℕ)
    → c < (get_file_info file).chunk_number
    → get_part_number c (get_file_info file)
      ≡ suc ((min 512000 (length file - c * 512000) - 1) / 1024)
unfolding get_file_info get_part_number
get_part_number_lem file c h = elim (Bool-cases (c + 1 == chunks)) [
  | inl e ↦
      if-then (c + 1 == chunks) _ _ e
      ∙ parts_of_lem size (some-left ((==_iff _ _).0 e))
      ∙ ap (λ n. suc ((n - 1) / 1024)) (all-left ((==_iff _ _).0 e))
  | inr e ↦ if-else (c + 1 == chunks) _ _ e ∙ whole ((==-eq-false _ _).0 e)
]
  where
    size : ℕ
    size = length file - c * 512000

    chunks : ℕ
    chunks = if length file % 512000 == 0 then length file / 512000 else length file / 512000 + 1

    count : chunks ≡ (length file + 511999) / 512000
    count = chunk_count_lem (length file)

    some-left : c + 1 ≡ chunks → 0 < size
    some-left e = last-size (length file) c (e ∙ count)

    all-left : c + 1 ≡ chunks → size ≡ min 512000 size
    all-left e = last-limit (length file) c (e ∙ count)

    whole : c + 1 ≢ chunks → 500 ≡ suc ((min 512000 size - 1) / 1024)
    whole e = full-part (length file) c (omega (arith, h, e, count))

pub part-inside :
    (n c k : ℕ)
    → k ≡ n - c * 512000
    → c < (n + 511999) / 512000
    → 1024 * ((min 512000 (n - c * 512000) - 1) / 1024) < k
part-inside n c k e h = omega (arith, e, h)

pub part-whole :
    (n c k : ℕ)
    → k ≡ n - c * 512000
    → min (1024 * suc ((min 512000 (n - c * 512000) - 1) / 1024)) k ≡ min 512000 (n - c * 512000)
part-whole n c k e = omega (arith, e)
