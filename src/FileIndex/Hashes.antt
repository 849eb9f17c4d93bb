-- ===== src/FileIndex/Hashes.antt =====
-- The hash functions of src/client/hashtable.c and the comparisons of names and digests.
use karmanet.Common.{
  ℕ, zero, suc, ◌-◌, ◌%◌, ◌^◌, ◌≤◌, ◌<◌, ◌≡◌, refl, ◌≢◌, true, none, some, List, [], ◌∷◌, arith,
  length,
}
use karmanet.Wire.{same_bytes}
use karmanet.FileIndex.{iphash, same_text}

-- the remainder of a number that is positive as a `long`, or divided by the prime, is in the array
pub iphash-some : (ip : ℕ) {key : ℕ} → iphash ip ≡ some key → key < 211
unfolding iphash
iphash-some ip h = ground arith

pub iphash-none : (ip : ℕ) → iphash ip ≡ none → (2 ^ 31 ≤ ip) × ((2 ^ 32 - ip) % 211 ≢ 0)
unfolding iphash
iphash-none ip h = ground arith

pub iphash_outside : (ip : ℕ) → 2 ^ 31 ≤ ip → (2 ^ 32 - ip) % 211 ≢ 0 → iphash ip ≡ none
unfolding iphash
iphash_outside ip h k = ground arith

pub same_bytes_sym : (n : ℕ) (a b : List ℕ) → same_bytes n a b ≡ same_bytes n b a
unfolding same_bytes
same_bytes_sym zero a b = refl
same_bytes_sym (suc n) [] [] = refl
same_bytes_sym (suc n) [] (y ∷ b) = refl
same_bytes_sym (suc n) (x ∷ a) [] = refl
same_bytes_sym (suc n) (x ∷ a) (y ∷ b) = ground (arith, same_bytes_sym n a b)

pub same_bytes_refl : (n : ℕ) (a : List ℕ) → n ≤ length a → same_bytes n a a ≡ true
unfolding same_bytes
same_bytes_refl zero a h = refl
same_bytes_refl (suc n) [] h = absurd (omega arith)
same_bytes_refl (suc n) (x ∷ a) h = ground (arith, same_bytes_refl n a (omega arith))

pub same_bytes_trans :
    (n : ℕ) (a b c : List ℕ)
    → same_bytes n a b ≡ true
    → same_bytes n b c ≡ true
    → same_bytes n a c ≡ true
unfolding same_bytes
same_bytes_trans zero a b c h k = refl
same_bytes_trans (suc n) [] b c h k = cc
same_bytes_trans (suc n) (x ∷ a) [] c h k = cc
same_bytes_trans (suc n) (x ∷ a) (y ∷ b) [] h k = cc
same_bytes_trans (suc n) (x ∷ a) (y ∷ b) (z ∷ c) h k = ground (arith, same_bytes_trans n a b c)

-- two arrays of that length that agree are equal
pub same_bytes-eq :
    (n : ℕ) (a b : List ℕ) → length a ≡ n → length b ≡ n → same_bytes n a b ≡ true → a ≡ b
unfolding same_bytes
same_bytes-eq zero [] [] h k e = refl
same_bytes-eq zero (x ∷ a) b h k e = absurd (omega arith)
same_bytes-eq zero [] (y ∷ b) h k e = absurd (omega arith)
same_bytes-eq (suc n) [] b h k e = absurd (omega arith)
same_bytes-eq (suc n) (x ∷ a) [] h k e = absurd (omega arith)
same_bytes-eq (suc n) (x ∷ a) (y ∷ b) h k e =
    ground (arith, same_bytes-eq n a b (omega arith) (omega arith))

pub same_text_refl : (n : ℕ) (a : List ℕ) → same_text n a a ≡ true
unfolding same_text
same_text_refl zero a = refl
same_text_refl (suc n) [] = refl
same_text_refl (suc n) (x ∷ a) = ground (arith, same_text_refl n a)
