-- ===== src/Transfers/Missing.antt =====
-- The chunks that `get_missing_chunk` of src/client/downloader.c finds missing.
use karmanet.Common.{
  ℕ, zero, suc, ◌+◌, ◌≤◌, ◌<◌, ◌≡◌, refl, sym, ap, ◌∙◌, ◌≢◌, ◌⊎◌, inl, inr, Bool, true, false, ◌||◌,
  List, [], ◌∷◌, arith, ◌==◌, ==_iff, Bool-cases, ==-eq-false, length,
}
use karmanet.Transfers.Chunks.{has, missing_from}
use karmanet.Transfers.Parts.{if-then, if-else}

pub or-first : (a b : Bool) → a ≡ true → (a || b) ≡ true
or-first true b h = refl
or-first false b h = absurd (cc)

pub or-second : (a b : Bool) → b ≡ true → (a || b) ≡ true
or-second true b h = refl
or-second false b h = h

pub or-cases : (a b : Bool) → (a || b) ≡ true → (a ≡ true) ⊎ (b ≡ true)
or-cases true b h = inl refl
or-cases false b h = inr h

pub missing-has :
    (left i j : ℕ) (my_chunk : List ℕ)
    → i ≤ j
    → j < i + left
    → has j my_chunk ≡ false
    → has j (missing_from left i my_chunk) ≡ true
unfolding missing_from
missing-has zero i j my_chunk h k e = absurd (omega (arith, h, k))
missing-has (suc left) i j my_chunk h k e = elim (Bool-cases (has i my_chunk)) [
  | inl a ↦
      ap (has j) (if-then (has i my_chunk) _ _ a)
      ∙ missing-has left (suc i) j my_chunk
          (later (λ same. apart (sym a ∙ ap (λ n. has n my_chunk) same ∙ e))) (omega (arith, k)) e
  | inr b ↦ ap (has j) (if-else (has i my_chunk) _ _ b) ∙ (elim (Bool-cases (j == i)) [
    | inl g ↦ or-first (j == i) _ g
    | inr g ↦ or-second (j == i) _ (
        missing-has left (suc i) j my_chunk (later (λ same. (==-eq-false _ _).0 g (sym same)))
          (omega (arith, k)) e)
  ])
]
  where
    later : i ≢ j → suc i ≤ j
    later n = omega (arith, h, n)

    apart : true ≢ false
    apart p = absurd (cc)

pub missing-below :
    (left i j : ℕ) (my_chunk : List ℕ) → has j (missing_from left i my_chunk) ≡ true → j < i + left
unfolding missing_from
missing-below zero i j my_chunk e = absurd (cc)
missing-below (suc left) i j my_chunk e =
    let further = λ (t : has j (missing_from left (suc i) my_chunk) ≡ true).
      shift left i j (missing-below left (suc i) j my_chunk t) in
    elim (Bool-cases (has i my_chunk)) [
      | inl a ↦ further (sym (ap (has j) (if-then (has i my_chunk) _ _ a)) ∙ e)
      | inr b ↦ elim (or-cases (j == i) _ (sym (ap (has j) (if-else (has i my_chunk) _ _ b)) ∙ e)) [
        | inl g ↦ (let same = (==_iff j i).0 g in omega (arith, same))
        | inr g ↦ further g
      ]
    ]
  where
    shift : (left i j : ℕ) → j < suc i + left → j < i + suc left
    shift left i j h = omega (arith, h)

-- numbers of chunks below `n`, each of them once
abbrev pub IsPart : ℕ → List ℕ → Type 0
IsPart n [] = Unit
IsPart n (c ∷ cs) = (has c cs ≡ false) × (c < n) × IsPart n cs

module _ (c : ℕ) (my_chunk : List ℕ) where
  -- a number before those that are looked at
  missing_from_before :
      (left i : ℕ)
      → c < i
      → length (missing_from left i (c ∷ my_chunk)) ≡ length (missing_from left i my_chunk)
  unfolding missing_from
  missing_from_before zero i h = refl
  missing_from_before (suc left) i h =
      let rest = missing_from_before left (suc i) (omega (arith, h)) in
      elim (Bool-cases (has i my_chunk)) [
        | inl e ↦
            ap length (if-then ((i == c) || has i my_chunk) _ _ (or-second (i == c) _ e))
            ∙ rest
            ∙ sym (ap length (if-then (has i my_chunk) _ _ e))
        | inr e ↦
            ap length (if-else ((i == c) || has i my_chunk) _ _ (or-none _ _ (apart i h) e))
            ∙ ap suc rest
            ∙ sym (ap length (if-else (has i my_chunk) _ _ e))
      ]
    where
      apart : (i : ℕ) → c < i → (i == c) ≡ false
      apart i h = ground arith

      or-none : (a b : Bool) → a ≡ false → b ≡ false → (a || b) ≡ false
      or-none true b h k = h
      or-none false b h k = k

  -- one more chunk on disk is one fewer that is missing
  missing_from_one :
      (left i : ℕ)
      → i ≤ c
      → c < i + left
      → has c my_chunk ≡ false
      → suc (length (missing_from left i (c ∷ my_chunk))) ≡ length (missing_from left i my_chunk)
  unfolding missing_from
  missing_from_one zero i h k new = absurd (omega (arith, h, k))
  missing_from_one (suc left) i h k new = elim (Bool-cases (i == c)) [
    | inl e ↦
        let same = (==_iff i c).0 e in
        ap suc (ap length (if-then ((i == c) || has i my_chunk) _ _ (or-first _ _ e)))
        ∙ ap suc (missing_from_before left (suc i) (next same))
        ∙ sym (ap length (if-else (has i my_chunk) _ _ (ap (λ n. has n my_chunk) same ∙ new)))
    | inr e ↦
        let rest =
          missing_from_one left (suc i) (later ((==-eq-false i c).0 e)) (omega (arith, k)) new in
        elim (Bool-cases (has i my_chunk)) [
          | inl f ↦
              ap suc (ap length (if-then ((i == c) || has i my_chunk) _ _ (or-second _ _ f)))
              ∙ rest
              ∙ sym (ap length (if-then (has i my_chunk) _ _ f))
          | inr f ↦
              ap suc (ap length (if-else ((i == c) || has i my_chunk) _ _ (or-none _ _ e f)))
              ∙ ap suc rest
              ∙ sym (ap length (if-else (has i my_chunk) _ _ f))
        ]
  ]
    where
      next : i ≡ c → c < suc i
      next e = omega (arith, e)

      later : i ≢ c → suc i ≤ c
      later n = omega (arith, h, n)

      or-none : (a b : Bool) → a ≡ false → b ≡ false → (a || b) ≡ false
      or-none true b h k = h
      or-none false b h k = k

missing_from_all : (left i : ℕ) → length (missing_from left i []) ≡ left
unfolding missing_from
missing_from_all zero i = refl
missing_from_all (suc left) i = ap suc (missing_from_all left (suc i))

-- the chunks on disk and those that are missing are all chunks
pub missing-count :
    (n : ℕ) (my_chunk : List ℕ)
    → IsPart n my_chunk
    → length (missing_from n 0 my_chunk) + length my_chunk ≡ n
missing-count n [] part = (let all = missing_from_all n 0 in omega (arith, all))
missing-count n (c ∷ cs) (new, below, part) =
    let one = missing_from_one c cs n 0 (omega arith) (omega (arith, below)) new in
    let rest = missing-count n cs part in
    sum (length (missing_from n 0 (c ∷ cs))) (length (missing_from n 0 cs)) (length cs) one rest
  where
    sum : (a b k : ℕ) → suc a ≡ b → b + k ≡ n → a + suc k ≡ n
    sum a b k e f = omega (arith, e, f)
