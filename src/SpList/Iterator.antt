-- ===== src/SpList/Iterator.antt =====
-- The invariant of the bootstrap list, and its iterator when a node is removed.
use karmanet.Common.{
  ◌≡◌, refl, sym, ◌∙◌, ◌≢◌, ◌⊎◌, inl, inr, Bool, true, false, ◌||◌, [], ◌∷◌, arith, ◌==◌,
  if◌then◌else◌, ==_iff, Bool-cases, ==-eq-false, length,
}
use karmanet.DList.{Ptr, null}
use karmanet.SpList.{SpaddrNode, Entries, SpState, head, next_of, prev_of, erase, move_iterator}
use karmanet.SpList.Cells.{
  has, IsDistinct, erase_hit, erase_skip, not-mem_null, has-erase, erase-IsDistinct,
}

-- the iterator is NULL on an empty list, and otherwise points to a node of the list
abbrev pub Points : Ptr → Entries → Type 0
Points it xs = (xs ≡ []) × (it ≡ null) ⊎ (has it xs ≡ true)

pub record IsValid (s : SpState) : Type 0 where
  pub distinct : IsDistinct s.sp_list
  pub count : s.sp_count ≡ length s.sp_list
  pub iterator : Points s.it_addr s.sp_list

abbrev pub empty : SpState
empty = record { sp_list = []; it_addr = null; sp_count = 0 }

true-false : ¬ (true ≡ false)
true-false e = cc

pub or_right : (a : Bool) {b : Bool} → b ≡ true → (a || b) ≡ true
or_right a h = ground arith

-- the iterator after its node is removed

module _ (p q : Ptr) (n : SpaddrNode) (xs : Entries) where
  next_of_hit : (q == p) ≡ true → next_of p ((q, n) ∷ xs) ≡ head xs
  unfolding next_of
  next_of_hit e = rw e

  next_of_skip : (q == p) ≡ false → next_of p ((q, n) ∷ xs) ≡ next_of p xs
  unfolding next_of
  next_of_skip e = rw e

  prev_of_hit : (b : Ptr) → (q == p) ≡ true → prev_of b p ((q, n) ∷ xs) ≡ b
  unfolding prev_of
  prev_of_hit b e = rw e

  prev_of_skip : (b : Ptr) → (q == p) ≡ false → prev_of b p ((q, n) ∷ xs) ≡ prev_of q p xs
  unfolding prev_of
  prev_of_skip b e = rw e

has-head : (xs : Entries) → (xs ≡ []) ⊎ (has (head xs) xs ≡ true)
has-head [] = inl refl
has-head ((p, n) ∷ xs) = inr (ground arith)

-- the node behind the removed one stands in the list that is left, unless the last was removed
next_of-erase :
    (p : Ptr) (xs : Entries)
    → has p xs ≡ true
    → (next_of p xs ≡ null) ⊎ (has (next_of p xs) (erase p xs) ≡ true)
next_of-erase p [] h = cc
next_of-erase p ((q, n) ∷ xs) h = elim (Bool-cases (q == p)) [
  | inl hit ↦
      rw (next_of_hit p q n xs hit, erase_hit p q n xs hit)
        (elim (has-head xs) [ inl e ↦ inl (rw e) | inr inside ↦ inr inside ])
  | inr miss ↦
      rw (next_of_skip p q n xs miss, erase_skip p q n xs miss)
        (elim (next_of-erase p xs (ground arith)) [
          | inl e ↦ inl e
          | inr inside ↦ inr (or_right (next_of p xs == q) inside)
        ])
]

-- so does the node before it, unless the first was removed
prev_of-erase :
    (b p : Ptr) (xs : Entries)
    → has p xs ≡ true
    → (prev_of b p xs ≡ b) × (head xs ≡ p) ⊎ (has (prev_of b p xs) (erase p xs) ≡ true)
prev_of-erase b p [] h = cc
prev_of-erase b p ((q, n) ∷ xs) h = elim (Bool-cases (q == p)) [
  | inl hit ↦ inl (prev_of_hit p q n xs b hit, (==_iff q p).0 hit)
  | inr miss ↦
      rw (prev_of_skip p q n xs b miss, erase_skip p q n xs miss)
        (elim (prev_of-erase q p xs (ground arith)) [
          | inl first ↦ inr (rw first.0 (ground arith))
          | inr inside ↦ inr (or_right (prev_of q p xs == q) inside)
        ])
]

-- a list without neighbours of the removed node is empty afterwards
alone :
    (p : Ptr) (xs : Entries)
    → IsDistinct xs
    → head xs ≡ p
    → has p xs ≡ true
    → next_of p xs ≡ null
    → erase p xs ≡ []
alone p [] d e h z = cc
alone p ((q, n) ∷ []) d e h z = erase_hit p q n [] ((==_iff q p).1 e)
alone p ((q, n) ∷ (r, m) ∷ xs) d e h z =
    absurd (d.3.0 (sym (next_of_hit p q n ((r, m) ∷ xs) ((==_iff q p).1 e)) ∙ z))

Points-move_iterator :
    (p : Ptr) (xs : Entries)
    → IsDistinct xs
    → has p xs ≡ true
    → Points (move_iterator p xs) (erase p xs)
unfolding move_iterator
Points-move_iterator p xs d h = elim (Bool-cases (next_of p xs == null)) [
  | inr some_next ↦ rw some_next (elim (next_of-erase p xs h) [
    | inl e ↦ absurd ((==-eq-false (next_of p xs) null).0 some_next e)
    | inr inside ↦ inr inside
  ])
  | inl no_next ↦ rw no_next (elim (Bool-cases (prev_of null p xs == null)) [
    | inr some_prev ↦ rw some_prev (elim (prev_of-erase null p xs h) [
      | inl e ↦ absurd ((==-eq-false (prev_of null p xs) null).0 some_prev e.0)
      | inr inside ↦ inr inside
    ])
    | inl no_prev ↦ rw no_prev (elim (prev_of-erase null p xs h) [
      | inl e ↦ inl (alone p xs d e.1 h ((==_iff (next_of p xs) null).0 no_next), refl)
      | inr inside ↦
          let z = (==_iff (prev_of null p xs) null).0 no_prev in
          let none_null = not-mem_null (erase p xs) (erase-IsDistinct p xs d) in
          absurd (true-false (sym (rw z at inside) ∙ none_null))
    ])
  ])
]

pub head_ne_null : (p : Ptr) (xs : Entries) → IsDistinct xs → has p xs ≡ true → head xs ≢ null
head_ne_null p [] d h = cc
head_ne_null p ((q, n) ∷ xs) d h = d.0

pub Points-erase :
    (p it : Ptr) (xs : Entries)
    → IsDistinct xs
    → has p xs ≡ true
    → Points it xs
    → Points (if it == p then move_iterator p xs else it) (erase p xs)
Points-erase p it xs d h points = elim (Bool-cases (it == p)) [
  | inl own ↦ rw own (Points-move_iterator p xs d h)
  | inr other ↦ rw other (elim points [
    | inl none_left ↦ absurd (true-false (sym h ∙ rw none_left.0))
    | inr inside ↦ inr (has-erase p it xs d ∙ rw (other, inside))
  ])
]
