-- ===== src/FileIndex/Chains.antt =====
-- The chains of the tables of src/client/hashtable.c: a walk after an insertion, and a removal that
-- takes an insertion back.
use karmanet.Common.{
  ℕ, ◌≡◌, refl, sym, ap, ◌∙◌, inl, inr, Bool, true, false, Option, none, some, List, [], ◌∷◌, arith,
  ◌==◌, ==_iff, Bool-cases, All,
}
use mathlib.Core.Path.{subst}
use karmanet.FileIndex.{find, put, chain_insert, chain_remove}

pub put_same {ℓ} :
    {A : Type ℓ} (table : ℕ → List A) (key : ℕ) (chain : List A) → put table key chain key ≡ chain
put_same table key chain = ground (arith, (==_iff key key).1)

module _ {ℓ} {A : Type ℓ} where
  -- the node that an insertion leaves for the test
  abbrev pub inserted : (A → A) → A → Option A → A
  inserted add new none = new
  inserted add new (some n) = add n

  -- the walk with the test of the insertion
  pub find-chain_insert :
      (test query : A → Bool) (add : A → A) (new : A) (ns : List A)
      → ((n : A) → test n ≡ query n)
      → ((n : A) → query (add n) ≡ query n)
      → query new ≡ true
      → find query (chain_insert test add new ns) ≡ some (inserted add new (find query ns))
  unfolding find chain_insert
  find-chain_insert test query add new [] same keep h = rw h
  find-chain_insert test query add new (n ∷ ns) same keep h = elim (Bool-cases (query n)) [
    | inl e ↦ rw (same n ∙ e, keep n ∙ e, e)
    | inr e ↦ rw (same n ∙ e, e) (find-chain_insert test query add new ns same keep h)
  ]

  -- the walk with a test that the changed node fails
  pub find-chain_insert_other :
      (test query : A → Bool) (add : A → A) (new : A) (ns : List A)
      → ((n : A) → test n ≡ true → query n ≡ false)
      → ((n : A) → query (add n) ≡ query n)
      → query new ≡ false
      → find query (chain_insert test add new ns) ≡ find query ns
  unfolding find chain_insert
  find-chain_insert_other test query add new [] apart keep h = rw h
  find-chain_insert_other test query add new (n ∷ ns) apart keep h = elim (Bool-cases (test n)) [
    | inl e ↦ rw (e, keep n ∙ apart n e, apart n e)
    | inr e ↦ rw (e, find-chain_insert_other test query add new ns apart keep h)
  ]

  -- the two tests stop a walk at the same node
  abbrev pub Agree : (A → Bool) → (A → Bool) → List A → Type 0
  Agree r t [] = Unit
  Agree r t (n ∷ ns) = (r n ≡ t n) × (t n ≡ false → Agree r t ns)

  pub chain_remove-chain_insert :
      (test meant : A → Bool) (add cut : A → A) (gone : A → Bool) (new : A) (ns : List A)
      → Agree meant test ns
      → ((n : A) → meant (add n) ≡ meant n)
      → ((n : A) → cut (add n) ≡ n)
      → All (λ n. gone n ≡ false) ns
      → (find test ns ≡ none → meant new ≡ true)
      → gone (cut new) ≡ true
      → chain_remove meant cut gone (chain_insert test add new ns) ≡ ns
  unfolding chain_remove chain_insert find
  chain_remove-chain_insert test meant add cut gone new [] agree keep undo full h k = rw (h refl, k)
  chain_remove-chain_insert test meant add cut gone new (n ∷ ns) agree keep undo full h k =
      elim (Bool-cases (test n)) [
        | inl e ↦ rw (e, keep n ∙ agree.0 ∙ e, undo n, full.0)
        | inr e ↦
            rw (e, agree.0 ∙ e)
              (ap (λ l. n ∷ l)
                (chain_remove-chain_insert test meant add cut gone new ns (agree.1 e) keep undo
                  full.1 (λ f. h (skip e ∙ f)) k))
      ]
    where
      skip : test n ≡ false → find test (n ∷ ns) ≡ find test ns
      skip e = rw e

  pub find-cons :
      (test : A → Bool) (n : A) (ns : List A) → test n ≡ true → find test (n ∷ ns) ≡ some n
  unfolding find
  find-cons test n ns h = rw h

  pub find-test : (test : A → Bool) (ns : List A) {n : A} → find test ns ≡ some n → test n ≡ true
  unfolding find
  find-test test [] e = cc
  find-test test (m ∷ ns) {n} e = elim (Bool-cases (test m)) [
    | inl t ↦ let e' : some m ≡ some n = rw t at e in let same : m ≡ n = cc in cc (ap test same, t)
    | inr t ↦ let e' : find test ns ≡ some n = rw t at e in find-test test ns e'
  ]

  -- what holds of every node, after an insertion and after a removal
  pub All-chain_insert {κ} :
      (P : A → Type κ) (test : A → Bool) (add : A → A) (new : A) (ns : List A)
      → ((n : A) → P n → P (add n))
      → P new
      → All P ns
      → All P (chain_insert test add new ns)
  unfolding chain_insert
  All-chain_insert P test add new [] keep h all = (h, tt)
  All-chain_insert P test add new (n ∷ ns) keep h all = elim (Bool-cases (test n)) [
    | inl e ↦ rw e (keep n all.0, all.1)
    | inr e ↦ rw e (all.0, All-chain_insert P test add new ns keep h all.1)
  ]

  pub All-chain_remove {κ} :
      (P : A → Type κ) (meant : A → Bool) (cut : A → A) (gone : A → Bool) (ns : List A)
      → ((n : A) → P n → gone (cut n) ≡ false → P (cut n))
      → All P ns
      → All P (chain_remove meant cut gone ns)
  unfolding chain_remove
  All-chain_remove P meant cut gone [] keep all = tt
  All-chain_remove P meant cut gone (n ∷ ns) keep all = elim (Bool-cases (meant n)) [
    | inl e ↦ elim (Bool-cases (gone (cut n))) [
      | inl g ↦ rw (e, g) all.1
      | inr g ↦ rw (e, g) (keep n all.0 g, all.1)
    ]
    | inr e ↦ rw e (all.0, All-chain_remove P meant cut gone ns keep all.1)
  ]

pub All-map {ℓ κ} :
    {A : Type ℓ} (P Q : A → Type κ) (ns : List A) → ((n : A) → P n → Q n) → All P ns → All Q ns
All-map P Q [] f all = tt
All-map P Q (n ∷ ns) f all = (f n all.0, All-map P Q ns f all.1)

-- a table in which one chain is written
pub put-All {ℓ κ} :
    {A : Type ℓ} (P : ℕ → List A → Type κ) (table : ℕ → List A) (key : ℕ) (chain : List A)
    → ((k : ℕ) → P k (table k))
    → P key chain
    → (k : ℕ) → P k (put table key chain k)
put-All P table key chain h c k = elim (Bool-cases (k == key)) [
  | inl e ↦ rw e (subst (λ j. P j chain) (sym ((==_iff k key).0 e)) c)
  | inr e ↦ rw e (h k)
]
