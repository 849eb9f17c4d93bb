-- ===== src/Common/Positions.antt =====
-- Nodes of a list named by their position, 0 for the head, and the node operations of the list
-- modules on them.
use Prim.Native.Nat.{ℕ, zero, suc}
use mathlib.Core.Path.{◌≡◌, refl, ap}
use mathlib.Core.Bool.{Bool, true, false}
use mathlib.Core.List.{List, [], ◌∷◌, ◌++◌}
use mathlib.Core.Option.{Option, none, some}
use native.Mathlib.Omega.{arith}
use karmanet.Common.Lists.{length}

abbrev pub is_empty {ℓ} : {A : Type ℓ} → List A → Bool
is_empty [] = true
is_empty (x ∷ xs) = false

abbrev pub insert_at {ℓ} : {A : Type ℓ} → ℕ → A → List A → List A
insert_at zero x xs = x ∷ xs
insert_at (suc i) x [] = x ∷ []
insert_at (suc i) x (y ∷ ys) = y ∷ insert_at i x ys

abbrev pub remove_at {ℓ} : {A : Type ℓ} → ℕ → List A → List A
remove_at i [] = []
remove_at zero (x ∷ xs) = xs
remove_at (suc i) (x ∷ xs) = x ∷ remove_at i xs

abbrev pub change_at {ℓ} : {A : Type ℓ} → ℕ → (A → A) → List A → List A
change_at i f [] = []
change_at zero f (x ∷ xs) = f x ∷ xs
change_at (suc i) f (x ∷ xs) = x ∷ change_at i f xs

abbrev pub next : Option ℕ → Option ℕ
next none = none
next (some i) = some (suc i)

pub length-insert_at {ℓ} :
    {A : Type ℓ} (i : ℕ) (x : A) (ns : List A) → length (insert_at i x ns) ≡ suc (length ns)
length-insert_at zero x ns = refl
length-insert_at (suc i) x [] = refl
length-insert_at (suc i) x (n ∷ ns) = ap suc (length-insert_at i x ns)

pub next-some : (o : Option ℕ) {i : ℕ} → next o ≡ some i → (j : ℕ) × (o ≡ some j) × (i ≡ suc j)
next-some none e = cc
next-some (some j) {i = zero} e = cc
next-some (some j) {i = suc i} e = (j, refl, ground arith)

pub remove_at-middle {ℓ} :
    {A : Type ℓ} (xs : List A) (n : A) (ys : List A)
    → remove_at (length xs) (xs ++ n ∷ ys) ≡ xs ++ ys
remove_at-middle [] n ys = refl
remove_at-middle (x ∷ xs) n ys = ap (λ t. x ∷ t) (remove_at-middle xs n ys)

pub change_at-middle {ℓ} :
    {A : Type ℓ} (f : A → A) (xs : List A) (n : A) (ys : List A)
    → change_at (length xs) f (xs ++ n ∷ ys) ≡ xs ++ f n ∷ ys
change_at-middle f [] n ys = refl
change_at-middle f (x ∷ xs) n ys = ap (λ t. x ∷ t) (change_at-middle f xs n ys)

pub is_empty-middle {ℓ} :
    {A : Type ℓ} (xs : List A) (n : A) (ys : List A) → is_empty (xs ++ n ∷ ys) ≡ false
is_empty-middle [] n ys = refl
is_empty-middle (x ∷ xs) n ys = refl
