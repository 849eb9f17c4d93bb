-- ===== src/Common/Memory.antt =====
-- Copies between arrays of bytes. An access outside an array is undefined behaviour, `none`.
use Prim.Native.Nat.{ℕ, zero, suc, ◌≤◌, ◌<◌}
use mathlib.Core.Path.{◌≡◌, refl, ap}
use mathlib.Core.List.{List, [], ◌∷◌, ◌++◌}
use mathlib.Core.Option.{Option, none, some}
use native.Mathlib.Omega.{arith}
use karmanet.Common.Booleans.{ltb, if◌then◌else◌}
use karmanet.Common.Lists.{length, take, drop, set}

infixl 5 ◌>>=◌
abbrev pub ◌>>=◌ {ℓ κ} : {A : Type ℓ} {B : Type κ} → Option A → (A → Option B) → Option B
none >>= f = none
some a >>= f = f a

-- `memcpy(dest, src, n)`: what `dest` holds afterwards
unfoldable pub memcpy : ℕ → List ℕ → List ℕ → Option (List ℕ)
memcpy zero src dest = some dest
memcpy (suc n) (x ∷ src) (y ∷ dest) = memcpy n src dest >>= λ d. some (x ∷ d)
memcpy (suc n) src dest = none

-- the first `n` bytes at `src`
unfoldable pub read_bytes : ℕ → List ℕ → Option (List ℕ)
read_bytes zero src = some []
read_bytes (suc n) [] = none
read_bytes (suc n) (x ∷ src) = read_bytes n src >>= λ d. some (x ∷ d)

-- `dest[i] = v`
unfoldable pub store_byte : List ℕ → ℕ → ℕ → Option (List ℕ)
store_byte dest i v = if ltb i (length dest) then some (set dest i v) else none

pub memcpy-some :
    (n : ℕ) (src dest : List ℕ)
    → n ≤ length src
    → n ≤ length dest
    → memcpy n src dest ≡ some (take n src ++ drop n dest)
unfolding memcpy
memcpy-some zero src dest hs hd = refl
memcpy-some (suc n) [] dest hs hd = absurd (omega arith)
memcpy-some (suc n) (x ∷ src) [] hs hd = absurd (omega arith)
memcpy-some (suc n) (x ∷ src) (y ∷ dest) hs hd =
    rw (memcpy-some n src dest (omega arith) (omega arith))

pub memcpy-none : (n : ℕ) (src dest : List ℕ) → length dest < n → memcpy n src dest ≡ none
unfolding memcpy
memcpy-none zero src dest h = absurd (omega arith)
memcpy-none (suc n) [] dest h = refl
memcpy-none (suc n) (x ∷ src) [] h = refl
memcpy-none (suc n) (x ∷ src) (y ∷ dest) h = rw (memcpy-none n src dest (omega arith))

pub read_bytes-some : (n : ℕ) (src : List ℕ) → n ≤ length src → read_bytes n src ≡ some (take n src)
unfolding read_bytes
read_bytes-some zero src h = refl
read_bytes-some (suc n) [] h = absurd (omega arith)
read_bytes-some (suc n) (x ∷ src) h = rw (read_bytes-some n src (omega arith))

pub store_byte-some :
    (dest : List ℕ) (i v : ℕ) → i < length dest → store_byte dest i v ≡ some (set dest i v)
unfolding store_byte
store_byte-some dest i v h = ground arith

pub store_byte-none : (dest : List ℕ) (i v : ℕ) → length dest ≤ i → store_byte dest i v ≡ none
unfolding store_byte
store_byte-none dest i v h = ground arith

pub set-append {ℓ} :
    {A : Type ℓ} (xs : List A) (y v : A) (ys : List A)
    → set (xs ++ y ∷ ys) (length xs) v ≡ xs ++ v ∷ ys
set-append [] y v ys = refl
set-append (x ∷ xs) y v ys = ap (λ l. x ∷ l) (set-append xs y v ys)
