-- ===== src/Transfers/Parts.antt =====
-- The parts of one chunk: what the packets that `send_chunk` sends leave in the file.
use karmanet.Common.{
  ℕ, zero, suc, ◌+◌, ◌-◌, ◌*◌, ◌≤◌, ◌<◌, min, ◌≡◌, refl, sym, ap, ◌∙◌, ◌⊎◌, inl, inr, Bool, true,
  false, not, ◌&&◌, List, [], ◌∷◌, arith, ltb, leb, ◌==◌, if◌then◌else◌, Bool-cases, length, take,
  drop, length-drop, length-take-min,
}
use mathlib.Core.Path.{subst}
use karmanet.Transfers.Chunks.{
  Part, SentChunk, send_parts, byte_at, Disk, write, Received, receive_parts,
}

pub byte_at-drop : (n : ℕ) (bs : List ℕ) (i : ℕ) → byte_at (drop n bs) i ≡ byte_at bs (n + i)
byte_at-drop zero bs i = ap (byte_at bs) (zero_plus i)
  where
    zero_plus : (k : ℕ) → k ≡ 0 + k
    zero_plus k = omega arith
byte_at-drop (suc n) [] i = refl
byte_at-drop (suc n) (b ∷ bs) i = byte_at-drop n bs i ∙ ap (byte_at (b ∷ bs)) (suc_plus n i)
  where
    suc_plus : (a k : ℕ) → suc (a + k) ≡ suc a + k
    suc_plus a k = omega arith

byte_at-take : (n : ℕ) (bs : List ℕ) (i : ℕ) → i < n → byte_at (take n bs) i ≡ byte_at bs i
byte_at-take zero bs i h = absurd (omega (arith, h))
byte_at-take (suc n) [] i h = refl
byte_at-take (suc n) (b ∷ bs) zero h = refl
byte_at-take (suc n) (b ∷ bs) (suc i) h = byte_at-take n bs i (omega (arith, h))

pub if-then : {A : Type 0} (b : Bool) (x y : A) → b ≡ true → (if b then x else y) ≡ x
if-then true x y h = refl
if-then false x y h = absurd (cc)

pub if-else : {A : Type 0} (b : Bool) (x y : A) → b ≡ false → (if b then x else y) ≡ y
if-else false x y h = refl
if-else true x y h = absurd (cc)

write-inside :
    (pos : ℕ) (bytes : List ℕ) (out : Disk) (i : ℕ)
    → pos ≤ i
    → i < pos + length bytes
    → write pos bytes out i ≡ byte_at bytes (i - pos)
write-inside pos bytes out i h k =
    if-then (leb pos i && ltb i (pos + length bytes)) _ _ (ground arith)

write-outside :
    (pos : ℕ) (bytes : List ℕ) (out : Disk) (i : ℕ)
    → (i < pos) ⊎ (pos + length bytes ≤ i)
    → write pos bytes out i ≡ out i
write-outside pos bytes out i (inl h) =
    if-else (leb pos i && ltb i (pos + length bytes)) _ _ (ground arith)
write-outside pos bytes out i (inr h) =
    if-else (leb pos i && ltb i (pos + length bytes)) _ _ (ground arith)

-- `n` bytes of `rest` were written from `pos` on, and nothing else
pub record Fills (pos n : ℕ) (rest : List ℕ) (out : Disk) (r : Received) : Type 0 where
  pub ok : r.ok ≡ true
  pub inside : (i : ℕ) → pos ≤ i → i < pos + n → r.out i ≡ byte_at rest (i - pos)
  pub outside : (i : ℕ) → (i < pos) ⊎ (pos + n ≤ i) → r.out i ≡ out i

written-Fills :
    (pos : ℕ) (rest : List ℕ) (out : Disk)
    → Fills pos
        (min 1024 (length rest))
        rest
        out
        (record { out = write pos (take 1024 rest) out; ok = true })
written-Fills pos rest out =
    let size = length-take-min 1024 rest in
    record {
      ok = refl;
      inside = λ i h k.
          write-inside pos (take 1024 rest) out i h (omega (arith, k, size))
          ∙ byte_at-take 1024 rest (i - pos) (omega (arith, k));
      outside = λ i h. write-outside pos (take 1024 rest) out i (beyond i h);
    }
  where
    beyond :
        (i : ℕ)
        → (i < pos) ⊎ (pos + min 1024 (length rest) ≤ i)
        → (i < pos) ⊎ (pos + length (take 1024 rest) ≤ i)
    beyond i (inl h) = inl h
    beyond i (inr h) = inr (let size = length-take-min 1024 rest in omega (arith, h, size))

pub before-or-after : (i n : ℕ) → (i < n) ⊎ (n ≤ i)
before-or-after i n = elim (Bool-cases (ltb i n)) [
  | inl g ↦ inl (ground arith)
  | inr g ↦ inr (ground arith)
]

-- the first part of several
next-Fills :
    (pos n : ℕ) (rest : List ℕ) (out : Disk) (r : Received)
    → 1024 ≤ length rest
    → Fills (pos + 1024) n (drop 1024 rest) (write pos (take 1024 rest) out) r
    → Fills pos (1024 + n) rest out r
next-Fills pos n rest out r long f = record {
  ok = f.ok;
  inside = λ i h k. elim (before-or-after i (pos + 1024)) [
    | inl g ↦ f.outside i (inl g) ∙ first.inside i h (omega (arith, g, long))
    | inr g ↦
        f.inside i g (omega (arith, k))
        ∙ byte_at-drop 1024 rest (i - (pos + 1024))
        ∙ ap (byte_at rest) (omega (arith, g))
  ];
  outside = λ i h. elim h [
    | inl g ↦ f.outside i (inl (omega (arith, g))) ∙ first.outside i (inl g)
    | inr g ↦ f.outside i (inr (omega (arith, g))) ∙ first.outside i (inr (omega (arith, g, long)))
  ];
}
  where
    first :
        Fills pos
          (min 1024 (length rest))
          rest
          out
          (record { out = write pos (take 1024 rest) out; ok = true })
    first = written-Fills pos rest out

pub ==-self : (i : ℕ) → (i == i) ≡ true
==-self i = ground arith

zero-test : (n : ℕ) → 0 < n → (n == 0) ≡ false
zero-test n h = ground arith

last-parts :
    (index : ℕ) (rest : List ℕ)
    → 0 < length rest
    → (send_parts index 1 rest).parts
      ≡ record { index = index; next_chunk = false; bytes = take 1024 rest } ∷ []
unfolding send_parts
last-parts index rest h =
    ap (λ (s : SentChunk). s.parts)
      (if-else (length (take 1024 rest) == 0) _ _
        (zero-test _ (omega (arith, h, length-take-min 1024 rest))))

next-parts :
    (index left : ℕ) (rest : List ℕ)
    → 1024 ≤ length rest
    → (send_parts index (suc (suc left)) rest).parts
      ≡ record { index = index; next_chunk = true; bytes = take 1024 rest }
        ∷ (send_parts index (suc left) (drop 1024 rest)).parts
unfolding send_parts
next-parts index left rest h =
    ap (λ (s : SentChunk). s.parts)
      (if-else (length (take 1024 rest) == 0) _ _ (zero-test _ (omega (arith, full)))
        ∙ if-else (suc left == 0) _ _ (zero-test _ (omega arith))
        ∙ if-else (not (length (take 1024 rest) == 1024)) _ _ (ap not (ap (λ n. n == 1024) full)))
  where
    full : length (take 1024 rest) ≡ 1024
    full = let size = length-take-min 1024 rest in omega (arith, h, size)

receive-last :
    (index pos : ℕ) (bytes : List ℕ) (parts : List Part) (out : Disk)
    → receive_parts index pos
        (record { index = index; next_chunk = false; bytes = bytes } ∷ parts)
        out
      ≡ record { out = write pos bytes out; ok = true }
unfolding receive_parts
receive-last index pos bytes parts out = if-else (not (index == index)) _ _ (ap not (==-self index))

receive-next :
    (index pos : ℕ) (bytes : List ℕ) (parts : List Part) (out : Disk)
    → receive_parts index pos
        (record { index = index; next_chunk = true; bytes = bytes } ∷ parts)
        out
      ≡ receive_parts index (pos + length bytes) parts (write pos bytes out)
unfolding receive_parts
receive-next index pos bytes parts out = if-else (not (index == index)) _ _ (ap not (==-self index))

-- what the packets of a chunk leave in the file
pub receives :
    (index left pos : ℕ) (rest : List ℕ) (out : Disk)
    → 1024 * left < length rest
    → Fills pos
        (min (1024 * suc left) (length rest))
        rest
        out
        (receive_parts index pos (send_parts index (suc left) rest).parts out)
receives index zero pos rest out h =
    subst (Fills pos (min 1024 (length rest)) rest out)
      (sym (
        ap (λ ps. receive_parts index pos ps out) (last-parts index rest (omega (arith, h)))
        ∙ receive-last index pos (take 1024 rest) [] out))
      (written-Fills pos rest out)
receives index (suc left) pos rest out h =
    subst (Fills pos (min (1024 * suc (suc left)) (length rest)) rest out)
      (sym (
        ap (λ ps. receive_parts index pos ps out) (next-parts index left rest long)
        ∙ receive-next index pos (take 1024 rest) _ out
        ∙ ap (λ n. receive_parts index (pos + n) further (write pos (take 1024 rest) out)) full))
      (subst (λ n. Fills pos n rest out after) total
        (next-Fills pos _ rest out after long (
          receives index left (pos + 1024) (drop 1024 rest) (write pos (take 1024 rest) out)
            (omega (arith, h, cut)))))
  where
    further : List Part
    further = (send_parts index (suc left) (drop 1024 rest)).parts

    after : Received
    after = receive_parts index (pos + 1024) further (write pos (take 1024 rest) out)

    long : 1024 ≤ length rest
    long = omega (arith, h)

    full : length (take 1024 rest) ≡ 1024
    full = let size = length-take-min 1024 rest in omega (arith, long, size)

    cut : length (drop 1024 rest) ≡ length rest - 1024
    cut = length-drop 1024 rest

    total :
        1024 + min (1024 * suc left) (length (drop 1024 rest))
        ≡ min (1024 * suc (suc left)) (length rest)
    total = let c = cut in omega (arith, h, c)
