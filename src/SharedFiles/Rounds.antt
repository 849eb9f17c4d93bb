-- ===== src/SharedFiles/Rounds.antt =====
-- One round of the loop of `send_share`, at a line of the file and at its end.
use karmanet.Common.{
  ℕ, zero, suc, ◌+◌, ◌≤◌, ◌<◌, ◌≡◌, refl, sym, ap, ◌∙◌, inl, inr, Bool, true, false, not, Option,
  some, List, [], ◌∷◌, ◌++◌, append_assoc, append-nil, arith, ltb, leb, ◌==◌, if◌then◌else◌,
  Bool-cases, length, take, drop, length-append, take-append, drop-append, All,
}
use karmanet.Common.Memory.{◌>>=◌}
use karmanet.SharedFiles.{Line, op_char, line_bytes}
use karmanet.SharedFiles.Lines.{IsLine, bytes_of}
use karmanet.SharedFiles.Share.{
  share_step, Read, readline_loop, readline, back, Shared, with_packet, share_data, share_loop,
}

pub zero_plus : (b : ℕ) → 0 + b ≡ b
zero_plus b = omega arith

suc_plus : (a b : ℕ) → suc a + b ≡ suc (a + b)
suc_plus a b = omega arith

drop-nil : (k : ℕ) → drop {A = ℕ} k [] ≡ []
drop-nil zero = refl
drop-nil (suc k) = refl

drop-plus : (a b : ℕ) (xs : List ℕ) → drop (a + b) xs ≡ drop b (drop a xs)
drop-plus zero b xs = ap (λ k. drop k xs) (zero_plus b)
drop-plus (suc a) b [] = drop-nil (suc a + b) ∙ sym (drop-nil b)
drop-plus (suc a) b (x ∷ xs) = ap (λ k. drop k (x ∷ xs)) (suc_plus a b) ∙ drop-plus a b xs

readline_loop-line :
    (name tail : List ℕ) (left : ℕ)
    → All (λ b. (b == b'\n') ≡ false) name
    → length name < left
    → readline_loop left (name ++ b'\n' ∷ tail)
      ≡ record { n = suc (length name); bytes = name ++ b'\n' ∷ [] }
unfolding readline_loop
readline_loop-line name tail zero h k = absurd (omega (arith, k))
readline_loop-line [] tail (suc left) h k = refl
readline_loop-line (c ∷ name) tail (suc left) h k =
    rw (h.0, readline_loop-line name tail left h.1 (omega (arith, k))) refl

readline-line :
    (name tail : List ℕ)
    → All (λ b. (b == b'\n') ≡ false) name
    → length name ≤ 253
    → readline 255 (name ++ b'\n' ∷ tail)
      ≡ record { n = suc (length name); bytes = name ++ b'\n' ∷ [] }
unfolding readline
readline-line [] tail h k = readline_loop-line [] tail 254 h (omega (arith, k))
readline-line (c ∷ name) tail h k = readline_loop-line (c ∷ name) tail 254 h (omega (arith, k))

-- what the loop reads at the beginning of a line
abbrev pub head_of : Line → List ℕ
head_of l = op_char l.op ∷ l.md5

pub length-line_bytes : (l : Line) → IsLine l → length (line_bytes l) ≡ length l.name + 18
length-line_bytes l v =
    let size = length-append l.md5 (l.name ++ b'\n' ∷ []) in
    let line = length-append l.name (b'\n' ∷ []) in let m = v.md5 in omega (arith, size, line, m)

pub bytes_of-snoc :
    (ls : List Line) (l : Line) → bytes_of ls ++ line_bytes l ≡ bytes_of (ls ++ l ∷ [])
bytes_of-snoc [] l = sym (append-nil (line_bytes l))
bytes_of-snoc (d ∷ ls) l =
    append_assoc (line_bytes d) (bytes_of ls) (line_bytes l)
    ∙ ap (λ t. line_bytes d ++ t) (bytes_of-snoc ls l)

pub if-then : {A : Type 0} (b : Bool) (x y : A) → b ≡ true → (if b then x else y) ≡ x
if-then true x y h = refl
if-then false x y h = absurd (cc)

pub if-else : {A : Type 0} (b : Bool) (x y : A) → b ≡ false → (if b then x else y) ≡ y
if-else false x y h = refl
if-else true x y h = absurd (cc)

-- the line as the loop reads it
abbrev pub line_read : Line → Read
line_read l = record { n = suc (length l.name); bytes = l.name ++ b'\n' ∷ [] }

take-line :
    (name : List ℕ) → take (suc (length name)) ((name ++ b'\n' ∷ []) ++ 0 ∷ []) ≡ name ++ b'\n' ∷ []
take-line [] = refl
take-line (c ∷ name) = ap (λ t. c ∷ t) (take-line name)

back-plus : (k pos : ℕ) → back k (pos + k) ≡ pos
back-plus k pos = if-then (leb k (pos + k)) _ _ (ground arith) ∙ omega arith

after_line :
    (pos : ℕ) (l : Line)
    → IsLine l
    → pos + suc (length l.md5) + length (l.name ++ b'\n' ∷ []) ≡ pos + (length l.name + 18)
after_line pos l v =
    let line = length-append l.name (b'\n' ∷ []) in let m = v.md5 in omega (arith, line, m)

back-line :
    (pos : ℕ) (l : Line)
    → IsLine l
    → back (suc (length l.name) + 16 + 1) (pos + suc (length l.md5) + length (l.name ++ b'\n' ∷ []))
      ≡ pos
back-line pos l v =
    ap (λ k. back (suc (length l.name) + 16 + 1) k)
      (after_line pos l v ∙ regroup pos (length l.name))
    ∙ back-plus (suc (length l.name) + 16 + 1) pos
  where
    regroup : (p n : ℕ) → p + (n + 18) ≡ p + (suc n + 16 + 1)
    regroup p n = omega arith

pub All-snoc : (ls : List Line) (l : Line) → All IsLine ls → IsLine l → All IsLine (ls ++ l ∷ [])
All-snoc [] l v w = (w, tt)
All-snoc (d ∷ ls) l v w = (v.0, All-snoc ls l v.1 w)

module _ (port : ℕ) (file : List ℕ) where
  module _ (go : ℕ → List ℕ → Option Shared) (pos : ℕ) (l : Line) (v : IsLine l)
      (out : List ℕ) where
    step-fits :
        length out + (length l.name + 18) < 1022
        → share_step port file go pos out (head_of l) (line_read l)
          ≡ go (pos + (length l.name + 18)) (out ++ line_bytes l)
    unfolding share_step
    step-fits h =
        let m = v.md5 in
        if-else (suc (length l.md5) == 0) _ _ (ground arith)
        ∙ if-else (not (suc (length l.md5) == 17)) _ _ (ground arith)
        ∙ if-then (ltb (length out + suc (length l.md5)) 1022) _ _ (ground arith)
        ∙ if-else (suc (length l.name) == 0) _ _ (ground arith)
        ∙ if-then (ltb (length out + (suc (length l.name) + 16 + 1)) 1022) _ _ (ground arith)
        ∙ ap
            (λ t.
              go (pos + suc (length l.md5) + length (l.name ++ b'\n' ∷ []))
                (out ++ op_char l.op ∷ (l.md5 ++ t)))
            (take-line l.name)
        ∙ ap (λ k. go k (out ++ line_bytes l)) (after_line pos l v)

    step-full :
        1022 ≤ length out + (length l.name + 18)
        → share_step port file go pos out (head_of l) (line_read l)
          ≡ (go pos [] >>= λ s. some (with_packet (share_data port file out) s))
    unfolding share_step
    step-full h =
        let m = v.md5 in
        if-else (suc (length l.md5) == 0) _ _ (ground arith)
        ∙ if-else (not (suc (length l.md5) == 17)) _ _ (ground arith)
        ∙ elim (Bool-cases (ltb (length out + suc (length l.md5)) 1022)) [
          | inl f ↦
              if-then (ltb (length out + suc (length l.md5)) 1022) _ _ f
              ∙ if-else (suc (length l.name) == 0) _ _ (ground arith)
              ∙ if-else (ltb (length out + (suc (length l.name) + 16 + 1)) 1022) _ _ (ground arith)
              ∙ ap (λ k. go k [] >>= λ s. some (with_packet (share_data port file out) s))
                  (back-line pos l v)
          | inr f ↦
              if-else (ltb (length out + suc (length l.md5)) 1022) _ _ f
              ∙ ap (λ k. go k [] >>= λ s. some (with_packet (share_data port file out) s))
                  (back-plus (suc (length l.md5)) pos)
        ]

  module _ (pos : ℕ) (l : Line) (tail : List ℕ) (v : IsLine l)
      (at : drop pos file ≡ line_bytes l ++ tail) where
    split : line_bytes l ++ tail ≡ head_of l ++ (l.name ++ b'\n' ∷ tail)
    split =
        ap (λ t. op_char l.op ∷ t)
          (append_assoc l.md5 (l.name ++ b'\n' ∷ []) tail
            ∙ ap (λ t. l.md5 ++ t) (append_assoc l.name (b'\n' ∷ []) tail))

    pub read_head : take 17 (drop pos file) ≡ head_of l
    read_head =
        ap (take 17) (at ∙ split)
        ∙ ap (λ k. take k (head_of l ++ (l.name ++ b'\n' ∷ tail))) (sym size)
        ∙ take-append (head_of l) (l.name ++ b'\n' ∷ tail)
      where
        size : length (head_of l) ≡ 17
        size = ap suc v.md5

    read_behind : drop (pos + 17) file ≡ l.name ++ b'\n' ∷ tail
    read_behind =
        drop-plus pos 17 file
        ∙ ap (drop 17) (at ∙ split)
        ∙ ap (λ k. drop k (head_of l ++ (l.name ++ b'\n' ∷ tail))) (sym (ap suc v.md5))
        ∙ drop-append (head_of l) (l.name ++ b'\n' ∷ tail)

    pub read_rest : readline 255 (drop (pos + 17) file) ≡ line_read l
    read_rest = ap (readline 255) read_behind ∙ readline-line l.name tail v.name v.short

    pub read_tail : drop (pos + (length l.name + 18)) file ≡ tail
    read_tail =
        drop-plus pos (length l.name + 18) file
        ∙ ap (drop (length l.name + 18)) at
        ∙ ap (λ k. drop k (line_bytes l ++ tail)) (sym (length-line_bytes l v))
        ∙ drop-append (line_bytes l) tail

    loop-line :
        (fuel : ℕ) (out : List ℕ)
        → share_loop port file (suc fuel) pos out
          ≡ share_step port file (share_loop port file fuel) pos out (head_of l) (line_read l)
    unfolding share_loop
    loop-line fuel out =
        ap
          (λ t.
            share_step port file (share_loop port file fuel) pos out t
              (readline 255 (drop (pos + 17) file)))
          read_head
        ∙ ap (λ r. share_step port file (share_loop port file fuel) pos out (head_of l) r) read_rest

    pub loop-fits :
        (fuel : ℕ) (out : List ℕ)
        → length out + (length l.name + 18) < 1022
        → share_loop port file (suc fuel) pos out
          ≡ share_loop port file fuel (pos + (length l.name + 18)) (out ++ line_bytes l)
    loop-fits fuel out h = loop-line fuel out ∙ step-fits (share_loop port file fuel) pos l v out h

    pub loop-full :
        (fuel : ℕ) (out : List ℕ)
        → 1022 ≤ length out + (length l.name + 18)
        → share_loop port file (suc fuel) pos out ≡ (
            share_loop port file fuel pos [] >>= λ s.
            some (with_packet (share_data port file out) s))
    loop-full fuel out h = loop-line fuel out ∙ step-full (share_loop port file fuel) pos l v out h

  pub loop-end :
      (fuel pos : ℕ) (out : List ℕ)
      → drop pos file ≡ []
      → share_loop port file (suc fuel) pos out
        ≡ some (record {
          packets = if ltb 0 (length out) then share_data port file out ∷ [] else [];
          ok = true;
        })
  unfolding share_loop share_step
  loop-end fuel pos out h =
      ap
        (λ t.
          share_step port file (share_loop port file fuel) pos out (take 17 t)
            (readline 255 (drop (pos + 17) file)))
        h
