-- ===== src/SharedFiles/Own.antt =====
-- `add_sp_file` of src/client/client.c, by which a superpeer adds the lines of its own file of
-- changes to its index. The file is open and its reads succeed.
use karmanet.Common.{
  ℕ, zero, suc, ◌+◌, ◌-◌, ◌≤◌, ◌<◌, ◌≡◌, refl, sym, ap, ◌∙◌, true, false, not, ◌&&◌, ◌||◌, Option,
  none, some, List, [], ◌∷◌, ◌++◌, append-nil, arith, leb, ◌==◌, if◌then◌else◌, length, take, drop,
  length-append, take-append, drop-append, All,
}
use karmanet.Common.Memory.{◌>>=◌}
use karmanet.SharedFiles.{md5_digest_length, Line, Added, made, op_of, line_bytes, add_files}
use karmanet.SharedFiles.Lines.{
  IsLine, written, bytes_of, written-some, op_of-op_char, add_files-bytes_of,
}
use karmanet.SharedFiles.Share.{Read, readline}
use karmanet.SharedFiles.Rounds.{if-then, if-else, line_read, head_of, read_head, read_rest}

-- a string, up to its zero
abbrev pub text : List ℕ → List ℕ
text [] = []
text (b ∷ bs) = let rest = text bs in if b == 0 then [] else b ∷ rest

abbrev pub first : List ℕ → ℕ
first [] = 0
first (b ∷ bs) = b

-- The line that is read: `head` are the bytes that `read` gets, `r` what `readline` leaves. At the end
-- of the file the last byte of the digest is set to zero, and the name is that of the line before,
-- `old`. The array `buf` of 265 bytes has room for 248 behind the digest.
abbrev pub line_of : List ℕ → Read → List ℕ → Line
line_of head r old =
    if r.n == 0
    then record {
      op = op_of (first head);
      md5 = take (md5_digest_length - 1) (drop 1 head) ++ 0 ∷ [];
      name = old;
    }
    else record { op = op_of (first head); md5 = drop 1 head; name = text (take (r.n - 1) r.bytes) }

-- one round, where `rest` is what is left of the file and `go` the rest of the loop
unfoldable pub own_step :
    (List ℕ → List ℕ → Option Added) → List ℕ → List ℕ → List ℕ → Read → Option Added
own_step go rest old head r =
    if length head == 0
    then some (record { calls = []; ok = true })
    else if not (length head == md5_digest_length + 1)
        || (not (first head == b'+') && not (first head == b'-'))
    then some (record { calls = []; ok = false })
    else if leb 248 (length r.bytes)
    then none
    else (go (drop (length head + length r.bytes) rest) (line_of head r old).name >>= λ a.
        some (made (line_of head r old) a))

-- a round takes a byte, so as many rounds as bytes and one more are enough
unfoldable pub own_loop : ℕ → List ℕ → List ℕ → Option Added
unfolding own_step
own_loop zero rest old = none
own_loop (suc fuel) rest old =
    let go = own_loop fuel in
    own_step go rest old (take (md5_digest_length + 1) rest)
      (readline 255 (drop (md5_digest_length + 1) rest))

-- `old` is what `buf` holds at the start
unfoldable pub add_sp_file : List ℕ → List ℕ → Option Added
unfolding own_loop
add_sp_file file old = own_loop (suc (length file)) file old

-- a name that fits the array `buf`, without a zero
pub record IsOwn (l : Line) : Type 0 where
  pub short : length l.name ≤ 246
  pub name : All (λ b. (b == 0) ≡ false) l.name

text_self : (name : List ℕ) → All (λ b. (b == 0) ≡ false) name → text name ≡ name
text_self [] h = refl
text_self (b ∷ bs) h =
    ap (λ l. if b == 0 then [] else b ∷ l) (text_self bs h.1) ∙ if-else (b == 0) [] (b ∷ bs) h.0

line_of-line :
    (l : Line) (old : List ℕ)
    → All (λ b. (b == 0) ≡ false) l.name
    → line_of (head_of l) (line_read l) old ≡ l
line_of-line l old h =
    if-else (suc (length l.name) == 0) _ _ (ground arith)
    ∙ ap
        (λ o. record {
          op = o;
          md5 = l.md5;
          name = text (take (suc (length l.name) - 1) (l.name ++ b'\n' ∷ []));
        })
        (op_of-op_char l.op).0
    ∙ ap (λ k. record { op = l.op; md5 = l.md5; name = text (take k (l.name ++ b'\n' ∷ [])) })
        (less_one (length l.name))
    ∙ ap (λ n. record { op = l.op; md5 = l.md5; name = text n }) (take-append l.name (b'\n' ∷ []))
    ∙ ap (λ n. record { op = l.op; md5 = l.md5; name = n }) (text_self l.name h)
  where
    less_one : (k : ℕ) → suc k - 1 ≡ k
    less_one k = omega arith

module _ (l : Line) (tail : List ℕ) (v : IsLine l) where
  own_loop-line :
      (fuel : ℕ) (old : List ℕ)
      → own_loop (suc fuel) (line_bytes l ++ tail) old
        ≡ own_step (own_loop fuel) (line_bytes l ++ tail) old (head_of l) (line_read l)
  unfolding own_loop
  own_loop-line fuel old =
      ap
        (λ t.
          own_step (own_loop fuel) (line_bytes l ++ tail) old t
            (readline 255 (drop 17 (line_bytes l ++ tail))))
        (read_head 0 (line_bytes l ++ tail) 0 l tail v refl)
      ∙ ap (λ r. own_step (own_loop fuel) (line_bytes l ++ tail) old (head_of l) r)
          (read_rest 0 (line_bytes l ++ tail) 0 l tail v refl)

  head-IsLine :
      (not (length (head_of l) == 17)
        || (not (first (head_of l) == b'+') && not (first (head_of l) == b'-')))
      ≡ false
  head-IsLine =
      let m = v.md5 in
      let sized : (suc (length l.md5) == 17) ≡ true = ground arith in
      rw (sized, (op_of-op_char l.op).1) refl

  behind : drop (length (head_of l) + length (l.name ++ b'\n' ∷ [])) (line_bytes l ++ tail) ≡ tail
  behind =
      let size = length-append l.md5 (l.name ++ b'\n' ∷ []) in
      let same : length (head_of l) + length (l.name ++ b'\n' ∷ []) ≡ length (line_bytes l) =
        omega (arith, size) in
      ap (λ k. drop k (line_bytes l ++ tail)) same ∙ drop-append (line_bytes l) tail

  own_step-long :
      (go : List ℕ → List ℕ → Option Added) (old : List ℕ)
      → 247 ≤ length l.name
      → own_step go (line_bytes l ++ tail) old (head_of l) (line_read l) ≡ none
  unfolding own_step
  own_step-long go old h =
      let m = v.md5 in
      let bytes = length-append l.name (b'\n' ∷ []) in
      if-else (suc (length l.md5) == 0) _ _ (ground arith)
      ∙ if-else _ _ _ head-IsLine
      ∙ if-then (leb 248 (length (l.name ++ b'\n' ∷ []))) _ _ (ground arith)

  own_step-line :
      (go : List ℕ → List ℕ → Option Added) (old : List ℕ)
      → IsOwn l
      → own_step go (line_bytes l ++ tail) old (head_of l) (line_read l)
        ≡ (go tail l.name >>= λ a. some (made l a))
  unfolding own_step
  own_step-line go old w =
      let m = v.md5 in
      let s = w.short in
      let bytes = length-append l.name (b'\n' ∷ []) in
      if-else (suc (length l.md5) == 0) _ _ (ground arith)
      ∙ if-else _ _ _ head-IsLine
      ∙ if-else (leb 248 (length (l.name ++ b'\n' ∷ []))) _ _ (ground arith)
      ∙ ap
          (λ k. go k (line_of (head_of l) (line_read l) old).name >>= λ a.
            some (made (line_of (head_of l) (line_read l) old) a))
          behind
      ∙ ap (λ k. go tail k.name >>= λ a. some (made k a)) (line_of-line l old w.name)

own_loop-lines :
    (ls : List Line) (fuel : ℕ) (old : List ℕ)
    → All IsLine ls
    → All IsOwn ls
    → length ls < fuel
    → own_loop fuel (bytes_of ls) old ≡ some (record { calls = ls; ok = true })
unfolding own_loop own_step
own_loop-lines ls zero old v w h = absurd (omega (arith, h))
own_loop-lines [] (suc fuel) old v w h = refl
own_loop-lines (l ∷ ls) (suc fuel) old v w h =
    own_loop-line l (bytes_of ls) v.0 fuel old
    ∙ own_step-line l (bytes_of ls) v.0 (own_loop fuel) old w.0
    ∙ ap (λ o. o >>= λ a. some (made l a))
        (own_loop-lines ls fuel l.name v.1 w.1 (omega (arith, h)))

length-bytes_of : (ls : List Line) → length ls ≤ length (bytes_of ls)
length-bytes_of [] = omega arith
length-bytes_of (l ∷ ls) =
    let size = length-append (l.md5 ++ (l.name ++ b'\n' ∷ [])) (bytes_of ls) in
    omega (arith, size, length-bytes_of ls)

-- A superpeer adds the lines that `write_diff` wrote to its file as it would add them from a packet
-- of a peer, whatever `buf` held, if the names have no zero and at most 246 bytes: both readers make
-- the same calls. A first line with a longer name, which `write_diff` writes up to 253 bytes, is
-- written past `buf`.
pub add_sp_file-add_files :
    (old : List ℕ) (ls : List Line) (long : Line) (others : List Line)
    → All IsLine ls
    → All IsOwn ls
    → IsLine long
    → 247 ≤ length long.name
    → (file : List ℕ) × (written ls ≡ some file)
      × (add_sp_file file old ≡ add_files file (length file))
      × (add_sp_file (bytes_of (long ∷ others)) old ≡ none)
unfolding add_sp_file
add_sp_file-add_files old ls long others v w u h = (
  bytes_of ls,
  written-some ls v,
  own_loop-lines ls (suc (length (bytes_of ls))) old v w (omega (arith, length-bytes_of ls))
      ∙ sym (
          ap (λ t. add_files t (length (bytes_of ls))) (sym (append-nil (bytes_of ls)))
          ∙ add_files-bytes_of ls [] v),
  own_loop-line long (bytes_of others) u (length (bytes_of (long ∷ others))) old
      ∙ own_step-long long (bytes_of others) u (own_loop (length (bytes_of (long ∷ others)))) old h,
)
