-- ===== src/Whohas/Rounds.antt =====
-- The loop over the results of a request for a name.
use karmanet.Common.{
  ℕ, zero, suc, ◌+◌, ◌*◌, ◌≤◌, ◌<◌, ◌≡◌, refl, sym, ap, ◌∙◌, inl, inr, Bool, true, false, Option,
  some, List, [], ◌∷◌, ◌++◌, map, append_assoc, append-nil, arith, ltb, if◌then◌else◌, Bool-cases,
  length, take, length-append, take-append, All,
}
use karmanet.Common.Memory.{◌>>=◌}
use karmanet.Packet.{max_packet_data_len}
use karmanet.FileIndex.{AddrNode}
use karmanet.Whohas.{entry, entry_len, name_loop, Found, whohas_response_handler_name}
use karmanet.Whohas.Entries.{
  IsEntry, IsName, entries, entries-append, length-entries, length-entry,
  whohas_response_handler_name-entries, shown,
}

-- What a peer reads from the answers in turn. An array holds a zero behind the data of its packet.
abbrev pub hear : List (List ℕ) → Option (List Found)
hear [] = some []
hear (a ∷ answers) =
    let more = hear answers in
    whohas_response_handler_name (a ++ 0 ∷ []) (length a) >>= λ o.
    o >>= λ found. more >>= λ others. some (found ++ others)

pub record Answers (name : List ℕ) (rs : List AddrNode) (o : Option (List (List ℕ))) : Type 0 where
  pub answers : List (List ℕ)
  pub result : o ≡ some answers
  pub heard : hear answers ≡ some (map (shown name) rs)
  pub fits : All (λ a. length a < max_packet_data_len) answers

All-snoc :
    (rs : List AddrNode) (r : AddrNode) → All IsEntry rs → IsEntry r → All IsEntry (rs ++ r ∷ [])
All-snoc [] r v w = (w, tt)
All-snoc (q ∷ rs) r v w = (v.0, All-snoc rs r v.1 w)

map-append :
    (f : AddrNode → Found) (rs qs : List AddrNode) → map f (rs ++ qs) ≡ map f rs ++ map f qs
map-append f [] qs = refl
map-append f (r ∷ rs) qs = ap (λ l. f r ∷ l) (map-append f rs qs)

ite-true : {A : Type 0} (b : Bool) (x y : A) → b ≡ true → (if b then x else y) ≡ x
ite-true true x y h = refl
ite-true false x y h = absurd (cc)

pub ite-false : {A : Type 0} (b : Bool) (x y : A) → b ≡ false → (if b then x else y) ≡ y
ite-false false x y h = refl
ite-false true x y h = absurd (cc)

module _ (name : List ℕ) (n : IsName name) where
  abbrev answer : List AddrNode → List ℕ
  answer rs = (name ++ b'\n' ∷ []) ++ entries rs

  pub length-answer :
      (rs : List AddrNode) → All IsEntry rs → length (answer rs) ≡ length name + 1 + 22 * length rs
  length-answer rs v =
      length-append (name ++ b'\n' ∷ []) (entries rs)
      ∙ omega (arith, length-append name (b'\n' ∷ []), length-entries rs v)

  hear-answer :
      (rs : List AddrNode) (answers : List (List ℕ)) (qs : List Found)
      → All IsEntry rs
      → hear answers ≡ some qs
      → hear (answer rs ∷ answers) ≡ some (map (shown name) rs ++ qs)
  hear-answer rs answers qs v h =
      rw
        (
          length-answer rs v,
          append_assoc (name ++ b'\n' ∷ []) (entries rs) (0 ∷ []),
          append_assoc name (b'\n' ∷ []) (entries rs ++ 0 ∷ []),
          whohas_response_handler_name-entries name rs (0 ∷ []) n v,
          h,
        )
        refl

  -- the array with one more result
  answer-snoc : (rs : List AddrNode) (r : AddrNode) → answer rs ++ entry r ≡ answer (rs ++ r ∷ [])
  answer-snoc rs r =
      append_assoc (name ++ b'\n' ∷ []) (entries rs) (entry r)
      ∙ ap (λ l. (name ++ b'\n' ∷ []) ++ l)
          (ap (λ l. entries rs ++ l) (sym (append-nil (entry r)))
            ∙ sym (entries-append rs (r ∷ [])))

  take-answer : (rs : List AddrNode) → take (length name + 1) (answer rs) ≡ answer []
  take-answer rs =
      ap (λ k. take k (answer rs)) (sym (length-append name (b'\n' ∷ [])))
      ∙ take-append (name ++ b'\n' ∷ []) (entries rs)
      ∙ sym (append-nil (name ++ b'\n' ∷ []))

  length-answer-snoc :
      (rs : List AddrNode) (r : AddrNode)
      → IsEntry r
      → length (answer (rs ++ r ∷ [])) ≡ length (answer rs) + 22
  length-answer-snoc rs r v =
      ap length (sym (answer-snoc rs r))
      ∙ length-append (answer rs) (entry r)
      ∙ ap (λ k. length (answer rs) + k) (length-entry r v)

  -- what the loop does with a result that fits, and with one that does not
  loop-last :
      (fuel : ℕ) (done : List AddrNode) (r : AddrNode)
      → length (answer done) + 22 < max_packet_data_len
      → name_loop (suc fuel) (length name + 1) (answer done) (r ∷ [])
        ≡ some (answer (done ++ r ∷ []) ∷ [])
  unfolding name_loop
  loop-last fuel done r h =
      ite-true (ltb (length (answer done) + entry_len) max_packet_data_len) _ _ (ground arith)
      ∙ ap (λ a. some (a ∷ [])) (answer-snoc done r)

  loop-next :
      (fuel : ℕ) (done : List AddrNode) (r q : AddrNode) (rest : List AddrNode)
      → length (answer done) + 22 < max_packet_data_len
      → name_loop (suc fuel) (length name + 1) (answer done) (r ∷ q ∷ rest)
        ≡ name_loop fuel (length name + 1) (answer (done ++ r ∷ [])) (q ∷ rest)
  unfolding name_loop
  loop-next fuel done r q rest h =
      ite-true (ltb (length (answer done) + entry_len) max_packet_data_len) _ _ (ground arith)
      ∙ ap (λ a. name_loop fuel (length name + 1) a (q ∷ rest)) (answer-snoc done r)

  loop-full :
      (fuel : ℕ) (done : List AddrNode) (r : AddrNode) (rest : List AddrNode)
      → max_packet_data_len ≤ length (answer done) + 22
      → name_loop (suc fuel) (length name + 1) (answer done) (r ∷ rest) ≡ (
          name_loop fuel (length name + 1) (answer []) (r ∷ rest) >>= λ answers.
          some (answer done ∷ answers))
  unfolding name_loop
  loop-full fuel done r rest h =
      ite-false (ltb (length (answer done) + entry_len) max_packet_data_len) _ _ (ground arith)
      ∙ ap
          (λ a. name_loop fuel (length name + 1) a (r ∷ rest) >>= λ answers.
            some (answer done ∷ answers))
          (take-answer done)

  -- the last of the results fits
  writes-last :
      (fuel : ℕ) (done : List AddrNode) (r : AddrNode)
      → length (answer done) + 22 < max_packet_data_len
      → IsEntry r
      → All IsEntry done
      → Answers name
          (done ++ r ∷ [])
          (name_loop (suc fuel) (length name + 1) (answer done) (r ∷ []))
  writes-last fuel done r fits v w = record {
    answers = answer (done ++ r ∷ []) ∷ [];
    result = loop-last fuel done r fits;
    heard =
        hear-answer (done ++ r ∷ []) [] [] (All-snoc done r w v) refl
        ∙ ap some (append-nil (map (shown name) (done ++ r ∷ [])));
    fits = (omega (arith, length-answer-snoc done r v, fits), tt);
  }

  -- a result fits, and others are left
  writes-next :
      (fuel : ℕ) (done : List AddrNode) (r q : AddrNode) (rest : List AddrNode)
      → length (answer done) + 22 < max_packet_data_len
      → Answers name
          ((done ++ r ∷ []) ++ q ∷ rest)
          (name_loop fuel (length name + 1) (answer (done ++ r ∷ [])) (q ∷ rest))
      → Answers name
          (done ++ r ∷ q ∷ rest)
          (name_loop (suc fuel) (length name + 1) (answer done) (r ∷ q ∷ rest))
  writes-next fuel done r q rest fits a = record {
    answers = a.answers;
    result = loop-next fuel done r q rest fits ∙ a.result;
    heard = a.heard ∙ ap (λ l. some (map (shown name) l)) (append_assoc done (r ∷ []) (q ∷ rest));
    fits = a.fits;
  }

  -- a result does not fit, and a new packet begins
  flushes :
      (fuel : ℕ) (done : List AddrNode) (r : AddrNode) (rest : List AddrNode)
      → max_packet_data_len ≤ length (answer done) + 22
      → length (answer done) < max_packet_data_len
      → All IsEntry done
      → Answers name (r ∷ rest) (name_loop fuel (length name + 1) (answer []) (r ∷ rest))
      → Answers name
          (done ++ r ∷ rest)
          (name_loop (suc fuel) (length name + 1) (answer done) (r ∷ rest))
  flushes fuel done r rest full fits w a = record {
    answers = answer done ∷ a.answers;
    result =
        loop-full fuel done r rest full
        ∙ ap (λ o. o >>= λ answers. some (answer done ∷ answers)) a.result;
    heard =
        hear-answer done a.answers (map (shown name) (r ∷ rest)) w a.heard
        ∙ ap some (sym (map-append (shown name) done (r ∷ rest)));
    fits = (fits, a.fits);
  }

  -- the results that are left, behind those of `done`
  pub name_loop-Answers :
      (rest : List AddrNode) (fuel : ℕ) (done : List AddrNode) (r : AddrNode)
      → 2 * length (r ∷ rest) ≤ fuel
      → length name + 23 < max_packet_data_len
      → length (answer done) < max_packet_data_len
      → All IsEntry (r ∷ rest)
      → All IsEntry done
      → Answers name (done ++ r ∷ rest) (name_loop fuel (length name + 1) (answer done) (r ∷ rest))
  name_loop-Answers rest zero done r enough short fits v w = absurd (omega (arith, enough))
  name_loop-Answers rest (suc zero) done r enough short fits v w = absurd (omega (arith, enough))
  name_loop-Answers [] (suc (suc fuel)) done r enough short fits v w =
      elim (Bool-cases (ltb (length (answer done) + 22) max_packet_data_len)) [
        | inl f ↦ writes-last (suc fuel) done r (ground arith) v.0 w
        | inr f ↦
            flushes (suc fuel) done r [] (ground arith) fits w
              (writes-last fuel [] r (omega (arith, short, length-answer [] tt)) v.0 tt)
      ]
  name_loop-Answers (q ∷ rest) (suc (suc fuel)) done r enough short fits v w =
      elim (Bool-cases (ltb (length (answer done) + 22) max_packet_data_len)) [
        | inl f ↦ writes-next (suc fuel) done r q rest (ground arith) (
            name_loop-Answers rest (suc fuel) (done ++ r ∷ []) q (omega (arith, enough)) short
              (let k = length-answer-snoc done r v.0 in ground arith) v.1 (All-snoc done r w v.0))
        | inr f ↦ flushes (suc fuel) done r (q ∷ rest) (ground arith) fits w (
            writes-next fuel [] r q rest (omega (arith, short, length-answer [] tt)) (
              name_loop-Answers rest fuel (r ∷ []) q (omega (arith, enough)) short
                (omega (arith, short, length-answer (r ∷ []) (v.0, tt))) v.1 (v.0, tt)))
      ]
