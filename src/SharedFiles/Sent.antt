-- ===== src/SharedFiles/Sent.antt =====
-- The lines of a file of changes reach the superpeer in packets.
use karmanet.Common.{
  ℕ, zero, suc, ◌+◌, ◌*◌, ◌≤◌, ◌<◌, ◌≡◌, refl, sym, ap, ◌∙◌, inl, inr, true, Option, none, some,
  List, [], ◌∷◌, ◌++◌, append_assoc, append-nil, arith, ltb, if◌then◌else◌, Bool-cases, length,
  drop, length-append, All,
}
use mathlib.Core.Path.{subst}
use karmanet.Common.Memory.{◌>>=◌}
use karmanet.Wire.{stob, le_bytes}
use karmanet.SharedFiles.{Line, line_bytes, add_files}
use karmanet.SharedFiles.Lines.{IsLine, written, bytes_of, written-some, add_files-bytes_of}
use karmanet.SharedFiles.Share.{
  maxline, Shared, with_packet, share_data, share_loop, send_share, update_file_list,
}
use karmanet.SharedFiles.Rounds.{
  bytes_of-snoc, length-line_bytes, if-then, All-snoc, loop-fits, loop-full, loop-end, read_tail,
}

-- the calls that the superpeer makes for the packets in turn, if each is read without an error
abbrev pub told : List (List ℕ) → Option (List Line)
told [] = some []
told (p ∷ packets) =
    let more = told packets in
    update_file_list p >>= λ r. if r.ok then (more >>= λ ls. some (r.calls ++ ls)) else none

pub record Sent (ls : List Line) (o : Option Shared) : Type 0 where
  pub packets : List (List ℕ)
  pub result : o ≡ some (record { packets = packets; ok = true })
  pub heard : told packets ≡ some ls
  pub fits : All (λ p. length p < maxline) packets

module _ (port : ℕ) (file : List ℕ) where
  packet : List Line → List ℕ
  packet ls = share_data port file (bytes_of ls)

  update_file_list-packet :
      (ls : List Line)
      → All IsLine ls
      → update_file_list (packet ls) ≡ some (record { calls = ls; ok = true })
  unfolding update_file_list packet stob le_bytes
  update_file_list-packet ls v =
      ap (λ k. add_files (bytes_of ls) k) (omega arith)
      ∙ ap (λ t. add_files t (length (bytes_of ls))) (sym (append-nil (bytes_of ls)))
      ∙ add_files-bytes_of ls [] v

  told-packet :
      (ls : List Line) (packets : List (List ℕ)) (others : List Line)
      → All IsLine ls
      → told packets ≡ some others
      → told (packet ls ∷ packets) ≡ some (ls ++ others)
  told-packet ls packets others v h = rw (update_file_list-packet ls v, h) refl

  packet-short : (ls : List Line) → length (bytes_of ls) < 1022 → length (packet ls) < 1024
  unfolding packet stob le_bytes
  packet-short ls h = omega (arith, h)

  -- the end of the file
  ends :
      (fuel pos : ℕ) (done : List Line)
      → drop pos file ≡ []
      → length (bytes_of done) < 1022
      → All IsLine done
      → Sent done (share_loop port file (suc fuel) pos (bytes_of done))
  unfolding packet
  ends fuel pos [] h short v = record {
    packets = [];
    result = loop-end port file fuel pos [] h;
    heard = refl;
    fits = tt;
  }
  ends fuel pos (d ∷ done) h short v = record {
    packets = packet (d ∷ done) ∷ [];
    result =
        loop-end port file fuel pos (bytes_of (d ∷ done)) h
        ∙ ap (λ p. some (record { packets = p; ok = true }))
            (if-then (ltb 0 (length (bytes_of (d ∷ done)))) (packet (d ∷ done) ∷ []) []
              (ground arith));
    heard = told-packet (d ∷ done) [] [] v refl ∙ ap some (append-nil (d ∷ done));
    fits = (packet-short (d ∷ done) short, tt);
  }

  -- the next line fits
  fits_line :
      (fuel pos : ℕ) (done rest : List Line) (l : Line)
      → IsLine l
      → drop pos file ≡ line_bytes l ++ bytes_of rest
      → length (bytes_of done) + (length l.name + 18) < 1022
      → Sent
          ((done ++ l ∷ []) ++ rest)
          (share_loop port file fuel (pos + (length l.name + 18)) (bytes_of (done ++ l ∷ [])))
      → Sent (done ++ l ∷ rest) (share_loop port file (suc fuel) pos (bytes_of done))
  fits_line fuel pos done rest l v at short s = record {
    packets = s.packets;
    result =
        loop-fits port file pos l (bytes_of rest) v at fuel (bytes_of done) short
        ∙ ap (share_loop port file fuel (pos + (length l.name + 18))) (bytes_of-snoc done l)
        ∙ s.result;
    heard = s.heard ∙ ap some (append_assoc done (l ∷ []) rest);
    fits = s.fits;
  }

  -- the next line does not fit, and a new packet begins
  full_packet :
      (fuel pos : ℕ) (done rest : List Line) (l : Line)
      → IsLine l
      → drop pos file ≡ line_bytes l ++ bytes_of rest
      → 1022 ≤ length (bytes_of done) + (length l.name + 18)
      → length (bytes_of done) < 1022
      → All IsLine done
      → Sent (l ∷ rest) (share_loop port file fuel pos [])
      → Sent (done ++ l ∷ rest) (share_loop port file (suc fuel) pos (bytes_of done))
  unfolding packet
  full_packet fuel pos done rest l v at full short w s = record {
    packets = packet done ∷ s.packets;
    result =
        loop-full port file pos l (bytes_of rest) v at fuel (bytes_of done) full
        ∙ ap (λ o. o >>= λ q. some (with_packet (packet done) q)) s.result;
    heard = told-packet done s.packets (l ∷ rest) w s.heard;
    fits = (packet-short done short, s.fits);
  }

  length-snoc :
      (done : List Line) (l : Line)
      → IsLine l
      → length (bytes_of (done ++ l ∷ [])) ≡ length (bytes_of done) + (length l.name + 18)
  length-snoc done l v =
      ap length (sym (bytes_of-snoc done l))
      ∙ length-append (bytes_of done) (line_bytes l)
      ∙ ap (λ k. length (bytes_of done) + k) (length-line_bytes l v)

  share_loop-Sent :
      (rest : List Line) (fuel pos : ℕ) (done : List Line)
      → 2 * length rest < fuel
      → drop pos file ≡ bytes_of rest
      → length (bytes_of done) < 1022
      → All IsLine rest
      → All IsLine done
      → Sent (done ++ rest) (share_loop port file fuel pos (bytes_of done))
  share_loop-Sent rest zero pos done enough at short v w = absurd (omega (arith, enough))
  share_loop-Sent [] (suc fuel) pos done enough at short v w =
      subst (λ ls. Sent ls (share_loop port file (suc fuel) pos (bytes_of done)))
        (sym (append-nil done)) (ends fuel pos done at short w)
  share_loop-Sent (l ∷ rest) (suc zero) pos done enough at short v w =
      absurd (omega (arith, enough))
  share_loop-Sent (l ∷ rest) (suc (suc fuel)) pos done enough at short v w =
      let behind = read_tail port file pos l (bytes_of rest) v.0 at in
      let most = v.0.short in
      elim (Bool-cases (ltb (length (bytes_of done) + (length l.name + 18)) 1022)) [
        | inl f ↦ fits_line (suc fuel) pos done rest l v.0 at (ground arith) (
            share_loop-Sent rest (suc fuel) (pos + (length l.name + 18)) (done ++ l ∷ [])
              (omega (arith, enough)) behind (let k = length-snoc done l v.0 in ground arith) v.1
              (All-snoc done l w v.0))
        | inr f ↦ full_packet (suc fuel) pos done rest l v.0 at (ground arith) short w (
            fits_line fuel pos [] rest l v.0 at (omega (arith, most)) (
              share_loop-Sent rest fuel (pos + (length l.name + 18)) (l ∷ [])
                (omega (arith, enough)) behind
                (let k = length-snoc [] l v.0 in omega (arith, k, most)) v.1 (v.0, tt)))
      ]

-- A file with lines of `write_diff` is sent whole: the loop ends, within two rounds for each line and
-- one more; each packet has fewer than 1024 bytes of data; and the superpeer makes for the packets
-- in turn the calls of the lines, each once and in the order of the file, without an error.
pub send_share-Sent :
    (port fuel : ℕ) (ls : List Line)
    → All IsLine ls
    → 2 * length ls < fuel
    → (file : List ℕ) × (written ls ≡ some file)
      × (packets : List (List ℕ)) × (send_share port file fuel
          ≡ some (record { packets = packets; ok = true }))
      × (told packets ≡ some ls)
      × All (λ p. length p < maxline) packets
unfolding send_share
send_share-Sent port fuel ls v enough =
    let s = share_loop-Sent port (bytes_of ls) ls fuel 0 [] enough refl (omega arith) v tt in
    (bytes_of ls, written-some ls v, s.packets, s.result, s.heard, s.fits)
