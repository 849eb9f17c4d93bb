-- ===== src/Overlay/Neighbours.antt =====
-- The list of neighbours, and the string of their addresses that mirrors it.
use karmanet.Common.{
  ℕ, zero, suc, ◌+◌, ◌-◌, ◌*◌, ◌≤◌, ◌<◌, ◌≡◌, refl, sym, ap, ◌∙◌, inl, inr, none, some, List, [],
  ◌∷◌, ◌++◌, append_assoc, arith, leb, if◌then◌else◌, Bool-cases, length, take, drop, replicate,
  length-replicate, length-drop,
}
use karmanet.Common.Memory.{memcpy, memcpy-some, memcpy-none}
use karmanet.Wire.{SockaddrIn, addr2str, ltob, stob, le_bytes}
use karmanet.Wire.Addresses.{addr_bytes}
use karmanet.Overlay.{NearNode, write_addrs, set_near}

abbrev pub near_addrs : List NearNode → List SockaddrIn
near_addrs [] = []
near_addrs (n ∷ ns) = n.addr ∷ near_addrs ns

pub length-addr2str : (a : SockaddrIn) → length (addr2str a.s_addr a.sin_port) ≡ 6
unfolding addr2str ltob stob le_bytes
length-addr2str a = refl

take-addr2str :
    (a : SockaddrIn) (rest : List ℕ)
    → take 6 (addr2str a.s_addr a.sin_port ++ rest) ≡ addr2str a.s_addr a.sin_port
unfolding addr2str ltob stob le_bytes
take-addr2str a rest = refl

pub take-addr2str_whole :
    (a : SockaddrIn) → take 6 (addr2str a.s_addr a.sin_port) ≡ addr2str a.s_addr a.sin_port
unfolding addr2str ltob stob le_bytes
take-addr2str_whole a = refl

drop-addr2str :
    (a : SockaddrIn) (rest : List ℕ) → drop 6 (addr2str a.s_addr a.sin_port ++ rest) ≡ rest
unfolding addr2str ltob stob le_bytes
drop-addr2str a rest = refl

drop-nil : (j : ℕ) → drop {A = ℕ} j [] ≡ []
drop-nil zero = refl
drop-nil (suc j) = refl

drop-drop :
    (j : ℕ) (xs : List ℕ) → drop (suc (suc (suc (suc (suc (suc j)))))) xs ≡ drop j (drop 6 xs)
drop-drop j [] = sym (drop-nil j)
drop-drop j (a ∷ []) = sym (drop-nil j)
drop-drop j (a ∷ b ∷ []) = sym (drop-nil j)
drop-drop j (a ∷ b ∷ c ∷ []) = sym (drop-nil j)
drop-drop j (a ∷ b ∷ c ∷ d ∷ []) = sym (drop-nil j)
drop-drop j (a ∷ b ∷ c ∷ d ∷ e ∷ []) = sym (drop-nil j)
drop-drop j (a ∷ b ∷ c ∷ d ∷ e ∷ f ∷ xs) = refl

abbrev pub zeros : ℕ → List ℕ
zeros n = replicate n 0

pub drop-zeros : (k n : ℕ) → drop k (zeros n) ≡ zeros (n - k)
drop-zeros zero n = let e : n ≡ n - 0 = omega arith in ap zeros e
drop-zeros (suc k) zero = let e : 0 ≡ 0 - suc k = omega arith in ap zeros e
drop-zeros (suc k) (suc n) =
    let e : n - k ≡ suc n - suc k = omega arith in drop-zeros k n ∙ ap zeros e

pub zeros-append : (m n : ℕ) → zeros m ++ zeros n ≡ zeros (m + n)
zeros-append zero n = let e : n ≡ 0 + n = omega arith in ap zeros e
zeros-append (suc m) n =
    let e : suc (m + n) ≡ suc m + n = omega arith in ap (λ l. 0 ∷ l) (zeros-append m n) ∙ ap zeros e

write_addrs-some :
    (ns : List NearNode) (buffer : List ℕ)
    → 6 * length ns ≤ length buffer
    → write_addrs ns buffer ≡ some (addr_bytes (near_addrs ns) ++ drop (6 * length ns) buffer)
unfolding write_addrs
write_addrs-some [] buffer h =
    let z : 6 * 0 ≡ 0 = omega arith in ap (λ j. some (drop j buffer)) (sym z)
write_addrs-some (n ∷ ns) buffer h =
    let a = addr2str n.addr.s_addr n.addr.sin_port in
    let end = drop 6 buffer in
    let j = 6 * length ns in
    let more : 6 * suc (length ns) ≡ suc (suc (suc (suc (suc (suc j))))) = omega arith in
    let room : j ≤ length end = rw length-drop (omega arith) in
    let copied : memcpy 6 a buffer ≡ some (a ++ end) =
      memcpy-some 6 a buffer (omega (arith, length-addr2str n.addr)) (omega arith)
      ∙ ap (λ l. some (l ++ end)) (take-addr2str_whole n.addr) in
    rw
      (
        copied,
        drop-addr2str n.addr end,
        take-addr2str n.addr end,
        write_addrs-some ns end room,
        more,
        drop-drop j buffer,
        append_assoc a,
      )
      refl

write_addrs-none :
    (ns : List NearNode) (buffer : List ℕ)
    → length buffer < 6 * length ns
    → write_addrs ns buffer ≡ none
unfolding write_addrs
write_addrs-none [] buffer h = absurd (omega arith)
write_addrs-none (n ∷ ns) buffer h =
    let a = addr2str n.addr.s_addr n.addr.sin_port in
    let end = drop 6 buffer in
    elim (Bool-cases (leb 6 (length buffer))) [
      | inr short ↦ rw (memcpy-none 6 a buffer (ground arith)) refl
      | inl long ↦
          let le : 6 ≤ length buffer = ground arith in
          let copied : memcpy 6 a buffer ≡ some (a ++ end) =
            memcpy-some 6 a buffer (omega (arith, length-addr2str n.addr)) le
            ∙ ap (λ l. some (l ++ end)) (take-addr2str_whole n.addr) in
          let over : length end < 6 * length ns = rw length-drop (omega arith) in
          rw (copied, drop-addr2str n.addr end, write_addrs-none ns end over) refl
    ]

-- what `near_str` holds for these neighbours
abbrev pub mirror : ℕ → List NearNode → List ℕ
mirror max ns = addr_bytes (near_addrs ns) ++ zeros (max * 6 - 6 * length ns)

-- `set_near` writes the addresses of the neighbours in their order, and zeros behind them, if there
-- are at most `max_tcp_sock` of them; with one more it writes past the end of `near_str`.
pub set_near-mirror :
    (max : ℕ) (ns : List NearNode)
    → set_near max ns ≡ (if leb (length ns) max then some (mirror max ns) else none)
unfolding set_near
set_near-mirror max ns =
    let buffer = zeros (max * 6) in
    let size : length buffer ≡ max * 6 = length-replicate (max * 6) 0 in
    elim (Bool-cases (leb (length ns) max)) [
      | inl le ↦
          let room : length ns ≤ max = ground arith in
          write_addrs-some ns buffer (omega (arith, size))
          ∙ ap (λ l. some (addr_bytes (near_addrs ns) ++ l)) (drop-zeros (6 * length ns) (max * 6))
          ∙ rw le refl
      | inr gt ↦
          let over : max < length ns = ground arith in
          write_addrs-none ns buffer (omega (arith, size)) ∙ rw gt refl
    ]
