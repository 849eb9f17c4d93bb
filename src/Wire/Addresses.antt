-- ===== src/Wire/Addresses.antt =====
-- Addresses as they travel: six bytes each, parsed back and searched for.
use karmanet.Common.{
  ℕ, zero, suc, ◌-◌, ◌*◌, ◌^◌, ◌≤◌, ◌<◌, ◌≡◌, refl, sym, ap, ◌∙◌, Bool, false, ◌||◌, List, [], ◌∷◌,
  ◌++◌, map, append_assoc, arith, ◌==◌, length, drop, All,
}
use karmanet.Wire.{
  SockaddrIn, af_inet, addrcmp, ltob, stob, addr2str, str2addr, str_to_addr, same_bytes,
  contains_addr_loop, contains_addr, le_bytes,
}
use karmanet.Wire.Numbers.{btol-ltob, btos-stob, same_bytes-ltob, same_bytes-stob}

-- the fields have the widths of `in_addr_t` and `in_port_t`
pub record IsAddr (a : SockaddrIn) : Type 0 where
  pub s_addr : a.s_addr < 2 ^ 32
  pub sin_port : a.sin_port < 2 ^ 16

-- what a sequence of `addr2str` calls leaves in a buffer
abbrev pub addr_bytes : List SockaddrIn → List ℕ
addr_bytes [] = []
addr_bytes (a ∷ xs) = addr2str a.s_addr a.sin_port ++ addr_bytes xs

-- the address as it is read from the wire: the family does not travel
abbrev pub on_wire : SockaddrIn → SockaddrIn
on_wire a = record { sin_family = af_inet; sin_port = a.sin_port; s_addr = a.s_addr }

-- some element has the same address and port
abbrev pub any_addr : SockaddrIn → List SockaddrIn → Bool
any_addr a [] = false
any_addr a (b ∷ bs) = addrcmp b a || any_addr a bs

pub length-addr_bytes : (xs : List SockaddrIn) → length (addr_bytes xs) ≡ 6 * length xs
unfolding addr2str ltob stob le_bytes
length-addr_bytes [] = omega arith
length-addr_bytes (a ∷ xs) = omega (arith, length-addr_bytes xs)

pub addr_bytes-append :
    (xs ys : List SockaddrIn) → addr_bytes (xs ++ ys) ≡ addr_bytes xs ++ addr_bytes ys
addr_bytes-append [] ys = refl
addr_bytes-append (x ∷ xs) ys =
    let a = addr2str x.s_addr x.sin_port in
    ap (λ l. a ++ l) (addr_bytes-append xs ys)
    ∙ sym (append_assoc a (addr_bytes xs) (addr_bytes ys))

drop-ltob : (v : ℕ) (rest : List ℕ) → drop 4 (ltob v ++ rest) ≡ rest
unfolding ltob le_bytes
drop-ltob v rest = refl

drop-addr2str : (x p : ℕ) (rest : List ℕ) → drop 6 (addr2str x p ++ rest) ≡ rest
unfolding addr2str ltob stob le_bytes
drop-addr2str x p rest = refl

str2addr-addr2str :
    (a : SockaddrIn) (rest : List ℕ)
    → IsAddr a
    → str2addr (addr2str a.s_addr a.sin_port ++ rest) ≡ on_wire a
unfolding str2addr addr2str
str2addr-addr2str a rest h =
    let tail = stob a.sin_port ++ rest in
    rw (
      append_assoc (ltob a.s_addr) (stob a.sin_port) rest,
      btol-ltob a.s_addr tail h.s_addr,
      drop-ltob a.s_addr tail,
      btos-stob a.sin_port rest h.sin_port,
    )

module _ (x p y q : ℕ) (rest : List ℕ) where
  same_bytes-addr2str :
      x < 2 ^ 32 → y < 2 ^ 32 → same_bytes 4 (addr2str x p ++ rest) (ltob y) ≡ (x == y)
  unfolding addr2str
  same_bytes-addr2str hx hy = rw append_assoc (same_bytes-ltob x y (stob p ++ rest) hx hy)

  same_bytes-drop :
      p < 2 ^ 16 → q < 2 ^ 16 → same_bytes 2 (drop 4 (addr2str x p ++ rest)) (stob q) ≡ (p == q)
  unfolding addr2str
  same_bytes-drop hp hq = rw (append_assoc, drop-ltob) (same_bytes-stob p q rest hp hq)

-- A buffer of addresses is read back address by address, whatever follows it.
pub str_to_addr-addr_bytes :
    (xs : List SockaddrIn) (rest : List ℕ)
    → All IsAddr xs
    → str_to_addr (addr_bytes xs ++ rest) (length xs) ≡ map on_wire xs
unfolding str_to_addr
str_to_addr-addr_bytes [] rest h = refl
str_to_addr-addr_bytes (a ∷ xs) rest h =
    let tail = addr_bytes xs ++ rest in
    rw (
      append_assoc (addr2str a.s_addr a.sin_port) (addr_bytes xs) rest,
      str2addr-addr2str a tail h.0,
      drop-addr2str a.s_addr a.sin_port tail,
      str_to_addr-addr_bytes xs rest h.1,
    )

contains_addr_loop-addr_bytes :
    (fuel : ℕ) (xs : List SockaddrIn) (rest : List ℕ) (a : SockaddrIn)
    → All IsAddr xs
    → IsAddr a
    → length xs ≤ fuel
    → contains_addr_loop fuel (addr_bytes xs ++ rest) (6 * length xs) a ≡ any_addr a xs
unfolding contains_addr_loop
contains_addr_loop-addr_bytes zero [] rest a h ha le = refl
contains_addr_loop-addr_bytes zero (b ∷ xs) rest a h ha le = absurd (omega arith)
contains_addr_loop-addr_bytes (suc fuel) [] rest a h ha le = ground arith
contains_addr_loop-addr_bytes (suc fuel) (b ∷ xs) rest a h ha le =
    let tail = addr_bytes xs ++ rest in
    let left : 6 * suc (length xs) - 6 ≡ 6 * length xs = omega arith in
    let more : (6 * suc (length xs) == 0) ≡ false = ground arith in
    rw
      (
        append_assoc (addr2str b.s_addr b.sin_port) (addr_bytes xs) rest,
        more,
        left,
        drop-addr2str b.s_addr b.sin_port tail,
        contains_addr_loop-addr_bytes fuel xs rest a h.1 ha (omega arith),
        same_bytes-addr2str b.s_addr b.sin_port a.s_addr a.sin_port tail h.0.s_addr ha.s_addr,
        same_bytes-drop b.s_addr b.sin_port a.s_addr a.sin_port tail h.0.sin_port ha.sin_port,
      )
      (ground arith)

-- On a buffer that holds the addresses `xs`, the search finds exactly the addresses of `xs`,
-- whatever follows them.
pub contains_addr-addr_bytes :
    (xs : List SockaddrIn) (rest : List ℕ) (a : SockaddrIn)
    → All IsAddr xs
    → IsAddr a
    → contains_addr (addr_bytes xs ++ rest) (6 * length xs) a ≡ any_addr a xs
unfolding contains_addr
contains_addr-addr_bytes xs rest a h ha =
    contains_addr_loop-addr_bytes (6 * length xs) xs rest a h ha (omega arith)
