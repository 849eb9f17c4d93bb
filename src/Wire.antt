-- ===== src/Wire.antt =====
-- The byte encodings of src/common/ioutil.c and the addresses of src/common/inetutil.c.
-- A `long` has four bytes and a `short` two, and the machine is little-endian, as the constant
-- ADDR_STR_LEN = 6 asks. A buffer is the list of its bytes.
pub mod Numbers
pub mod Addresses
use karmanet.Common.{
  ℕ, zero, suc, ◌+◌, ◌-◌, ◌*◌, ◌/◌, ◌%◌, Bool, true, false, ◌&&◌, List, [], ◌∷◌, ◌++◌, ◌==◌,
  if◌then◌else◌, take, drop,
}

-- the bytes of a number in memory order, `it[0]` to `it[n - 1]`
unfoldable pub le_bytes : ℕ → ℕ → List ℕ
le_bytes zero v = []
le_bytes (suc n) v = (v % 256) ∷ le_bytes n (v / 256)

unfoldable pub le_value : List ℕ → ℕ
le_value [] = 0
le_value (b ∷ bs) = b + 256 * le_value bs

unfoldable pub ltob : ℕ → List ℕ
ltob src = le_bytes 4 src

unfoldable pub stob : ℕ → List ℕ
stob src = le_bytes 2 src

unfoldable pub btol : List ℕ → ℕ
btol str = le_value (take 4 str)

unfoldable pub btos : List ℕ → ℕ
btos str = le_value (take 2 str)

-- `struct sockaddr_in` without its padding, which no assignment of the program names
pub record SockaddrIn : Type 0 where
  pub sin_family : ℕ
  pub sin_port : ℕ
  pub s_addr : ℕ

abbrev pub af_inet : ℕ
af_inet = 2

abbrev pub addr_str_len : ℕ
addr_str_len = 6

abbrev pub addrcpy : SockaddrIn → SockaddrIn → SockaddrIn
addrcpy dest src = record dest {
  sin_family = src.sin_family;
  s_addr = src.s_addr;
  sin_port = src.sin_port;
}

abbrev pub addrcmp : SockaddrIn → SockaddrIn → Bool
addrcmp sad1 sad2 = (sad1.s_addr == sad2.s_addr) && (sad1.sin_port == sad2.sin_port)

unfoldable pub addr2str : ℕ → ℕ → List ℕ
addr2str addr port = ltob addr ++ stob port

unfoldable pub str2addr : List ℕ → SockaddrIn
str2addr str = record { sin_family = af_inet; sin_port = btos (drop 4 str); s_addr = btol str }

-- the loop over `i < dim`, with `str` already advanced by `i * offset`
unfoldable pub str_to_addr : List ℕ → ℕ → List SockaddrIn
str_to_addr str zero = []
str_to_addr str (suc dim) = str2addr str ∷ str_to_addr (drop 6 str) dim

-- `!memcmp(a, b, n)`
unfoldable pub same_bytes : ℕ → List ℕ → List ℕ → Bool
same_bytes zero a b = true
same_bytes (suc n) (x ∷ a) (y ∷ b) = (x == y) && same_bytes n a b
same_bytes (suc n) a b = false

-- the loop `while (offset < str_len)`, `left` bytes before `str_len`; each round is six bytes
-- long, so `left` rounds are enough
contains_addr_loop : ℕ → List ℕ → ℕ → SockaddrIn → Bool
contains_addr_loop zero str left addr = false
contains_addr_loop (suc fuel) str left addr =
    let rest = contains_addr_loop fuel (drop 6 str) (left - 6) addr in
    if left == 0
    then false
    else if same_bytes 4 str (ltob addr.s_addr)
    then if same_bytes 2 (drop 4 str) (stob addr.sin_port) then true else rest
    else rest

unfoldable pub contains_addr : List ℕ → ℕ → SockaddrIn → Bool
unfolding contains_addr_loop
contains_addr str str_len addr = contains_addr_loop str_len str str_len addr
