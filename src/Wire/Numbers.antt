-- ===== src/Wire/Numbers.antt =====
-- A number written in memory order and read back, and bytes compared.
use karmanet.Common.{ℕ, ◌^◌, ◌<◌, ◌≡◌, List, ◌++◌, arith, ◌==◌}
use karmanet.Wire.{le_bytes, le_value, ltob, stob, btol, btos, same_bytes}

pub btol-ltob : (v : ℕ) (rest : List ℕ) → v < 2 ^ 32 → btol (ltob v ++ rest) ≡ v
unfolding btol ltob le_bytes le_value
btol-ltob v rest h = omega arith

pub btos-stob : (v : ℕ) (rest : List ℕ) → v < 2 ^ 16 → btos (stob v ++ rest) ≡ v
unfolding btos stob le_bytes le_value
btos-stob v rest h = omega arith

pub same_bytes-ltob :
    (v w : ℕ) (rest : List ℕ)
    → v < 2 ^ 32
    → w < 2 ^ 32
    → same_bytes 4 (ltob v ++ rest) (ltob w) ≡ (v == w)
unfolding same_bytes ltob le_bytes
same_bytes-ltob v w rest hv hw = ground arith

pub same_bytes-stob :
    (v w : ℕ) (rest : List ℕ)
    → v < 2 ^ 16
    → w < 2 ^ 16
    → same_bytes 2 (stob v ++ rest) (stob w) ≡ (v == w)
unfolding same_bytes stob le_bytes
same_bytes-stob v w rest hv hw = ground arith
