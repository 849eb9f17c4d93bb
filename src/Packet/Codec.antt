-- ===== src/Packet/Codec.antt =====
-- `pck_to_b` and `b_to_pck` against one another, and the bounds of the encoding.
use karmanet.Common.{
  ℕ, zero, suc, ◌+◌, ◌^◌, ◌≤◌, ◌<◌, ◌≡◌, refl, ap, Option, none, some, List, [], ◌∷◌, ◌++◌,
  append_assoc, arith, length, take, drop, length-append, take-append, length-take,
}
use karmanet.Common.Memory.{
  ◌>>=◌, memcpy, store_byte, memcpy-some, read_bytes-some, store_byte-some, set-append,
}
use karmanet.Wire.{le_bytes, stob}
use karmanet.Packet.{
  Packet, header_size, max_packet_data_len, max_packet_size, get_pcklen, pck_to_b, b_to_header,
  b_to_pck,
}
use karmanet.Wire.Numbers.{btos-stob}

-- the fields have the widths of the C types, and the payload is in its array
pub record IsPacket (p : Packet) : Type 0 where
  pub cmd : length p.cmd ≡ 3
  pub index : p.index < 2 ^ 16
  pub ttl : p.ttl < 2 ^ 16
  pub data_len : p.data_len ≤ max_packet_data_len
  pub payload : length p.payload ≡ max_packet_data_len

-- the bytes of a packet, written down at once
abbrev pub packet_bytes : Packet → List ℕ
packet_bytes p =
    p.cmd
    ++ p.flag ∷ (stob p.index ++ (stob p.ttl ++ (stob p.data_len ++ take p.data_len p.payload)))

drop-stob : (v : ℕ) (rest : List ℕ) → drop 2 (stob v ++ rest) ≡ rest
unfolding stob le_bytes
drop-stob v rest = refl

drop-stob₂ : (v w : ℕ) (rest : List ℕ) → drop 4 (stob v ++ (stob w ++ rest)) ≡ rest
unfolding stob le_bytes
drop-stob₂ v w rest = refl

drop-stob₃ : (v w x : ℕ) (rest : List ℕ) → drop 6 (stob v ++ (stob w ++ (stob x ++ rest))) ≡ rest
unfolding stob le_bytes
drop-stob₃ v w x rest = refl

length-stob : (v : ℕ) → length (stob v) ≡ 2
unfolding stob le_bytes
length-stob v = refl

take-all : (xs : List ℕ) → take (length xs) xs ≡ xs
take-all [] = refl
take-all (x ∷ xs) = ap (λ l. x ∷ l) (take-all xs)

pub pck_to_b-packet_bytes : (p : Packet) → IsPacket p → pck_to_b p ≡ some (packet_bytes p)
unfolding pck_to_b
pck_to_b-packet_bytes p h =
    let whole : take 3 p.cmd ≡ p.cmd = rw h.cmd at (take-all p.cmd) in
    rw (
      read_bytes-some 3 p.cmd (omega (arith, h.cmd)),
      read_bytes-some p.data_len p.payload (omega (arith, h.data_len, h.payload)),
      whole,
    )

-- The encoding of a well-formed packet has `get_pcklen` bytes, and so it fits a buffer of
-- MAX_PACKET_SIZE bytes.
pub length-pck_to_b :
    (p : Packet)
    → IsPacket p
    → (bytes : List ℕ) × (pck_to_b p ≡ some bytes)
      × (length bytes ≡ get_pcklen p)
      × (length bytes ≤ max_packet_size)
unfolding get_pcklen
length-pck_to_b p h =
    let size : length (packet_bytes p) ≡ 10 + p.data_len =
      simp
        (
          length-append,
          length-stob,
          h.cmd,
          length-take p.data_len p.payload (omega (arith, h.data_len, h.payload)),
        )
        (omega arith) in
    (
      packet_bytes p,
      pck_to_b-packet_bytes p h,
      omega (arith, size),
      omega (arith, size, h.data_len),
    )

module _ (a b c flag index ttl len : ℕ) (rest : List ℕ) (o : Packet) where
  b_to_header-stob :
      index < 2 ^ 16
      → ttl < 2 ^ 16
      → len < 2 ^ 16
      → b_to_header (a ∷ b ∷ c ∷ flag ∷ (stob index ++ (stob ttl ++ (stob len ++ rest)))) o
        ≡ record o { cmd = a ∷ b ∷ c ∷ []; flag = flag; index = index; ttl = ttl; data_len = len }
  unfolding b_to_header
  b_to_header-stob hi ht hl = rw (
    drop-stob index (stob ttl ++ (stob len ++ rest)),
    drop-stob₂ index ttl (stob len ++ rest),
    btos-stob index (stob ttl ++ (stob len ++ rest)) hi,
    btos-stob ttl (stob len ++ rest) ht,
    btos-stob len rest hl,
  )

  drop-header :
      drop header_size (a ∷ b ∷ c ∷ flag ∷ (stob index ++ (stob ttl ++ (stob len ++ rest)))) ≡ rest
  drop-header = drop-stob₃ index ttl len rest

-- What `b_to_pck` makes of the payload: the bytes, a zero, and the old rest of the array.
abbrev pub received : Packet → Packet → Packet
received p o = record p {
  payload = take p.data_len p.payload ++ 0 ∷ drop (suc p.data_len) o.payload;
}

drop-suc {ℓ} :
    {A : Type ℓ} (n : ℕ) (xs : List A) → n < length xs → (y : A) × (drop n xs ≡ y ∷ drop (suc n) xs)
drop-suc zero [] h = absurd (omega arith)
drop-suc zero (x ∷ xs) h = (x, refl)
drop-suc (suc n) [] h = absurd (omega arith)
drop-suc (suc n) (x ∷ xs) h = drop-suc n xs (omega arith)

three : (xs : List ℕ) → length xs ≡ 3 → (a b c : ℕ) × (xs ≡ a ∷ b ∷ c ∷ [])
three (a ∷ b ∷ c ∷ []) h = (a, b, c, refl)
three [] h = absurd (omega arith)
three (a ∷ []) h = absurd (omega arith)
three (a ∷ b ∷ []) h = absurd (omega arith)
three (a ∷ b ∷ c ∷ d ∷ xs) h = absurd (omega arith)

-- the copy and the zero behind it, for bytes that the array has room for
copy_and_end :
    (src rest dest : List ℕ)
    → length src < length dest
    → (memcpy (length src) (src ++ rest) dest >>= λ d. store_byte d (length src) 0)
      ≡ some (src ++ 0 ∷ drop (suc (length src)) dest)
copy_and_end src rest dest hd =
    let (y, e) = drop-suc (length src) dest hd in
    let end = drop (suc (length src)) dest in
    let fits : length src < length (src ++ y ∷ end) = rw length-append (omega arith) in
    rw (
      memcpy-some (length src) (src ++ rest) dest (rw length-append (omega arith)) (omega arith),
      take-append src rest,
      e,
      store_byte-some (src ++ y ∷ end) (length src) 0 fits,
      set-append src y 0 end,
    )

pub bind_map {ℓ κ μ} :
    {A : Type ℓ} {B : Type κ} {C : Type μ} (m : Option A) (k : A → Option B) (f : B → C) {b : B}
    → (m >>= k) ≡ some b
    → (m >>= λ a. k a >>= λ x. some (f x)) ≡ some (f b)
bind_map none k f h = cc
bind_map (some a) k f h = rw h

-- decoding, given what the header says and what the copy leaves
b_to_pck-eq-some :
    (input : List ℕ) (o h : Packet) (d : List ℕ)
    → b_to_header input o ≡ h
    → (memcpy h.data_len (drop header_size input) h.payload >>= λ c. store_byte c h.data_len 0)
      ≡ some d
    → b_to_pck input o ≡ some (record h { payload = d })
unfolding b_to_pck
b_to_pck-eq-some input o h d e run = rw e (
    bind_map (memcpy h.data_len (drop header_size input) h.payload) (λ c. store_byte c h.data_len 0)
      (λ x. record h { payload = x }) run)

b_to_pck-cons :
    (a b c : ℕ) (p : Packet) (rest : List ℕ) (o : Packet)
    → p.cmd ≡ a ∷ b ∷ c ∷ []
    → IsPacket p
    → p.data_len < max_packet_data_len
    → length o.payload ≡ max_packet_data_len
    → b_to_pck (packet_bytes p ++ rest) o ≡ some (received p o)
b_to_pck-cons a b c p rest o e h short size =
    let body = take p.data_len p.payload in
    let whole : length body ≡ p.data_len =
      length-take p.data_len p.payload (omega (arith, h.data_len, h.payload)) in
    let run = copy_and_end body rest o.payload (omega (arith, whole)) in
    let header =
      b_to_header-stob a b c p.flag p.index p.ttl p.data_len (body ++ rest) o h.index h.ttl
        (omega arith) in
    rw (e, append_assoc (stob p.index), append_assoc (stob p.ttl), append_assoc (stob p.data_len))
      (b_to_pck-eq-some _ o _ _ header
        (rw (drop-stob₃ p.index p.ttl p.data_len (body ++ rest)) (rw whole at run)))

-- A packet of fewer than 1024 payload bytes that is encoded, and decoded from a buffer which
-- starts with its encoding, is the packet that was sent, its payload closed by a zero.
pub b_to_pck-pck_to_b :
    (p o : Packet) (rest : List ℕ)
    → IsPacket p
    → p.data_len < max_packet_data_len
    → length o.payload ≡ max_packet_data_len
    → (pck_to_b p >>= λ bytes. b_to_pck (bytes ++ rest) o) ≡ some (received p o)
b_to_pck-pck_to_b p o rest h short size =
    let (a, b, c, e) = three p.cmd h.cmd in
    rw (pck_to_b-packet_bytes p h) (b_to_pck-cons a b c p rest o e h short size)
