-- ===== src/Packet/Bounds.antt =====
-- The bounds of the arrays that `b_to_pck` writes to.
use karmanet.Common.{
  ℕ, zero, suc, ◌≤◌, ◌<◌, ◌≡◌, refl, ◌≢◌, ◌↔◌, inl, inr, Option, none, some, List, [], ◌∷◌, ◌++◌,
  arith, ltb, Bool-cases, Option-cases, length, take, drop, set, length-drop,
}
use karmanet.Common.Memory.{
  ◌>>=◌, memcpy, store_byte, memcpy-some, store_byte-some, store_byte-none,
}
use karmanet.Wire.{btos}
use karmanet.Packet.{
  Packet, header_size, max_packet_data_len, max_packet_size, b_to_header, b_to_pck,
}
use karmanet.Packet.Codec.{bind_map}

length-memcpy :
    (n : ℕ) (src dest : List ℕ) {d : List ℕ} → memcpy n src dest ≡ some d → length d ≡ length dest
unfolding memcpy
length-memcpy zero src dest e = ground arith
length-memcpy (suc n) [] dest e = cc
length-memcpy (suc n) (x ∷ src) [] e = cc
length-memcpy (suc n) (x ∷ src) (y ∷ dest) e = elim (Option-cases (memcpy n src dest)) [
  | inl fault ↦ ground arith
  | inr (c, copied) ↦ ground (arith, length-memcpy n src dest {d = c})
]

-- a copy that leaves no room for the zero
copy_overflows :
    (n : ℕ) (src dest : List ℕ)
    → length dest ≤ n
    → (memcpy n src dest >>= λ c. store_byte c n 0) ≡ none
copy_overflows n src dest h = elim (Option-cases (memcpy n src dest)) [
  | inl fault ↦ rw fault
  | inr (c, copied) ↦
      rw copied (store_byte-none c n 0 (omega (arith, length-memcpy n src dest copied)))
]

bind_map_none {ℓ κ μ} :
    {A : Type ℓ} {B : Type κ} {C : Type μ} (m : Option A) (k : A → Option B) (f : B → C)
    → (m >>= k) ≡ none
    → (m >>= λ a. k a >>= λ x. some (f x)) ≡ none
bind_map_none none k f h = refl
bind_map_none (some a) k f h = rw h

module _ (input : List ℕ) (o : Packet) (hi : length input ≡ max_packet_size)
    (ho : length o.payload ≡ max_packet_data_len) where
  -- The datagram buffer of `recvfrom_packet` decodes without leaving an array exactly when the
  -- length field that the sender wrote is below 1024.
  pub b_to_pck-ne-none : (b_to_pck input o ≢ none) ↔ (btos (drop 8 input) < max_packet_data_len)
  unfolding b_to_pck b_to_header
  b_to_pck-ne-none =
      let n = btos (drop 8 input) in
      let h = b_to_header input o in
      let store = λ (c : List ℕ). store_byte c n 0 in
      let build = λ (x : List ℕ). record h { payload = x } in
      let body = drop header_size input in
      (
        λ ne. elim (Bool-cases (ltb n max_packet_data_len)) [
          | inl lt ↦ ground arith
          | inr ge ↦ absurd (
              ne (
                bind_map_none (memcpy n body o.payload) store build
                  (copy_overflows n body o.payload (ground arith))))
        ],
        λ lt e.
            let copied =
              memcpy-some n body o.payload (rw length-drop (omega arith)) (omega arith) in
            let stored =
              store_byte-some (take n body ++ drop n o.payload) n 0
                (omega (arith, length-memcpy n body o.payload copied)) in
            let run : (memcpy n body o.payload >>= store)
                ≡ some (set (take n body ++ drop n o.payload) n 0) =
              rw copied stored in
            cc (bind_map (memcpy n body o.payload) store build run),
      )
