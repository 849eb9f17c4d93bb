-- ===== src/Overlay/Flooding.antt =====
-- The neighbours that `flood_overlay` sends to.
use karmanet.Common.{
  ℕ, ◌*◌, ◌≡◌, refl, ap, ◌∙◌, inl, inr, true, false, ◌||◌, Option, some, List, [], ◌∷◌, ◌++◌, arith,
  ◌==◌, if◌then◌else◌, Bool-cases, length, All,
}
use karmanet.Wire.{SockaddrIn, addr_str_len, contains_addr}
use karmanet.Wire.Addresses.{IsAddr, addr_bytes, any_addr, contains_addr-addr_bytes}
use karmanet.Overlay.{NearNode, get_near_node, is_told, flood_loop, flood_overlay}

-- the neighbours to send to, when the sender has the socket `socksd` and the neighbours `told`
abbrev pub targets : ℕ → List SockaddrIn → List NearNode → List ℕ
targets socksd told [] = []
targets socksd told (n ∷ ns) =
    if (n.socksd == socksd) || any_addr n.addr told
    then targets socksd told ns
    else n.socksd ∷ targets socksd told ns

-- the addresses of the neighbours have the widths of the C types
abbrev pub AllAddr : List NearNode → Type 0
AllAddr [] = Unit
AllAddr (n ∷ ns) = IsAddr n.addr × AllAddr ns

module _ (near_info : Option NearNode) (socksd : ℕ) (n : NearNode) (it : List NearNode) where
  flood_loop_skip :
      ((n.socksd == socksd) || is_told near_info n) ≡ true
      → flood_loop near_info socksd (n ∷ it) ≡ flood_loop near_info socksd it
  unfolding flood_loop
  flood_loop_skip e = ground arith

  flood_loop_send :
      ((n.socksd == socksd) || is_told near_info n) ≡ false
      → flood_loop near_info socksd (n ∷ it) ≡ n.socksd ∷ flood_loop near_info socksd it
  unfolding flood_loop
  flood_loop_send e = ground arith

flood_loop-targets :
    (near_info : Option NearNode) (socksd : ℕ) (told : List SockaddrIn) (ns : List NearNode)
    → ((n : NearNode) → IsAddr n.addr → is_told near_info n ≡ any_addr n.addr told)
    → AllAddr ns
    → flood_loop near_info socksd ns ≡ targets socksd told ns
unfolding flood_loop
flood_loop-targets near_info socksd told [] agree h = refl
flood_loop-targets near_info socksd told (n ∷ ns) agree h =
    let rest = flood_loop-targets near_info socksd told ns agree h.1 in
    let same : ((n.socksd == socksd) || is_told near_info n)
        ≡ ((n.socksd == socksd) || any_addr n.addr told) =
      ap (λ b. (n.socksd == socksd) || b) (agree n h.0) in
    elim (Bool-cases ((n.socksd == socksd) || any_addr n.addr told)) [
      | inl skip ↦ flood_loop_skip near_info socksd n ns (same ∙ skip) ∙ rest ∙ rw skip refl
      | inr send ↦
          flood_loop_send near_info socksd n ns (same ∙ send)
          ∙ ap (λ l. n.socksd ∷ l) rest
          ∙ rw send refl
    ]

-- A packet that came from the socket of a neighbour goes to each neighbour, in the order of the
-- list, but for those with that socket and those that the sender has told are its neighbours too.
pub flood_overlay-targets :
    (socksd : ℕ) (ns : List NearNode) (m : NearNode) (told : List SockaddrIn) (rest : List ℕ)
    → AllAddr ns
    → get_near_node socksd ns ≡ some m
    → m.bytes ≡ addr_bytes told ++ rest
    → m.near_number ≡ length told
    → All IsAddr told
    → flood_overlay socksd ns ≡ targets socksd told ns
unfolding flood_overlay is_told
flood_overlay-targets socksd ns m told rest h from holds count wide =
    let size : m.near_number * addr_str_len ≡ 6 * length told = omega (arith, count) in
    let agree : (n : NearNode) → IsAddr n.addr → is_told (some m) n ≡ any_addr n.addr told = λ n hn.
      ap (λ k. contains_addr m.bytes k n.addr) size
      ∙ ap (λ l. contains_addr l (6 * length told) n.addr) holds
      ∙ contains_addr-addr_bytes told rest n.addr wide hn in
    ap (λ i. flood_loop i socksd ns) from ∙ flood_loop-targets (some m) socksd told ns agree h
