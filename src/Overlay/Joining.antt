-- ===== src/Overlay/Joining.antt =====
-- What `join_overlay` writes to `near_str`.
use karmanet.Common.{
  ℕ, ◌+◌, ◌-◌, ◌*◌, ◌/◌, ◌≤◌, ◌<◌, ◌≡◌, refl, sym, ap, ◌∙◌, ◌⊎◌, inl, inr, Bool, true, false, ◌||◌,
  none, some, List, [], ◌∷◌, ◌++◌, append_assoc, append-nil, arith, ltb, Bool-cases, Option-cases,
  length, drop, length-append, length-replicate, take-append, drop-append,
}
use mathlib.Core.Path.{subst}
use karmanet.Common.Memory.{memcpy, memcpy-some}
use karmanet.Wire.{SockaddrIn, addr2str, addrcmp}
use karmanet.Overlay.Answered.{
  answers, has_near, or-true, or-left, or-right, any_addr-append, any_addr_wider,
  insert_near-has_near,
}
use karmanet.Wire.Addresses.{any_addr, addr_bytes-append, addr_bytes, length-addr_bytes}
use karmanet.Overlay.{NearNode, Overlay, insert_near}
use karmanet.Overlay.Neighbours.{
  zeros-append, zeros, drop-zeros, length-addr2str, take-addr2str_whole,
}
use karmanet.Overlay.Join.{
  Attempt, no_socket, unreachable, no_packet, closed, rejected, acknowledged, Move, stops, goes_on,
  write_addr, enlarge, connected, try_addr,
}

-- `near_str` holds the addresses `ms` that were joined, in this order, and zeros behind them
pub record IsJoined (ms : List SockaddrIn) (o : Overlay) : Type 0 where
  pub count : o.nsock ≡ length ms
  pub copy : o.near_str ≡ addr_bytes ms ++ zeros ((o.max_tcp_sock - length ms) * 6)

write_addr-some :
    (addr : SockaddrIn) (nsock max : ℕ) (str : List ℕ) (ms : List SockaddrIn)
    → nsock ≡ length ms
    → str ≡ addr_bytes ms ++ zeros ((max - length ms) * 6)
    → length ms < max
    → write_addr addr nsock str
      ≡ some (addr_bytes (ms ++ addr ∷ []) ++ zeros ((max - length (ms ++ addr ∷ [])) * 6))
write_addr-some addr nsock max str ms count holds room =
    let a = addr2str addr.s_addr addr.sin_port in
    let before = addr_bytes ms in
    let z = (max - length ms) * 6 in
    let at : nsock * 6 ≡ length before = omega (arith, count, length-addr_bytes ms) in
    let size : length (zeros z) ≡ z = length-replicate z 0 in
    let copied : memcpy 6 a (zeros z) ≡ some (a ++ zeros (z - 6)) =
      memcpy-some 6 a (zeros z) (omega (arith, length-addr2str addr)) (omega (arith, size))
      ∙ ap (λ l. some (l ++ drop 6 (zeros z))) (take-addr2str_whole addr)
      ∙ ap (λ l. some (a ++ l)) (drop-zeros 6 z) in
    let one : length (ms ++ addr ∷ []) ≡ length ms + 1 = length-append ms (addr ∷ []) in
    let left : z - 6 ≡ (max - length (ms ++ addr ∷ [])) * 6 = omega (arith, one) in
    let whole : before ++ (a ++ zeros (z - 6)) ≡ addr_bytes (ms ++ addr ∷ []) ++ zeros (z - 6) =
      sym (append_assoc before a (zeros (z - 6)))
      ∙ ap (λ l. (before ++ l) ++ zeros (z - 6)) (sym (append-nil a))
      ∙ ap (λ l. l ++ zeros (z - 6)) (sym (addr_bytes-append ms (addr ∷ []))) in
    rw (holds, at, drop-append before (zeros z), take-append before (zeros z), copied)
      (ap some (whole ∙ ap (λ k. addr_bytes (ms ++ addr ∷ []) ++ zeros k) left))

-- each neighbour is one of `ms` or of the neighbours before
abbrev pub Known : List NearNode → List SockaddrIn → Overlay → Type 0
Known old ms o =
    (a : SockaddrIn) → has_near a o.near_list ≡ true → (any_addr a ms || has_near a old) ≡ true

-- what one address leaves: `front` is what it adds
abbrev pub Added : List NearNode → List SockaddrIn → List SockaddrIn → Overlay → Overlay → Type 0
Added old ms front o u =
    IsJoined (ms ++ front) u × Known old (ms ++ front) u × (u.max_tcp_sock ≡ o.max_tcp_sock)

abbrev pub Moved : List NearNode → List SockaddrIn → List SockaddrIn → Overlay → Move → Type 0
Moved old ms front o stops = Unit
Moved old ms front o (goes_on more u) = Added old ms front o u

stays :
    (old : List NearNode) (ms : List SockaddrIn) (o : Overlay)
    → IsJoined ms o
    → Known old ms o
    → Added old ms [] o o
stays old ms o v known = (
  subst (λ l. IsJoined l o) (sym (append-nil ms)) v,
  subst (λ l. Known old l o) (sym (append-nil ms)) known,
  refl,
)

module _ (raw : List ℕ) (number : ℕ) where
  connected-IsJoined :
      (old : List NearNode) (addr : SockaddrIn) (sock : ℕ) (o : Overlay) (ms : List SockaddrIn)
      → IsJoined ms o
      → Known old ms o
      → length ms < o.max_tcp_sock
      → (connected raw number addr sock o ≡ some none)
        ⊎ ((u : Overlay) × (connected raw number addr sock o ≡ some (some u))
            × Added old ms (addr ∷ []) o u)
  unfolding connected
  connected-IsJoined old addr sock o ms v known room =
      elim (Option-cases (insert_near raw number sock addr o.near_list)) [
        | inl refused ↦ inl (rw (refused, connected) refl)
        | inr (list, inserted) ↦
            let ns = ms ++ addr ∷ [] in
            let str = addr_bytes ns ++ zeros ((o.max_tcp_sock - length ns) * 6) in
            let run =
              write_addr-some addr o.nsock o.max_tcp_sock o.near_str ms v.count v.copy room in
            let one : length ns ≡ length ms + 1 = length-append ms (addr ∷ []) in
            let u : Overlay = record o { near_list = list; near_str = str; nsock = o.nsock + 1 } in
            let w : IsJoined ns u = record { count = omega (arith, v.count, one); copy = refl } in
            inr (u, rw (inserted, connected, run) refl, (w, (λ a k. still a list inserted k), refl))
      ]
    where
      still :
          (a : SockaddrIn) (list : List NearNode)
          → insert_near raw number sock addr o.near_list ≡ some list
          → has_near a list ≡ true
          → (any_addr a (ms ++ addr ∷ []) || has_near a old) ≡ true
      still a list made k =
          elim (or-true (addrcmp addr a) (has_near a o.near_list)
            (insert_near-has_near raw number sock addr a o.near_list list made k)) [
              | inl e ↦ or-left (any_addr a (ms ++ addr ∷ [])) _ (
                  any_addr-append a ms (addr ∷ [])
                  ∙ or-right (any_addr a ms) _ (or-left (addrcmp addr a) false e))
              | inr e ↦ any_addr_wider a ms (addr ∷ []) (has_near a old) (known a e)
            ]

  pub try_addr-IsJoined :
      (old : List NearNode) (ok : Bool) (addr : SockaddrIn) (attempt : Attempt) (o : Overlay)
      (ms : List SockaddrIn)
      → IsJoined ms o
      → Known old ms o
      → length ms < o.max_tcp_sock
      → (m : Move) × (try_addr raw number ok addr attempt o ≡ some m)
        × Moved old ms (answers addr attempt) o m
  unfolding try_addr
  try_addr-IsJoined old true addr no_socket o ms v known room = (stops, refl, tt)
  try_addr-IsJoined old false addr no_socket o ms v known room =
      (goes_on false o, refl, stays old ms o v known)
  try_addr-IsJoined old ok addr unreachable o ms v known room =
      (goes_on false o, refl, stays old ms o v known)
  try_addr-IsJoined old ok addr no_packet o ms v known room = (stops, refl, tt)
  try_addr-IsJoined old ok addr closed o ms v known room =
      (goes_on true o, refl, stays old ms o v known)
  try_addr-IsJoined old ok addr rejected o ms v known room =
      (goes_on true o, refl, stays old ms o v known)
  try_addr-IsJoined old ok addr (acknowledged sock false) o ms v known room = (stops, refl, tt)
  try_addr-IsJoined old ok addr (acknowledged sock true) o ms v known room =
      elim (connected-IsJoined old addr sock o ms v known room) [
        | inl refused ↦ (stops, rw refused refl, tt)
        | inr added ↦ let (u, run, w) = added in (goes_on true u, rw run refl, w)
      ]

pub enlarge-IsJoined :
    (n : ℕ) (o : Overlay)
    → IsJoined [] o
    → IsJoined [] (enlarge n o) × (n ≤ (enlarge n o).max_tcp_sock)
unfolding enlarge
enlarge-IsJoined n o v = elim (Bool-cases (ltb (o.max_tcp_sock / 2) n)) [
  | inr short ↦ let le : n ≤ o.max_tcp_sock / 2 = ground arith in rw short (v, omega arith)
  | inl long ↦
      let lt : o.max_tcp_sock / 2 < n = ground arith in
      let old = (o.max_tcp_sock - 0) * 6 in
      let new = (n * 2 - o.max_tcp_sock) * 6 in
      let size : old + new ≡ (n * 2 - 0) * 6 = omega arith in
      let str : o.near_str ++ zeros new ≡ zeros ((n * 2 - 0) * 6) =
        ap (λ l. l ++ zeros new) v.copy ∙ zeros-append old new ∙ ap zeros size in
      rw long (record { count = v.count; copy = str }, omega arith)
]

pub enlarge-near_list : (n : ℕ) (o : Overlay) → (enlarge n o).near_list ≡ o.near_list
unfolding enlarge
enlarge-near_list n o = elim (Bool-cases (ltb (o.max_tcp_sock / 2) n)) [
  | inl e ↦ rw e refl
  | inr e ↦ rw e refl
]
