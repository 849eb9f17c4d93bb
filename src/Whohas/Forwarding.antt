-- ===== src/Whohas/Forwarding.antt =====
-- A request is handled once, and its copies grow old.
use karmanet.Common.{
  ℕ, ◌+◌, ◌-◌, ◌%◌, ◌^◌, ◌≤◌, ◌<◌, ◌≡◌, refl, sym, ap, ◌∙◌, ◌⊎◌, inl, inr, Bool, true, false,
  Option, none, some, List, [], ◌∷◌, map, arith, ltb, ◌==◌, if◌then◌else◌, Bool-cases, All,
}
use mathlib.Core.Path.{subst}
use karmanet.Common.Memory.{◌>>=◌, memcpy, store_byte}
use karmanet.Wire.{SockaddrIn}
use karmanet.Packet.{Packet, pckcpy}
use karmanet.Requests.{Requests, request_ttl, insert_request}
use karmanet.Requests.Ageing.{
  seen, Step, later, count_passes, insert_request-seen, seen-later-insert_request,
}
use karmanet.Overlay.{NearNode, flood_overlay}
use karmanet.FileIndex.{Index}
use karmanet.Whohas.Handler.{
  Handled, is_positive, tmp_packet, flooded, answered, handle_new, whohas_request_handler,
}

-- nothing is sent
abbrev pub ignored : Requests → Option Handled
ignored requests = some (record { requests = requests; forwarded = []; answers = [] })

bind-inv :
    {A B : Type 0} (o : Option A) (f : A → Option B) (b : B)
    → (o >>= f) ≡ some b
    → (a : A) × (o ≡ some a) × (f a ≡ some b)
bind-inv none f b h = absurd (cc)
bind-inv (some a) f b h = (a, refl, h)

abbrev of_some : Handled → Option Handled → Handled
of_some d none = d
of_some d (some h) = h

abbrev ttl_of : Packet → Option Packet → ℕ
ttl_of d none = d.ttl
ttl_of d (some q) = q.ttl

if-any :
    {A : Type 0} (Q : Option A → Type 0) (b : Bool) (o p : Option A)
    → Q o
    → Q p
    → Q (if b then o else p)
if-any Q true o p f g = f
if-any Q false o p f g = g

pckcpy-ttl : (raw pck q : Packet) → pckcpy raw pck ≡ some q → q.ttl ≡ pck.ttl
unfolding pckcpy
pckcpy-ttl raw pck q =
    if-any (λ o. o ≡ some q → q.ttl ≡ pck.ttl) (ltb 0 pck.data_len) _ _
      (λ h.
        let (d, _, made) = bind-inv (memcpy pck.data_len pck.payload raw.payload) _ q h in
        ap (ttl_of q) (sym made))
      (λ h. ap (ttl_of q) (sym h))

-- a packet of a neighbour
tmp_packet-ttl :
    (raw : Packet) (addr : SockaddrIn) (pck q : Packet)
    → tmp_packet raw true addr pck ≡ some q
    → q.ttl ≡ (pck.ttl + (2 ^ 16 - 1)) % 2 ^ 16
unfolding tmp_packet
tmp_packet-ttl raw addr pck q h =
    let (tmp, copied, rest) = bind-inv (pckcpy raw pck) _ q h in
    let old : Packet = record tmp { ttl = (tmp.ttl + (2 ^ 16 - 1)) % 2 ^ 16 } in
    let (d, _, made) =
      bind-inv (store_byte tmp.payload tmp.data_len 0) (λ d. some (record old { payload = d })) q
        rest in
    ap (ttl_of q) (sym made) ∙ ap (λ t. (t + (2 ^ 16 - 1)) % 2 ^ 16) (pckcpy-ttl raw pck tmp copied)

All-map :
    (t : ℕ) (pck : Packet) (l : List ℕ)
    → pck.ttl + 1 ≡ t
    → All {A = ℕ × Packet} (λ f. f.1.ttl + 1 ≡ t) (map (λ s. (s, pck)) l)
All-map t pck [] h = tt
All-map t pck (s ∷ l) h = (h, All-map t pck l h)

flooded-ttl :
    (socksd : ℕ) (near_list : List NearNode) (t : ℕ) (tmp : Packet)
    → t < 2 ^ 15
    → tmp.ttl ≡ (t + (2 ^ 16 - 1)) % 2 ^ 16
    → All {A = ℕ × Packet} (λ f. f.1.ttl + 1 ≡ t) (flooded socksd near_list tmp)
      × (t ≤ 1 → flooded socksd near_list tmp ≡ [])
flooded-ttl socksd near_list t tmp small h = elim (Bool-cases (is_positive tmp.ttl)) [
  | inl f ↦
      rw f (
        All-map t tmp (flood_overlay socksd near_list) (ground arith),
        λ few. absurd (ground arith),
      )
  | inr f ↦ rw f (tt, λ few. refl)
]

module _ (fuel : ℕ) (scratch : List ℕ) (raw : Packet) (myaddr : SockaddrIn) where
  handler-seen :
      (overlay : Bool) (socksd : ℕ) (addr : SockaddrIn) (pck : Packet) (near_list : List NearNode)
      (requests : Requests) (ix : Index)
      → seen pck.index addr.s_addr addr.sin_port requests ≡ true
      → whohas_request_handler fuel scratch raw myaddr overlay socksd addr pck near_list requests ix
        ≡ ignored requests
  unfolding whohas_request_handler
  handler-seen overlay socksd addr pck near_list requests ix known =
      rw ((insert_request-seen pck.index addr.s_addr addr.sin_port requests).0, known) refl

  -- what is left of the list, and what was passed on
  handle_new-inv :
      (overlay : Bool) (socksd : ℕ) (addr : SockaddrIn) (pck : Packet) (near_list : List NearNode)
      (requests : Requests) (ix : Index) (h : Handled)
      → handle_new fuel scratch raw myaddr overlay socksd addr pck near_list requests ix ≡ some h
      → (h.requests ≡ requests)
        × ((tmp : Packet) × (tmp_packet raw overlay addr pck ≡ some tmp)
            × (h.forwarded ≡ flooded socksd near_list tmp))
  unfolding handle_new
  handle_new-inv overlay socksd addr pck near_list requests ix h e =
      let (tmp, made, rest) = bind-inv (tmp_packet raw overlay addr pck) _ h e in
      let (answers, _, result) = bind-inv (answered fuel scratch raw myaddr addr tmp ix) _ h rest in
      (
        ap (λ o. (of_some h o).requests) (sym result),
        (tmp, made, ap (λ o. (of_some h o).forwarded) (sym result)),
      )

  handler-inv :
      (overlay : Bool) (socksd : ℕ) (addr : SockaddrIn) (pck : Packet) (near_list : List NearNode)
      (requests : Requests) (ix : Index) (h : Handled)
      → whohas_request_handler fuel scratch raw myaddr overlay socksd addr pck near_list requests ix
        ≡ some h
      → (h.forwarded ≡ [])
        ⊎ ((tmp : Packet) × (tmp_packet raw overlay addr pck ≡ some tmp)
            × (h.forwarded ≡ flooded socksd near_list tmp))
  unfolding whohas_request_handler
  handler-inv overlay socksd addr pck near_list requests ix h =
      if-any
        (λ o.
          o ≡ some h
          → (h.forwarded ≡ [])
            ⊎ ((tmp : Packet) × (tmp_packet raw overlay addr pck ≡ some tmp)
                × (h.forwarded ≡ flooded socksd near_list tmp)))
        ((insert_request pck.index addr.s_addr addr.sin_port requests).0 == 1) _ _
        (λ e. inl (ap (λ o. (of_some h o).forwarded) (sym e)))
        (λ e. inr (handle_new-inv overlay socksd addr pck near_list _ ix h e).1)

  requests-after :
      (overlay : Bool) (socksd : ℕ) (addr : SockaddrIn) (pck : Packet) (near_list : List NearNode)
      (requests : Requests) (ix : Index) (h : Handled)
      → whohas_request_handler fuel scratch raw myaddr overlay socksd addr pck near_list requests ix
        ≡ some h
      → h.requests ≡ (insert_request pck.index addr.s_addr addr.sin_port requests).1
  unfolding whohas_request_handler
  requests-after overlay socksd addr pck near_list requests ix h =
      if-any
        (λ o.
          o ≡ some h → h.requests ≡ (insert_request pck.index addr.s_addr addr.sin_port requests).1)
        ((insert_request pck.index addr.s_addr addr.sin_port requests).0 == 1) _ _
        (λ e. ap (λ o. (of_some h o).requests) (sym e))
        (λ e. (handle_new-inv overlay socksd addr pck near_list _ ix h e).0)

  -- A request that was new is ignored when it comes again with the same index from the same address,
  -- over UDP or from any neighbour, whatever other requests came in between, as long as the checker
  -- has made at most three passes: it is neither passed on nor answered a second time.
  pub whohas_request_handler-again :
      (overlay overlay' : Bool) (socksd socksd' : ℕ) (between : List Step) (addr : SockaddrIn)
      (pck pck' : Packet) (near_list near_list' : List NearNode) (requests : Requests)
      (ix ix' : Index) (h : Handled)
      → seen pck.index addr.s_addr addr.sin_port requests ≡ false
      → whohas_request_handler fuel scratch raw myaddr overlay socksd addr pck near_list requests ix
        ≡ some h
      → pck'.index ≡ pck.index
      → count_passes between ≤ request_ttl
      → whohas_request_handler fuel scratch raw myaddr overlay' socksd' addr pck' near_list'
          (later between h.requests)
          ix'
        ≡ ignored (later between h.requests)
  whohas_request_handler-again overlay overlay' socksd socksd' between addr pck pck' near_list
        near_list' requests ix ix' h new first same few =
      handler-seen overlay' socksd' addr pck' near_list' (later between h.requests) ix' (
        ap (λ i. seen i addr.s_addr addr.sin_port (later between h.requests)) same
        ∙ ap (λ l. seen pck.index addr.s_addr addr.sin_port (later between l))
            (requests-after overlay socksd addr pck near_list requests ix h first)
        ∙ seen-later-insert_request pck.index addr.s_addr addr.sin_port between requests new few)

  -- For a TTL that is not negative as a `short`, each copy of a request that a neighbour has sent is
  -- one hop older when it is passed on, and a request with a TTL of 0 or 1 is not passed on: such a
  -- request makes no more hops than its TTL.
  pub whohas_request_handler-ttl :
      (socksd : ℕ) (addr : SockaddrIn) (pck : Packet) (near_list : List NearNode)
      (requests : Requests) (ix : Index) (h : Handled)
      → pck.ttl < 2 ^ 15
      → whohas_request_handler fuel scratch raw myaddr true socksd addr pck near_list requests ix
        ≡ some h
      → All {A = ℕ × Packet} (λ f. f.1.ttl + 1 ≡ pck.ttl) h.forwarded
        × (pck.ttl ≤ 1 → h.forwarded ≡ [])
  whohas_request_handler-ttl socksd addr pck near_list requests ix h small done =
      elim (handler-inv true socksd addr pck near_list requests ix h done) [
        | inl old ↦
            subst
              (λ l. All {A = ℕ × Packet} (λ f. f.1.ttl + 1 ≡ pck.ttl) l × (pck.ttl ≤ 1 → l ≡ []))
              (sym old) (tt, λ few. refl)
        | inr (tmp, made, sent) ↦
            subst
              (λ l. All {A = ℕ × Packet} (λ f. f.1.ttl + 1 ≡ pck.ttl) l × (pck.ttl ≤ 1 → l ≡ []))
              (sym sent)
              (flooded-ttl socksd near_list pck.ttl tmp small
                (tmp_packet-ttl raw addr pck tmp made))
      ]
