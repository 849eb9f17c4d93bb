-- ===== src/Overlay/Rounds.antt =====
-- The loop of `join_overlay`: which addresses it joins.
use karmanet.Common.{
  ℕ, ◌+◌, ◌≤◌, ◌≡◌, refl, sym, ap, ◌∙◌, ◌≢◌, inl, inr, Bool, true, ◌||◌, Option, none, some, List,
  [], ◌∷◌, ◌++◌, append_assoc, append-nil, arith, Option-cases, length, length-append,
}
use mathlib.Core.Path.{subst}
use karmanet.Wire.{SockaddrIn}
use karmanet.Overlay.Joining.{
  IsJoined, Known, Moved, try_addr-IsJoined, enlarge-IsJoined, enlarge-near_list,
}
use karmanet.Overlay.Answered.{
  answers, answered, Sub, nil, Sub-empty, Sub-skip, Sub-keep, has_near, or-true, or-left, or-right,
  any_addr-append, any_addr_wider, any_addr_same, has_near_same, answers_same,
  get_near_by_addr-has_near,
}
use karmanet.Wire.Addresses.{any_addr}
use karmanet.Overlay.{NearNode, Overlay, get_near_by_addr}
use karmanet.Overlay.Join.{
  Attempt, acknowledged, Joined, failed, Move, stops, goes_on, enlarge, try_addr, join_loop,
  join_overlay,
}

module _ (raw : List ℕ) (number : ℕ) where
  module _ (list_len : ℕ) (ok : Bool) (addr : SockaddrIn) (attempt : Attempt)
      (it : List (SockaddrIn × Attempt)) (o : Overlay) where
    loop_known :
        (n : NearNode)
        → get_near_by_addr addr o.near_list ≡ some n
        → join_loop raw number list_len ok ((addr, attempt) ∷ it) o
          ≡ join_loop raw number list_len ok it o
    unfolding join_loop
    loop_known n e = rw (e, join_loop) refl

    loop_stops :
        get_near_by_addr addr o.near_list ≡ none
        → try_addr raw number ok addr attempt o ≡ some stops
        → join_loop raw number list_len ok ((addr, attempt) ∷ it) o
          ≡ some (record { state = o; result = failed })
    unfolding join_loop
    loop_stops e run = rw (e, join_loop, run) refl

    loop_goes_on :
        (more : Bool) (u : Overlay)
        → get_near_by_addr addr o.near_list ≡ none
        → try_addr raw number ok addr attempt o ≡ some (goes_on more u)
        → join_loop raw number list_len ok ((addr, attempt) ∷ it) o
          ≡ join_loop raw number list_len more it u
    unfolding join_loop
    loop_goes_on more u e run = rw (e, join_loop, run) refl

  -- The loop ends: what it added to `ms` is taken from the addresses that answer, in order, and after
  -- a result that is not -1 each address that answers is there.
  pub record Ends (old : List NearNode) (it : List (SockaddrIn × Attempt)) (ms : List SockaddrIn)
      (max : ℕ) (j : Joined) : Type 0 where
    pub added : List SockaddrIn
    pub joined : IsJoined (ms ++ added) j.state
    pub part : Sub added (answered it)
    pub whole :
        j.result ≢ failed
        → (a : SockaddrIn) → any_addr a (answered it) ≡ true
        → (any_addr a (ms ++ added) || has_near a old) ≡ true
    pub same : j.state.max_tcp_sock ≡ max

  abbrev Run :
      List NearNode → List (SockaddrIn × Attempt) → List SockaddrIn → ℕ → Option Joined → Type 0
  Run old it ms max r = (j : Joined) × (r ≡ some j) × Ends old it ms max j

  -- an address that is a neighbour already
  known-Ends :
      (old : List NearNode) (addr : SockaddrIn) (attempt : Attempt)
      (it : List (SockaddrIn × Attempt)) (ms : List SockaddrIn) (max : ℕ) (j : Joined)
      → (any_addr addr ms || has_near addr old) ≡ true
      → Ends old it ms max j
      → Ends old ((addr, attempt) ∷ it) ms max j
  known-Ends old addr attempt it ms max j here r = record {
    added = r.added;
    joined = r.joined;
    part = Sub-skip (answers addr attempt) r.added (answered it) r.part;
    whole = λ well a h.
        elim (or-true (any_addr a (answers addr attempt)) (any_addr a (answered it))
          (sym (any_addr-append a (answers addr attempt) (answered it)) ∙ h)) [
            | inl e ↦
                let same = answers_same addr a attempt e in
                any_addr_wider a ms r.added (has_near a old) (
                  sym (
                    ap (λ p. p || has_near addr old) (any_addr_same addr a ms same)
                    ∙ ap (λ p. any_addr a ms || p) (has_near_same addr a old same))
                  ∙ here)
            | inr e ↦ r.whole well a e
          ];
    same = r.same;
  }

  -- an address that was tried
  tried-Ends :
      (old : List NearNode) (addr : SockaddrIn) (attempt : Attempt)
      (it : List (SockaddrIn × Attempt)) (ms : List SockaddrIn) (max : ℕ) (j : Joined)
      → Ends old it (ms ++ answers addr attempt) max j
      → Ends old ((addr, attempt) ∷ it) ms max j
  tried-Ends old addr attempt it ms max j r =
      let front = answers addr attempt in
      let moved : (ms ++ front) ++ r.added ≡ ms ++ (front ++ r.added) =
        append_assoc ms front r.added in
      record {
        added = front ++ r.added;
        joined = subst (λ l. IsJoined l j.state) moved r.joined;
        part = Sub-keep front r.added (answered it) r.part;
        whole = λ well a h.
            ap (λ l. any_addr a l || has_near a old) (sym moved)
            ∙ (elim (or-true (any_addr a front) (any_addr a (answered it))
                (sym (any_addr-append a front (answered it)) ∙ h)) [
                  | inl e ↦ any_addr_wider a (ms ++ front) r.added (has_near a old) (
                      or-left (any_addr a (ms ++ front)) _
                        (any_addr-append a ms front ∙ or-right (any_addr a ms) _ e))
                  | inr e ↦ r.whole well a e
                ]);
        same = r.same;
      }

  join_loop-Run :
      (old : List NearNode) (list_len : ℕ) (ok : Bool) (it : List (SockaddrIn × Attempt))
      (o : Overlay) (ms : List SockaddrIn) (max : ℕ)
      → IsJoined ms o
      → Known old ms o
      → length ms + length it ≤ max
      → o.max_tcp_sock ≡ max
      → Run old it ms max (join_loop raw number list_len ok it o)
  unfolding join_loop
  join_loop-Run old list_len ok [] o ms max v known room same = (
    _,
    refl,
    record {
      added = [];
      joined = subst (λ l. IsJoined l o) (sym (append-nil ms)) v;
      part = nil;
      whole = λ well a h. absurd (cc);
      same = same;
    },
  )
  join_loop-Run old list_len ok ((addr, attempt) ∷ it) o ms max v known room same =
      elim (Option-cases (get_near_by_addr addr o.near_list)) [
        | inr (n, found) ↦
            let (j, run, r) =
              join_loop-Run old list_len ok it o ms max v known (omega arith) same in
            (
              j,
              loop_known list_len ok addr attempt it o n found ∙ run,
              known-Ends old addr attempt it ms max j
                  (known addr (get_near_by_addr-has_near addr o.near_list n found)) r,
            )
        | inl unknown ↦
            let (m, run, moved) =
              try_addr-IsJoined raw number old ok addr attempt o ms v known (omega (arith, same)) in
            after
              (λ more u w k kept len.
                join_loop-Run old list_len more it u (ms ++ answers addr attempt) max w k len kept)
              m unknown run moved
      ]
    where
      few : (x : SockaddrIn) (t : Attempt) → length (answers x t) ≤ 1
      few x (acknowledged sock true) = omega arith
      few x _ = omega arith

      after :
          ((more : Bool) (u : Overlay)
            → IsJoined (ms ++ answers addr attempt) u
            → Known old (ms ++ answers addr attempt) u
            → u.max_tcp_sock ≡ max
            → length (ms ++ answers addr attempt) + length it ≤ max
            → Run old it (ms ++ answers addr attempt) max (join_loop raw number list_len more it u))
          → (m : Move) → get_near_by_addr addr o.near_list ≡ none
          → try_addr raw number ok addr attempt o ≡ some m
          → Moved old ms (answers addr attempt) o m
          → Run old
              ((addr, attempt) ∷ it)
              ms
              max
              (join_loop raw number list_len ok ((addr, attempt) ∷ it) o)
      after further stops unknown run moved = (
        record { state = o; result = failed },
        loop_stops list_len ok addr attempt it o unknown run,
        record {
          added = [];
          joined = subst (λ l. IsJoined l o) (sym (append-nil ms)) v;
          part = Sub-empty (answered ((addr, attempt) ∷ it));
          whole = λ well a h. absurd (well refl);
          same = same;
        },
      )
      after further (goes_on more u) unknown run moved =
          let (w, k, kept) = moved in
          let size = length-append ms (answers addr attempt) in
          let (j, ran, r) =
            further more u w k (kept ∙ same) (omega (arith, room, size, few addr attempt)) in
          (
            j,
            loop_goes_on list_len ok addr attempt it o more u unknown run ∙ ran,
            tried-Ends old addr attempt it ms max j r,
          )

none_yet : (n m : ℕ) → n ≤ m → 0 + n ≤ m
none_yet n m h = omega (arith, h)

-- From an `nsock` of 0 and a `near_str` of zeros, joining the overlay never writes past `near_str`,
-- whatever happens with each address. Afterwards `near_str` holds the addresses that were joined and
-- zeros behind them, and `nsock` counts them. They are some of the addresses that answered with an ACK
-- and a port, in the order of the list, and if the result is not -1, each address that answered is
-- one of them or was a neighbour's before.
pub join_overlay-Ends :
    (raw : List ℕ) (number : ℕ) (sp_addr_list : List (SockaddrIn × Attempt)) (o : Overlay)
    → IsJoined [] o
    → (j : Joined) × (join_overlay raw number sp_addr_list o ≡ some j)
      × Ends raw number o.near_list sp_addr_list [] (enlarge (length sp_addr_list) o).max_tcp_sock j
unfolding join_overlay
join_overlay-Ends raw number sp_addr_list o v =
    let n = length sp_addr_list in
    let e = enlarge-IsJoined n o v in
    join_loop-Run raw number o.near_list n true sp_addr_list (enlarge n o) []
      (enlarge n o).max_tcp_sock e.0 (λ a h. ap (has_near a) (sym (enlarge-near_list n o)) ∙ h)
      (none_yet n _ e.1) refl
