-- ===== src/Client/Invariant/Refusals.antt =====
-- What a client does when a superpeer refuses it or does not answer: `err_handler`, `error_handler`
-- and `reset_handler`.
use karmanet.Common.{
  ℕ, zero, suc, ◌+◌, ◌≤◌, ◌<◌, ◌≡◌, refl, sym, ap, ◌∙◌, inl, inr, true, false, none, some, List, [],
  ◌∷◌, arith, ltb, leb, ◌==◌, Bool-cases, length,
}
use mathlib.Core.Path.{subst}
use karmanet.Wire.{SockaddrIn, addrcmp}
use karmanet.Packet.{Packet, cmd_join, cmd_leave, cmd_whohas, cmd_promote}
use karmanet.Client.{
  State, max_p_count, max_bs_error, Core, Client, Env, with_core, is_cmd, join_bs, stop_threads,
  stopped, joinbs_sent, joinsp_sent, active,
}
use karmanet.Client.Joining.{
  current, addr_at, join_current, back_to_bs, refused_join, lose_superpeer, refused_whohas, refused,
  err_handler,
}
use karmanet.Client.Commands.{lost_join, lost_promote, error_handler, reset_handler}
use karmanet.Client.Keeping.{IsEnv, Keeps}
use karmanet.Client.Invariant.{
  IsSound, Sound, Waiting, serves, lacks_checker, Keeps->>=, Keeps-Sound, Ensures->>=, if-case,
  active-IsSound,
}
use karmanet.Client.Invariant.Threads.{Stopped, stop_threads-Ensures}
use karmanet.Client.Invariant.Handlers.{join_bs-Keeps, join_sp-Keeps, joinbs-IsSound, promote-Sound}

pub addr_at-some :
    (i : ℕ) (l : List SockaddrIn) → i < length l → (a : SockaddrIn) × (addr_at i l ≡ some a)
addr_at-some i [] h = absurd (omega (arith, h))
addr_at-some zero (a ∷ l) h = (a, refl)
addr_at-some (suc i) (a ∷ l) h = addr_at-some i l (omega (arith, h))

addr_at-none : (i : ℕ) (l : List SockaddrIn) → length l ≤ i → addr_at i l ≡ none
addr_at-none i [] h = refl
addr_at-none zero (a ∷ l) h = absurd (omega (arith, h))
addr_at-none (suc i) (a ∷ l) h = addr_at-none i l (omega (arith, h))

pub current-none :
    (k : Core)
    → Waiting k
    → k.addr_list_len ≤ k.curr_addr_index
    → current k.addr_list k.curr_addr_index ≡ none
current-none k (l, here, size, _) h =
    ap (λ o. current o k.curr_addr_index) here
    ∙ addr_at-none k.curr_addr_index l (omega (arith, h, size))

-- a list with an address at the index
pub current-some :
    (k : Core)
    → Waiting k
    → k.curr_addr_index < k.addr_list_len
    → (a : SockaddrIn) × (current k.addr_list k.curr_addr_index ≡ some a)
current-some k (l, here, size, _) h =
    let (a, found) = addr_at-some k.curr_addr_index l (omega (arith, h, size)) in
    (a, ap (λ o. current o k.curr_addr_index) here ∙ found)

-- the client has tried each address of the list
abbrev pub IsThrough : Core → Type 0
IsThrough k = (k.state ≡ joinsp_sent) × (k.addr_list_len ≤ k.curr_addr_index)

-- the index of the next address
advanced-IsSound :
    (k : Core)
    → k.curr_addr_index < k.addr_list_len
    → IsSound k
    → IsSound (record k { curr_addr_index = k.curr_addr_index + 1 })
advanced-IsSound k h v = record {
  joining = λ f. let (l, here, size, _) = v.joining f in (l, here, size, omega (arith, h));
  superpeer = v.superpeer;
  promoter = v.promoter;
  errors = v.errors;
  tries = v.tries;
}

-- the state says that the client is no superpeer
pub away_from :
    (k : Core) (s : State) → serves s ≡ false → k.state ≡ s → IsSound k → k.is_sp ≡ false
away_from k s out here v = elim (Bool-cases k.is_sp) [
  | inl f ↦ absurd (let g = v.superpeer f in cc)
  | inr f ↦ f
]

abbrev next : Client → Client
next c = with_core c (record c.core { curr_addr_index = c.core.curr_addr_index + 1 })

module _ (e : Env) (w : IsEnv e) (F : Type 0) where
  pub back_to_bs-Sound :
      (c : Client) → c.core.is_sp ≡ false → IsSound c.core → Sound F (back_to_bs e c)
  unfolding back_to_bs
  back_to_bs-Sound c h v =
      Keeps->>= F (join_bs e c) _ c.core (join_bs-Keeps e w F c) v (λ c1 same.
        joinbs-IsSound c1.core (ap (λ k. k.is_sp) same ∙ h) (subst IsSound (sym same) v))

  -- the packet JOI to the address at the index
  pub join_current-Keeps :
      (c : Client)
      → Waiting c.core
      → c.core.curr_addr_index < c.core.addr_list_len
      → Keeps c.core (join_current e c)
  unfolding join_current
  join_current-Keeps c l h =
      let (a, found) = current-some c.core l h in rw found (join_sp-Keeps e w F a c)

  refused_join-Sound :
      (addr : SockaddrIn) (c : Client)
      → c.core.state ≡ joinsp_sent
      → (IsThrough c.core → F)
      → IsSound c.core
      → Sound F (refused_join e addr c)
  unfolding refused_join
  refused_join-Sound addr c here excuse v =
      let l = v.joining here in
      elim (Bool-cases (leb c.core.addr_list_len c.core.curr_addr_index)) [
        | inl f ↦ rw (current-none c.core l (ground arith)) (excuse (here, ground arith))
        | inr f ↦
            let h : c.core.curr_addr_index < c.core.addr_list_len = ground arith in
            let (a, found) = current-some c.core l h in
            rw found (
              if-case (Sound F) (addrcmp addr a) _ _
                (λ _.
                  if-case (Sound F) (leb c.core.addr_list_len (c.core.curr_addr_index + 1)) _ _
                    (λ _.
                      back_to_bs-Sound (next c) (away_from c.core joinsp_sent refl here v)
                        (advanced-IsSound c.core h v))
                    (λ g.
                      Keeps-Sound F (join_current e (next c)) (next c).core
                        (join_current-Keeps (next c) ((advanced-IsSound c.core h v).joining here)
                          (ground arith))
                        (advanced-IsSound c.core h v)))
                (λ _. v))
      ]

  lose_superpeer-Sound :
      (s : State) (c : Client)
      → c.core.state ≡ s
      → c.core.is_sp ≡ false
      → (c.core.state ≡ active → lacks_checker c.core ≡ true → F)
      → IsSound c.core
      → Sound F (lose_superpeer e s c)
  unfolding lose_superpeer
  lose_superpeer-Sound active c here h excuse v =
      Ensures->>= (Stopped c.core) F (stop_threads e false c) _
        (stop_threads-Ensures e F false c (excuse here) v)
        (λ c1 s. back_to_bs-Sound c1 (s.same_kind ∙ h) s.sound)
  lose_superpeer-Sound _ c here h excuse v = v

  refused_whohas-Sound :
      (addr : SockaddrIn) (c : Client)
      → (addrcmp addr c.core.addr_to_ping ≡ true → c.core.is_sp ≡ false)
      → (addrcmp addr c.core.addr_to_ping ≡ true
          → c.core.state ≡ active
          → lacks_checker c.core ≡ true
          → F)
      → IsSound c.core
      → Sound F (refused_whohas e addr c)
  unfolding refused_whohas
  refused_whohas-Sound addr c orderly excuse v =
      if-case (Sound F) (addrcmp addr c.core.addr_to_ping) _ _
        (λ f. lose_superpeer-Sound c.core.state c refl (orderly f) (excuse f) v) (λ _. v)

  refused-Sound :
      (s : State) (addr : SockaddrIn) (cmdstr : List ℕ) (c : Client)
      → c.core.state ≡ s
      → (addrcmp addr c.core.addr_to_ping ≡ true → c.core.is_sp ≡ false)
      → (addrcmp addr c.core.addr_to_ping ≡ true
          → c.core.state ≡ active
          → lacks_checker c.core ≡ true
          → F)
      → (IsThrough c.core → F)
      → IsSound c.core
      → Sound F (refused e s addr cmdstr c)
  unfolding refused
  refused-Sound joinsp_sent addr cmdstr c here orderly excuse through v =
      if-case (Sound F) (is_cmd cmdstr cmd_join) _ _ (λ _. refused_join-Sound addr c here through v)
        (λ _.
          if-case (Sound F) (is_cmd cmdstr cmd_whohas) _ _
            (λ _. refused_whohas-Sound addr c orderly excuse v) (λ _. v))
  refused-Sound _ addr cmdstr c here orderly excuse through v =
      if-case (Sound F) (is_cmd cmdstr cmd_whohas) _ _
        (λ _. refused_whohas-Sound addr c orderly excuse v) (λ _. v)

  pub err_handler-Sound :
      (addr : SockaddrIn) (pck : Packet) (c : Client)
      → (addrcmp addr c.core.addr_to_ping ≡ true → c.core.is_sp ≡ false)
      → (addrcmp addr c.core.addr_to_ping ≡ true
          → c.core.state ≡ active
          → lacks_checker c.core ≡ true
          → F)
      → (IsThrough c.core → F)
      → IsSound c.core
      → Sound F (err_handler e addr pck c)
  unfolding err_handler
  err_handler-Sound addr pck c orderly excuse through v =
      if-case (Sound F) ((stopped pck.index c).0 == 1) _ _ (λ _. v)
        (λ _.
          refused-Sound c.core.state addr (stopped pck.index c).1 (stopped pck.index c).2 refl
            orderly excuse through v)

  errors-IsSound :
      (k : Core)
      → k.bserror < max_bs_error
      → IsSound k
      → IsSound (record k { bserror = k.bserror + 1 })
  errors-IsSound k h v = record {
    joining = v.joining;
    superpeer = v.superpeer;
    promoter = v.promoter;
    errors = omega (arith, h);
    tries = v.tries;
  }

  joinsp_sent-IsSound :
      (k : Core) → k.state ≡ joinsp_sent → IsSound k → IsSound (record k { state = joinsp_sent })
  joinsp_sent-IsSound k h v = record {
    joining = λ _. v.joining h;
    superpeer = λ f. absurd (let g = v.superpeer f in cc);
    promoter = λ f. absurd (cc);
    errors = v.errors;
    tries = v.tries;
  }

  lost_join-Sound :
      (s : State) (c : Client)
      → c.core.state ≡ s
      → (IsThrough c.core → F)
      → IsSound c.core
      → Sound F (lost_join e s c)
  unfolding lost_join
  lost_join-Sound joinbs_sent c here through v =
      if-case (Sound F) (ltb c.core.bserror max_bs_error) _ _
        (λ h.
          back_to_bs-Sound _ (away_from c.core joinbs_sent refl here v)
            (errors-IsSound c.core (ground arith) v))
        (λ _. tt)
  lost_join-Sound joinsp_sent c here through v =
      let l = v.joining here in
      elim (Bool-cases (leb c.core.addr_list_len c.core.curr_addr_index)) [
        | inl f ↦ rw (current-none c.core l (ground arith)) (through (here, ground arith))
        | inr f ↦
            let h : c.core.curr_addr_index < c.core.addr_list_len = ground arith in
            let (a, found) = current-some c.core l h in
            let u = advanced-IsSound c.core h v in
            rw found (
              if-case (Sound F) (ltb (c.core.curr_addr_index + 1) c.core.addr_list_len) _ _
                (λ g.
                  Keeps->>= F (join_current e (next c)) _ (next c).core
                    (join_current-Keeps (next c) (u.joining here) (ground arith)) u
                    (λ c1 same.
                      joinsp_sent-IsSound c1.core (ap (λ k. k.state) same ∙ here)
                        (subst IsSound (sym same) u)))
                (λ _. back_to_bs-Sound c (away_from c.core joinsp_sent refl here v) v))
      ]
  lost_join-Sound _ c here through v = v

  lost_promote-Sound :
      (c : Client)
      → c.core.is_sp ≡ true
      → (lacks_checker c.core ≡ true → F)
      → IsSound c.core
      → Sound F (lost_promote e c)
  unfolding lost_promote
  lost_promote-Sound c h excuse v =
      if-case (Sound F) (leb max_p_count c.peers.curr_p_count) _ _
        (λ _. promote-Sound e w F c h excuse v) (λ _. active-IsSound c.core v)

  pub error_handler-Sound :
      (errstr : List ℕ) (c : Client)
      → (is_cmd errstr cmd_promote ≡ true → c.core.is_sp ≡ true)
      → (lacks_checker c.core ≡ true → F)
      → (IsThrough c.core → F)
      → IsSound c.core
      → Sound F (error_handler e errstr c)
  unfolding error_handler
  error_handler-Sound errstr c orderly excuse through v =
      if-case (Sound F) (is_cmd errstr cmd_join) _ _
        (λ _. lost_join-Sound c.core.state c refl through v)
        (λ _.
          if-case (Sound F) (is_cmd errstr cmd_promote) _ _
            (λ f. lost_promote-Sound c (orderly f) excuse v)
            (λ _. if-case (Sound F) (is_cmd errstr cmd_leave) _ _ (λ _. tt) (λ _. v)))

  pub reset_handler-Sound :
      (c : Client)
      → c.core.is_sp ≡ false
      → (lacks_checker c.core ≡ true → F)
      → IsSound c.core
      → Sound F (reset_handler e c)
  unfolding reset_handler
  reset_handler-Sound c h excuse v =
      Ensures->>= (Stopped c.core) F (stop_threads e true c) _
        (stop_threads-Ensures e F true c excuse v)
        (λ c1 s. back_to_bs-Sound c1 (s.same_kind ∙ h) s.sound)
