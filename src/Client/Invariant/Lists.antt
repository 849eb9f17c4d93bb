-- ===== src/Client/Invariant/Lists.antt =====
-- `list_handler`: the addresses that the bootstrap server sends.
use karmanet.Common.{
  ℕ, zero, suc, ◌+◌, ◌/◌, ◌≤◌, ◌<◌, ◌≡◌, refl, sym, ap, ◌∙◌, ◌≢◌, inl, inr, true, false, Option,
  none, some, List, map, arith, leb, ◌==◌, if◌then◌else◌, Bool-cases, Option-cases, length, drop,
}
use karmanet.Common.Memory.{◌>>=◌ as ◌>>=?◌}
use mathlib.Core.Path.{subst}
use karmanet.Wire.{SockaddrIn, str_to_addr}
use karmanet.Overlay.Join
use karmanet.Overlay.Join.{join_overlay}
use karmanet.Packet.{Packet}
use karmanet.Client.{
  forget_addrs, set_state, State, max_join_ov_try, max_bs_error, Core, Client, Env, ◌>>=◌, fails,
  with_core, join_bs, new_abort_packet, new_register_free, free_connections, register_bs, connect,
  stopped, joinbs_sent, joinsp_sent, promote_sent, promote_recv, register_sent, active,
  open_more_conn, done,
}
use karmanet.Client.Joining.{join_current, current}
use karmanet.Client.Lists.{
  received, with_list, list_joining, abort, register, ask_again, list_promoted, no_neighbours,
  no_tries, give_up_joining, list_more, listed, list_handler,
}
use karmanet.Client.Keeping.{IsEnv, Keeps, request-Keeps, Made-abort, Made-register_free}
use karmanet.Client.Invariant.{
  IsSound, Sound, Waiting, serves, Keeps->>=, Keeps-fails, if-case, set_state-IsSound,
}
use karmanet.Client.Invariant.Threads.{init_superpeer-some}
use karmanet.Client.Invariant.Handlers.{join_bs-Keeps}
use karmanet.Client.Invariant.Refusals.{current-none, away_from, join_current-Keeps}
use karmanet.Client.Invariant.Answers.{settled-IsSound, Reset-IsSound, result-case}

-- a list with no address in the state that joins
abbrev pub IsEmpty : Packet → Core → Type 0
IsEmpty pck k = (k.state ≡ joinbs_sent) × (pck.data_len / 6 ≡ 0)

length-str_to_addr : (str : List ℕ) (dim : ℕ) → length (str_to_addr str dim) ≡ dim
unfolding str_to_addr
length-str_to_addr str zero = refl
length-str_to_addr str (suc dim) = ap suc (length-str_to_addr (drop 6 str) dim)

length-received : (pck : Packet) → length (received pck) ≡ pck.data_len / 6
length-received pck = length-str_to_addr pck.payload (pck.data_len / 6)

connect-core :
    (e : Env) (addrs : List SockaddrIn) (c : Client) (r : Client × Join.Result)
    → connect e addrs c ≡ some r
    → r.0.core ≡ c.core
unfolding connect
connect-core e addrs c r h =
    core-of (join_overlay e.near_bytes e.near_count (map (λ a. (a, e.attempts a)) addrs) c.overlay)
      h
  where
    core-of :
        (o : Option Join.Joined)
        → (o >>=? λ j. some (record c { overlay = j.state }, j.result)) ≡ some r
        → r.0.core ≡ c.core
    core-of none h = absurd (cc)
    core-of (some j) h = sym (ap (λ o. elim o [ none ↦ c.core | some q ↦ q.0.core ]) h)

more-IsSound :
    (k : Core)
    → k.state ≢ joinsp_sent
    → k.join_ov_try < max_join_ov_try
    → IsSound k
    → IsSound (record k { join_ov_try = k.join_ov_try + 1 })
more-IsSound k away few v = record {
  joining = λ f. absurd (away f);
  superpeer = v.superpeer;
  promoter = v.promoter;
  errors = v.errors;
  tries = omega (arith, few);
}

-- the list and the counters of a client that does not join
list-IsSound :
    (k : Core) (list : Option (List SockaddrIn)) (len errors tries : ℕ)
    → k.state ≢ joinsp_sent
    → errors ≤ max_bs_error
    → tries ≤ max_join_ov_try
    → IsSound k
    → IsSound
        (record k { addr_list = list; addr_list_len = len; bserror = errors; join_ov_try = tries })
list-IsSound k list len errors tries away few tried v = record {
  joining = λ f. absurd (away f);
  superpeer = v.superpeer;
  promoter = v.promoter;
  errors = few;
  tries = tried;
}

registered-IsSound :
    (c1 c : Client) → c1.core ≡ c.core → IsSound c.core → IsSound (set_state register_sent c1).core
registered-IsSound c1 c same v =
    set_state-IsSound register_sent c1.core (λ f. cc) (λ f. absurd (cc)) (λ _. refl)
      (subst IsSound (sym same) v)

tries-IsSound :
    (s : State) (c1 c : Client)
    → s ≢ joinsp_sent
    → s ≢ promote_sent
    → serves s ≡ true
    → c1.core ≡ c.core
    → IsSound c.core
    → IsSound (set_state s (no_tries c1)).core
tries-IsSound s c1 c away other serving same v = record {
  joining = λ f. absurd (away f);
  superpeer = λ _. serving;
  promoter = λ f. absurd (other f);
  errors = (subst IsSound (sym same) v).errors;
  tries = omega arith;
}

module _ (e : Env) (w : IsEnv e) (F : Type 0) where
  list_joining-Sound :
      (pck : Packet) (c : Client)
      → c.core.state ≡ joinbs_sent
      → (IsEmpty pck c.core → F)
      → IsSound c.core
      → Sound F (list_joining e pck c)
  unfolding list_joining join_current
  list_joining-Sound pck c here excuse v = elim (Bool-cases (pck.data_len / 6 == 0)) [
    | inl f ↦ rw (nothing (ground arith)) (excuse (here, ground arith))
    | inr f ↦
        Keeps->>= F (join_current e (begun c)) _ (begun c).core
          (join_current-Keeps e w F (begun c) full (ground arith)) begun-IsSound
          (λ c1 same. joining c1 same)
  ]
    where
      begun : Client → Client
      begun c =
          with_core (with_list pck c)
            (record (with_list pck c).core { bserror = 0; curr_addr_index = 0 })

      full : Waiting (begun c).core
      full = (received pck, refl, length-received pck, omega arith)

      nothing :
          pck.data_len / 6 ≡ 0
          → current (begun c).core.addr_list (begun c).core.curr_addr_index ≡ none
      nothing h = current-none (begun c).core full (omega (arith, h))

      begun-IsSound : IsSound (begun c).core
      begun-IsSound = record {
        joining = λ g. absurd (cc);
        superpeer = v.superpeer;
        promoter = v.promoter;
        errors = omega arith;
        tries = v.tries;
      }

      joining :
          (c1 : Client)
          → c1.core ≡ (begun c).core
          → IsSound (record c1.core { state = joinsp_sent })
      joining c1 same = record {
        joining = λ g. subst Waiting (sym same) full;
        superpeer = λ g. absurd (
            let q = ap (λ k. k.is_sp) same in
            let o = away_from c.core joinbs_sent refl here v in cc);
        promoter = λ g. absurd (cc);
        errors = (subst IsSound (sym same) begun-IsSound).errors;
        tries = (subst IsSound (sym same) begun-IsSound).tries;
      }

  abort-Keeps : (c : Client) → Keeps c.core (abort e c)
  unfolding abort
  abort-Keeps c =
      request-Keeps e c.core.addr_to_ping (new_abort_packet e) c w
        (λ i. Made-abort e.scratch w.scratch_size i e)

  register_bs-Keeps : (c : Client) → Keeps c.core (register_bs e c)
  unfolding register_bs
  register_bs-Keeps c =
      request-Keeps e e.bs_addr (new_register_free e (free_connections c.overlay)) c w
        (λ i. Made-register_free e.scratch w.scratch_size i e (free_connections c.overlay))

  registering-Sound :
      (c : Client) (f : Client → Client)
      → ((c1 : Client) → c1.core ≡ c.core → IsSound (f c1).core)
      → IsSound c.core
      → Sound F (register_bs e c >>= λ c1. done (f c1))
  registering-Sound c f g v = Keeps->>= F (register_bs e c) _ c.core (register_bs-Keeps c) v g

  register-Sound : (c : Client) → IsSound c.core → Sound F (register e c)
  unfolding register
  register-Sound c v =
      registering-Sound c (set_state register_sent) (λ c1 same. registered-IsSound c1 c same v) v

  ask_again-Sound :
      (c : Client)
      → c.core.state ≢ joinsp_sent
      → c.core.is_sp ≡ false
      → c.core.join_ov_try < max_join_ov_try
      → IsSound c.core
      → Sound F (ask_again e c)
  unfolding ask_again
  ask_again-Sound c away h few v =
      let u = more-IsSound c.core away few v in
      Keeps->>= F (join_bs e (tried c)) _ (tried c).core (join_bs-Keeps e w F (tried c)) u
        (λ c1 same.
          set_state-IsSound open_more_conn c1.core (λ f. cc) (λ f. absurd (cc))
            (λ f. absurd (let q = ap (λ k. k.is_sp) same in cc)) (subst IsSound (sym same) u))
    where
      tried : Client → Client
      tried c = with_core c (record c.core { join_ov_try = c.core.join_ov_try + 1 })

  list_promoted-Sound :
      (pck : Packet) (c : Client)
      → c.core.state ≡ promote_recv
      → IsSound c.core
      → Sound F (list_promoted e pck c)
  unfolding list_promoted
  list_promoted-Sound pck c here v =
      let (r, made, after) = init_superpeer-some e (some (received pck)) (begun c) in
      let away : r.0.core.state ≢ joinsp_sent = λ f. let g = after.same_state in cc in
      let u = Reset-IsSound (begun c).core r.0.core (λ f. cc) (λ f. cc) (omega arith) after in
      let few : r.0.core.join_ov_try < max_join_ov_try = let g = after.no_tries in omega arith in
      rw made (
        result-case (Sound F) r.1 _ _ _
          (Keeps-fails F (abort e (set_state active (forget_addrs r.0))) _ (abort-Keeps _)
            (settled-IsSound active r.0.core none (λ f. cc) (λ f. cc) (λ _. refl) u))
          (ask_again-Sound (forget_addrs r.0) away after.no_superpeer few
            (list-IsSound r.0.core none _ _ _ away u.errors u.tries u))
          (register-Sound (forget_addrs r.0)
            (list-IsSound r.0.core none _ _ _ away u.errors u.tries u)))
    where
      begun : Client → Client
      begun c = with_core (with_list pck c) (record (with_list pck c).core { bserror = 0 })

  give_up_joining-Sound :
      (c : Client) → c.core.state ≢ joinsp_sent → IsSound c.core → Sound F (give_up_joining e c)
  unfolding give_up_joining
  give_up_joining-Sound c away v =
      if-case (Sound F) (c.overlay.nsock == 0) _ _
        (λ _.
          Keeps->>= F (abort e (no_neighbours c)) _ c.core (abort-Keeps (no_neighbours c)) v
            (λ c1 same. tries-IsSound active c1 c (λ f. cc) (λ f. cc) refl same v))
        (λ _.
          registering-Sound c (λ c1. set_state register_sent (no_tries c1))
            (λ c1 same. tries-IsSound register_sent c1 c (λ f. cc) (λ f. cc) refl same v) v)

  list_more-Sound :
      (pck : Packet) (c : Client)
      → c.core.state ≡ open_more_conn
      → F
      → IsSound c.core
      → Sound F (list_more e pck c)
  unfolding list_more
  list_more-Sound pck c here excuse v =
      elim (Option-cases (connect e (received pck) (with_list pck c))) [
        | inl f ↦ rw f excuse
        | inr (r, f) ↦ rw f (connected r (connect-core e (received pck) (with_list pck c) r f))
      ]
    where
      connected :
          (r : Client × Join.Result)
          → r.0.core ≡ (with_list pck c).core
          → Sound F (elim r.1 [
            | Join.failed ↦ fails (abort e (no_neighbours (forget_addrs r.0)))
            | Join.partial ↦
                if leb max_join_ov_try r.0.core.join_ov_try
                then give_up_joining e (forget_addrs r.0)
                else ask_again e (forget_addrs r.0)
            | Join.complete ↦ register_bs e (forget_addrs r.0) >>= λ c2.
                done (no_tries (set_state register_sent c2))
          ])
      connected r same =
          let away : r.0.core.state ≢ joinsp_sent = λ f. let g = ap (λ k. k.state) same in cc in
          let u =
            subst IsSound (sym same) (list-IsSound c.core _ _ _ _ (λ f. cc) v.errors v.tries v) in
          let t = list-IsSound r.0.core none _ _ _ away u.errors u.tries u in
          let out = ap (λ k. k.is_sp) same ∙ away_from c.core open_more_conn refl here v in
          result-case (Sound F) r.1 _ _ _
            (Keeps-fails F (abort e (no_neighbours (forget_addrs r.0))) _ (abort-Keeps _) t)
            (if-case (Sound F) (leb max_join_ov_try r.0.core.join_ov_try) _ _
              (λ _. give_up_joining-Sound (forget_addrs r.0) away t)
              (λ f. ask_again-Sound (forget_addrs r.0) away out (ground arith) t))
            (registering-Sound (forget_addrs r.0) (λ c2. no_tries (set_state register_sent c2))
              (λ c2 also.
                tries-IsSound register_sent c2 (forget_addrs r.0) (λ f. cc) (λ f. cc) refl also t)
              t)

  listed-Sound :
      (s : State) (pck : Packet) (c : Client)
      → c.core.state ≡ s
      → (IsEmpty pck c.core → F)
      → (c.core.state ≡ open_more_conn → F)
      → IsSound c.core
      → Sound F (listed e s pck c)
  unfolding listed
  listed-Sound joinbs_sent pck c here empty more v = list_joining-Sound pck c here empty v
  listed-Sound promote_recv pck c here empty more v = list_promoted-Sound pck c here v
  listed-Sound open_more_conn pck c here empty more v = list_more-Sound pck c here (more here) v
  listed-Sound _ pck c here empty more v = v

  pub list_handler-Sound :
      (pck : Packet) (c : Client)
      → (IsEmpty pck c.core → F)
      → (c.core.state ≡ open_more_conn → F)
      → IsSound c.core
      → Sound F (list_handler e pck c)
  unfolding list_handler
  list_handler-Sound pck c empty more v =
      listed-Sound c.core.state pck (stopped pck.index c).2 refl empty more v
