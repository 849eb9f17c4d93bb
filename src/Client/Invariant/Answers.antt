-- ===== src/Client/Invariant/Answers.antt =====
-- What a client does when a request was accepted or it is promoted: `ack_handler` and
-- `promote_handler`.
use karmanet.Common.{
  ◌≤◌, ◌≡◌, refl, sym, ap, ◌∙◌, ◌≢◌, Bool, true, false, Option, none, some, List, arith,
}
use mathlib.Core.Path.{subst}
use karmanet.Wire.{addrcpy, str2addr, SockaddrIn, addrcmp}
use karmanet.Overlay.Join
use karmanet.Packet.{Packet, new_ack_packet, new_register_packet}
use karmanet.Client.{
  forget_addrs, set_state, State, max_bs_error, Core, Client, Env, Outcome, ◌>>=◌, regardless,
  check, deref, with_core, reply, request, run_threads, stop_threads, stopped, joinbs_sent,
  joinsp_sent, promote_sent, promote_recv, register_sent, active, leave_sent, done,
}
use karmanet.Client.Messages.{send_leave}
use karmanet.Client.Joining.{
  init_transfer, joined_sp, registered, acknowledged, ack_handler, promoted_by_bs,
  new_join_superpeer, ignores_promote, promoted_by_sp, promoted, promote_handler,
}
use karmanet.Client.Keeping.{
  IsEnv, reply-Keeps, request-Keeps, Made-ack, Made-register, Made-join_superpeer,
}
use karmanet.Client.Invariant.{
  IsSound, Sound, serves, lacks_checker, Keeps->>=, Sound->>=, Ensures->>=, Sound-regardless,
  if-case, deref-case, check-Sound, others-IsSound, set_state-IsSound, active-IsSound,
}
use karmanet.Client.Invariant.Threads.{
  Stopped, Reset, stop_threads-Ensures, run_threads-peer, run_threads-superpeer,
  init_superpeer-some,
}
use karmanet.Client.Invariant.Handlers.{send_leave-Keeps}
use karmanet.Client.Invariant.Refusals.{away_from}

-- a state in which the client works without a list
pub settled-IsSound :
    (s : State) (k : Core) (list : Option (List SockaddrIn))
    → s ≢ joinsp_sent
    → s ≢ promote_sent
    → (k.is_sp ≡ true → serves s ≡ true)
    → IsSound k
    → IsSound (record k { state = s; addr_list = list })
settled-IsSound s k list away other superpeer v = record {
  joining = λ f. absurd (away f);
  superpeer = superpeer;
  promoter = λ f. absurd (other f);
  errors = v.errors;
  tries = v.tries;
}

superpeer-IsSound :
    (k : Core) → serves k.state ≡ true → IsSound k → IsSound (record k { is_sp = true })
superpeer-IsSound k h v = record {
  joining = v.joining;
  superpeer = λ _. h;
  promoter = λ _. refl;
  errors = v.errors;
  tries = v.tries;
}

-- after `init_superpeer`
pub Reset-IsSound :
    (k k' : Core)
    → k.state ≢ joinsp_sent
    → k.state ≢ promote_sent
    → k.bserror ≤ max_bs_error
    → Reset k k'
    → IsSound k'
Reset-IsSound k k' away other few r = record {
  joining = λ f. absurd (away (sym r.same_state ∙ f));
  superpeer = λ f. absurd (let g = r.no_superpeer in cc);
  promoter = λ f. absurd (other (sym r.same_state ∙ f));
  errors = let g = r.same_errors in omega (arith, few);
  tries = let g = r.no_tries in omega arith;
}

-- the three results of `join_overlay`
pub result-case :
    (Q : Outcome → Type 0) (r : Join.Result) (o p q : Outcome)
    → Q o
    → Q p
    → Q q
    → Q (elim r [ Join.failed ↦ o | Join.partial ↦ p | Join.complete ↦ q ])
result-case Q Join.failed o p q f g h = f
result-case Q Join.partial o p q f g h = g
result-case Q Join.complete o p q f g h = h

ignores-away : (s : State) (b : Bool) → ignores_promote s b ≡ false → b ≡ false
ignores-away s true h = absurd (ignores s h)
  where
    ignores : (s : State) → ignores_promote s true ≢ false
    ignores promote_recv h = cc
    ignores register_sent h = cc
    ignores _ h = cc
ignores-away s false h = refl

abbrev with_father : Client → Client
with_father c =
    with_core c (record c.core { father_addr = addrcpy c.core.father_addr c.core.addr_to_ping })

module _ (e : Env) (w : IsEnv e) (F : Type 0) where
  init_transfer-Sound : (c : Client) → IsSound c.core → Sound F (init_transfer e c)
  unfolding init_transfer
  init_transfer-Sound c v =
      if-case (Sound F) e.init_transfer _ _ (λ _. others-IsSound c.core _ _ _ _ _ _ _ _ _ _ v)
        (λ _. v)

  joined_sp-Sound :
      (addr : SockaddrIn) (c : Client)
      → c.core.is_sp ≡ false
      → IsSound c.core
      → Sound F (joined_sp e addr c)
  unfolding joined_sp
  joined_sp-Sound addr c h v =
      Sound->>= F (run_threads e none (some addr) c) _ (run_threads-peer e F addr c h v) (λ c1 u.
        Sound->>= F (init_transfer e _) _
          (init_transfer-Sound _
            (settled-IsSound active c1.core none (λ f. cc) (λ f. cc) (λ _. refl) u))
          (λ c2 u.
            Sound->>= F (check e.create_diff c2) _ (check-Sound F e.create_diff c2 u)
              (λ c3 u. check-Sound F e.send_share c3 u)))

  registered-Sound :
      (c : Client)
      → c.core.state ≡ register_sent
      → (lacks_checker c.core ≡ true → F)
      → (e.own_fits ≡ false → F)
      → IsSound c.core
      → Sound F (registered e c)
  unfolding registered
  registered-Sound c here excuse own v =
      Keeps->>= F (request e c.core.addr_to_ping new_register_packet c) _ c.core
        (request-Keeps e c.core.addr_to_ping new_register_packet c w
          (Made-register e.scratch w.scratch_size))
        v
        (λ c1 same.
          let u = others-IsSound c1.core _ _ _ _ _ _ _ _ _ _ (subst IsSound (sym same) v) in
          Ensures->>= (Stopped (with_father c1).core) F (stop_threads e false (with_father c1)) _
            (stop_threads-Ensures e F false (with_father c1)
              (λ f. excuse (ap lacks_checker (sym same) ∙ f)) u)
            (λ c3 s. served c3 (s.same_state ∙ ap (λ k. k.state) same ∙ here) s.sound))
    where
      served :
          (c3 : Client)
          → c3.core.state ≡ register_sent
          → IsSound c3.core
          → Sound F (
              regardless
                (run_threads e
                  (some e.bs_addr)
                  none
                  (with_core c3 (record c3.core { is_sp = true })))
                (λ c4. check e.create_diff c4 >>= λ c5.
                  deref e.own_fits (check e.add_sp_file c5) >>= λ c6. done (set_state active c6)))
      served c3 f u =
          Sound-regardless F _ _
            (run_threads-superpeer e F e.bs_addr (with_core c3 (record c3.core { is_sp = true }))
              refl (superpeer-IsSound c3.core (rw f refl) u))
            (λ c4 u.
              Sound->>= F (check e.create_diff c4) _ (check-Sound F e.create_diff c4 u) (λ c5 u.
                Sound->>= F (deref e.own_fits (check e.add_sp_file c5)) _
                  (deref-case (Sound F) e.own_fits _ (λ _. check-Sound F e.add_sp_file c5 u) own)
                  (λ c6 u. active-IsSound c6.core u)))

  acknowledged-Sound :
      (s : State) (addr : SockaddrIn) (c : Client)
      → c.core.state ≡ s
      → (c.core.state ≡ register_sent → lacks_checker c.core ≡ true → F)
      → (e.own_fits ≡ false → F)
      → IsSound c.core
      → Sound F (acknowledged e s addr c)
  unfolding acknowledged
  acknowledged-Sound joinsp_sent addr c here excuse own v =
      joined_sp-Sound addr c (away_from c.core joinsp_sent refl here v) v
  acknowledged-Sound promote_sent addr c here excuse own v =
      others-IsSound c.core _ _ _ _ _ _ _ _ _ _ v
  acknowledged-Sound register_sent addr c here excuse own v =
      if-case (Sound F) (addrcmp addr e.bs_addr) _ _
        (λ _. registered-Sound c here (excuse here) own v) (λ _. v)
  acknowledged-Sound leave_sent addr c here excuse own v =
      if-case (Sound F) c.core.is_sp _ _
        (λ _. Keeps->>= F (send_leave e c) _ c.core (send_leave-Keeps e w F c) v (λ c1 h. tt))
        (λ _. tt)
  acknowledged-Sound _ addr c here excuse own v = v

  pub ack_handler-Sound :
      (addr : SockaddrIn) (pck : Packet) (c : Client)
      → (c.core.state ≡ register_sent → lacks_checker c.core ≡ true → F)
      → (e.own_fits ≡ false → F)
      → IsSound c.core
      → Sound F (ack_handler e addr pck c)
  unfolding ack_handler
  ack_handler-Sound addr pck c excuse own v =
      acknowledged-Sound c.core.state addr (stopped pck.index c).2 refl excuse own v

  promoted_by_bs-Sound :
      (pck : Packet) (c : Client)
      → (e.own_fits ≡ false → F)
      → IsSound c.core
      → Sound F (promoted_by_bs e pck c)
  unfolding promoted_by_bs
  promoted_by_bs-Sound pck c own v =
      let (r, made, after) = init_superpeer-some e none (forget_addrs (set_state active c)) in
      let u =
        Reset-IsSound (forget_addrs (set_state active c)).core r.0.core (λ f. cc) (λ f. cc) v.errors
          after in
      rw made (
        result-case (Sound F) r.1 _ _ _ u (promoted_to r.0 after.same_state u)
          (promoted_to r.0 after.same_state u))
    where
      promoted_to :
          (c0 : Client)
          → c0.core.state ≡ active
          → IsSound c0.core
          → Sound F (
              run_threads e (some e.bs_addr) none (with_core c0 (record c0.core { is_sp = true }))
              >>= λ c1. init_transfer e c1 >>= λ c2. check e.create_diff c2 >>= λ c3.
                  deref e.own_fits (
                    check e.add_sp_file
                      (with_core c3 (record c3.core { myaddr = str2addr pck.payload }))))
      promoted_to c0 f u =
          Sound->>= F _ _
            (run_threads-superpeer e F e.bs_addr (with_core c0 (record c0.core { is_sp = true }))
              refl (superpeer-IsSound c0.core (rw f refl) u))
            (λ c1 u. Sound->>= F (init_transfer e c1) _ (init_transfer-Sound c1 u) (λ c2 u.
              Sound->>= F (check e.create_diff c2) _ (check-Sound F e.create_diff c2 u) (λ c3 u.
                deref-case (Sound F) e.own_fits _
                  (λ _.
                    check-Sound F e.add_sp_file _ (others-IsSound c3.core _ _ _ _ _ _ _ _ _ _ u))
                  own)))

  promoted_by_sp-Sound :
      (addr : SockaddrIn) (pck : Packet) (c : Client)
      → IsSound c.core
      → Sound F (promoted_by_sp e addr pck c)
  unfolding promoted_by_sp
  promoted_by_sp-Sound addr pck c v =
      Keeps->>= F (reply e addr new_ack_packet pck.index c) _ c.core
        (reply-Keeps e addr new_ack_packet pck.index c
          (Made-ack e.scratch w.scratch_size pck.index))
        v
        (λ c1 same.
          let u = subst IsSound (sym same) v in
          if-case (Sound F) (ignores_promote c1.core.state c1.core.is_sp) _ _ (λ _. u)
            (λ f.
              Keeps->>= F (request e e.bs_addr (new_join_superpeer e) c1) _ c1.core
                (request-Keeps e e.bs_addr (new_join_superpeer e) c1 w
                  (λ i. Made-join_superpeer e.scratch w.scratch_size i e))
                u
                (λ c2 also.
                  set_state-IsSound promote_recv c2.core (λ g. cc) (λ g. absurd (cc))
                    (λ g. absurd (
                      let h = ignores-away c1.core.state c1.core.is_sp f in
                      let q = ap (λ k. k.is_sp) also in cc))
                    (subst IsSound (sym also) u))))

  promoted-Sound :
      (s : State) (addr : SockaddrIn) (pck : Packet) (c : Client)
      → (e.own_fits ≡ false → F)
      → IsSound c.core
      → Sound F (promoted e s addr pck c)
  unfolding promoted
  promoted-Sound joinbs_sent addr pck c own v = promoted_by_bs-Sound pck c own v
  promoted-Sound _ addr pck c own v = promoted_by_sp-Sound addr pck c v

  pub promote_handler-Sound :
      (addr : SockaddrIn) (pck : Packet) (c : Client)
      → (e.own_fits ≡ false → F)
      → IsSound c.core
      → Sound F (promote_handler e addr pck c)
  unfolding promote_handler
  promote_handler-Sound addr pck c own v =
      promoted-Sound c.core.state addr pck (stopped pck.index c).2 own v
