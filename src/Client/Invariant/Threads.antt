-- ===== src/Client/Invariant/Threads.antt =====
-- The functions that start and stop the threads, and the promotion of a client.
use mathlib.Core.Path.{subst}
use karmanet.Common.{
  ◌≡◌, refl, sym, ap, ◌∙◌, inl, inr, Bool, true, false, not, ◌&&◌, ◌||◌, Option, none, some, List,
  [], map, arith, if◌then◌else◌, Bool-cases,
}
use karmanet.Common.Memory.{◌>>=◌ as ◌>>=?◌}
use karmanet.Wire.{SockaddrIn}
use karmanet.Overlay.Join.{Joined, join_overlay}
use karmanet.Overlay.Join
use karmanet.Overlay.Joining.{IsJoined}
use karmanet.Overlay.Rounds.{join_overlay-Ends}
use karmanet.Client.{
  with_myaddr, run_checker, run_as, stop_as, Core, Client, Env, check, run_threads, stop_threads,
  reset_superpeer, connect, init_superpeer,
}
use karmanet.Client.Invariant.{
  IsSound, Sound, Ensures, lacks_checker, if-case, deref-case, check-Sound, others-IsSound,
}

-- what is left of the variables when a thread has stopped
pub record Stopped (k : Core) (k' : Core) : Type 0 where
  pub sound : IsSound k'
  pub same_state : k'.state ≡ k.state
  pub same_kind : k'.is_sp ≡ k.is_sp

check-Ensures :
    (P : Core → Type 0) (F : Type 0) (b : Bool) (c : Client)
    → P c.core
    → IsSound c.core
    → Ensures P F (check b c)
check-Ensures P F true c p s = p
check-Ensures P F false c p s = s

module _ (e : Env) (F : Type 0) where
  stop_as-Ensures :
      (b reset : Bool) (c : Client)
      → c.core.is_sp ≡ b
      → (lacks_checker c.core ≡ true → F)
      → IsSound c.core
      → Ensures (Stopped c.core) F (stop_as e b reset c)
  unfolding stop_as
  stop_as-Ensures true reset c h excuse v =
      deref-case (Ensures (Stopped c.core) F) c.core.peer_list_checker _
        (λ f.
          if-case (Ensures (Stopped c.core) F) (e.checker_stops && e.checker_joins) _ _
            (λ _.
              check-Ensures (Stopped c.core) F e.pinger_joins _
                (record {
                  sound = others-IsSound c.core _ _ _ _ _ _ _ _ _ _ v;
                  same_state = refl;
                  same_kind = refl;
                })
                (others-IsSound c.core _ _ _ _ _ _ _ _ _ _ v))
            (λ _. v))
        (λ f. excuse (ground arith))
  stop_as-Ensures false reset c h excuse v =
      deref-case (Ensures (Stopped c.core) F) c.core.sp_checker _
        (λ f.
          if-case (Ensures (Stopped c.core) F) ((reset || e.checker_stops) && e.checker_joins) _ _
            (λ _.
              check-Ensures (Stopped c.core) F e.pinger_joins _
                (record {
                  sound = others-IsSound c.core _ _ _ _ _ _ _ _ _ _ v;
                  same_state = refl;
                  same_kind = refl;
                })
                (others-IsSound c.core _ _ _ _ _ _ _ _ _ _ v))
            (λ _. v))
        (λ f. excuse (ground arith))

  pub stop_threads-Ensures :
      (reset : Bool) (c : Client)
      → (lacks_checker c.core ≡ true → F)
      → IsSound c.core
      → Ensures (Stopped c.core) F (stop_threads e reset c)
  unfolding stop_threads
  stop_threads-Ensures reset c excuse v =
      if-case (Ensures (Stopped c.core) F) e.pinger_stops _ _
        (λ _. stop_as-Ensures c.core.is_sp reset c refl excuse v) (λ _. v)

  run_checker-Sound :
      (a : SockaddrIn) (c : Client) → IsSound c.core → Sound F (run_checker e (some a) c)
  unfolding run_checker
  run_checker-Sound a c v =
      if-case (Sound F) e.checker_runs _ _
        (λ _. check-Sound F e.pinger_runs _ (others-IsSound c.core _ _ _ _ _ _ _ _ _ _ v)) (λ _. v)

  -- the checker of the kind of client that the address is given for
  pub run_threads-peer :
      (a : SockaddrIn) (c : Client)
      → c.core.is_sp ≡ false
      → IsSound c.core
      → Sound F (run_threads e none (some a) c)
  unfolding run_threads run_as
  run_threads-peer a c h v =
      subst (λ b. Sound F (run_as e b none (some a) c)) (sym h)
        (run_checker-Sound a _ (others-IsSound c.core _ _ _ _ _ _ _ _ _ _ v))

  pub run_threads-superpeer :
      (a : SockaddrIn) (c : Client)
      → c.core.is_sp ≡ true
      → IsSound c.core
      → Sound F (run_threads e (some a) none c)
  unfolding run_threads run_as
  run_threads-superpeer a c h v =
      subst (λ b. Sound F (run_as e b (some a) none c)) (sym h)
        (run_checker-Sound a _ (others-IsSound c.core _ _ _ _ _ _ _ _ _ _ v))

-- `init_superpeer` never faults: its buffer is new
reset-IsJoined : (e : Env) (c : Client) → IsJoined [] (reset_superpeer e c).overlay
reset-IsJoined e c = record { count = refl; copy = refl }

connect-some :
    (e : Env) (addrs : List SockaddrIn) (c : Client)
    → IsJoined [] c.overlay
    → (r : Client × Join.Result) × (connect e addrs c ≡ some r) × (r.0.core ≡ c.core)
unfolding connect
connect-some e addrs c v =
    let (j, made, _) =
      join_overlay-Ends e.near_bytes e.near_count (map (λ a. (a, e.attempts a)) addrs) c.overlay
        v in
    ((record c { overlay = j.state }, j.result), rw made refl, refl)

-- the variables after `init_superpeer`
pub record Reset (k k' : Core) : Type 0 where
  pub same_state : k'.state ≡ k.state
  pub same_list : k'.addr_list ≡ k.addr_list
  pub same_errors : k'.bserror ≡ k.bserror
  pub no_superpeer : k'.is_sp ≡ false
  pub no_tries : k'.join_ov_try ≡ 0

with_myaddr-Reset :
    (e : Env) (result : Join.Result) (k : Core) (c : Client)
    → Reset k c.core
    → Reset k (with_myaddr e result c).core
with_myaddr-Reset e Join.failed k c h = h
with_myaddr-Reset e _ k c h = record {
  same_state = h.same_state;
  same_list = h.same_list;
  same_errors = h.same_errors;
  no_superpeer = h.no_superpeer;
  no_tries = h.no_tries;
}

if-not-true : {A : Type 0} (b : Bool) (x y : A) → b ≡ true → (if not b then x else y) ≡ y
if-not-true true x y h = refl
if-not-true false x y h = absurd (cc)

if-not-false : {A : Type 0} (b : Bool) (x y : A) → b ≡ false → (if not b then x else y) ≡ x
if-not-false false x y h = refl
if-not-false true x y h = absurd (cc)

started :
    (e : Env) (addrs : Option (List SockaddrIn)) (c : Client)
    → Reset c.core (reset_superpeer e c).core
    → e.listens ≡ true
    → (r : Client × Join.Result) × (init_superpeer e addrs c ≡ some r) × Reset c.core r.0.core
unfolding init_superpeer
started e none c fresh f =
    ((reset_superpeer e c, Join.complete), if-not-true e.listens _ _ f, fresh)
started e (some l) c fresh f =
    let (r, made, same) = connect-some e l (reset_superpeer e c) (reset-IsJoined e c) in
    (
      (with_myaddr e r.1 r.0, r.1),
      if-not-true e.listens _ _ f ∙ ap (λ o. o >>=? λ q. some (with_myaddr e q.1 q.0, q.1)) made,
      with_myaddr-Reset e r.1 c.core r.0 (subst (Reset c.core) (sym same) fresh),
    )

pub init_superpeer-some :
    (e : Env) (addrs : Option (List SockaddrIn)) (c : Client)
    → (r : Client × Join.Result) × (init_superpeer e addrs c ≡ some r) × Reset c.core r.0.core
unfolding init_superpeer
init_superpeer-some e addrs c = elim (Bool-cases e.listens) [
  | inr f ↦ ((reset_superpeer e c, Join.failed), if-not-false e.listens _ _ f, fresh)
  | inl f ↦ started e addrs c fresh f
]
  where
    fresh : Reset c.core (reset_superpeer e c).core
    fresh = record {
      same_state = refl;
      same_list = refl;
      same_errors = refl;
      no_superpeer = refl;
      no_tries = refl;
    }
