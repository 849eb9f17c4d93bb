-- ===== src/Client/Invariant.antt =====
-- What the handlers of src/client/client.c keep of the state machine's variables, and where they fault.
pub mod Threads
pub mod Handlers
pub mod Refusals
pub mod Answers
pub mod Lists
pub mod Dispatch
pub mod Reachable
use karmanet.Common.{
  ℕ, ◌≤◌, ◌≡◌, refl, sym, ◌≢◌, Bool, true, false, not, some, List, if◌then◌else◌, length,
}
use mathlib.Core.Path.{subst}
use karmanet.Wire.{SockaddrIn}
use karmanet.Client.{
  run_checker, run_as, stop_as, deref, forget_addrs, set_state, State, max_p_count, max_tcp_socket,
  max_join_ov_try, max_bs_error, Core, Client, Env, Outcome, ◌>>=◌, regardless, or_done, fails,
  need, check, with_core, is_cmd, mutex_send, send_retx, reply, request, join_sp, join_bs,
  new_abort_packet, new_register_free, free_connections, register_bs, run_threads, stop_threads,
  reset_superpeer, with_port, connect, init_superpeer, stopped, idle, joinbs_sent, joinsp_sent,
  promote_sent, promote_recv, register_sent, active, leave_sent, open_more_conn, done, failed,
  exited, fault,
}
use karmanet.Client.Keeping.{Keeps}

-- a list of addresses is there, and `curr_addr_index` is one of its positions or its end
abbrev pub Waiting : Core → Type 0
Waiting k =
    (l : List SockaddrIn) × (k.addr_list ≡ some l)
    × (length l ≡ k.addr_list_len)
    × (k.curr_addr_index ≤ k.addr_list_len)

-- the states of a superpeer
abbrev pub serves : State → Bool
serves promote_sent = true
serves register_sent = true
serves active = true
serves leave_sent = true
serves s = false

pub record IsSound (k : Core) : Type 0 where
  pub joining : k.state ≡ joinsp_sent → Waiting k
  pub superpeer : k.is_sp ≡ true → serves k.state ≡ true
  pub promoter : k.state ≡ promote_sent → k.is_sp ≡ true
  pub errors : k.bserror ≤ max_bs_error
  pub tries : k.join_ov_try ≤ max_join_ov_try

-- whether the pointer to the checker of this kind of client is NULL
abbrev pub lacks_checker : Core → Bool
lacks_checker k = if k.is_sp then not k.peer_list_checker else not k.sp_checker

-- the client that is left is sound; a fault has a reason in `F`
abbrev pub Sound : Type 0 → Outcome → Type 0
Sound F (done c) = IsSound c.core
Sound F (failed c) = IsSound c.core
Sound F exited = Unit
Sound F fault = F

-- as `Keeps`, of a call that may fault
abbrev pub KeepsOrFaults : Core → Outcome → Type 0
KeepsOrFaults k (done c) = c.core ≡ k
KeepsOrFaults k (failed c) = c.core ≡ k
KeepsOrFaults k exited = ⊥
KeepsOrFaults k fault = Unit

module _ (F : Type 0) where
  pub KeepsOrFaults-Sound :
      (o : Outcome) (k : Core) → KeepsOrFaults k o → (o ≡ fault → F) → IsSound k → Sound F o
  KeepsOrFaults-Sound (done c) k h f s = subst IsSound (sym h) s
  KeepsOrFaults-Sound (failed c) k h f s = subst IsSound (sym h) s
  KeepsOrFaults-Sound exited k h f s = tt
  KeepsOrFaults-Sound fault k h f s = f refl

  -- after a call that keeps the variables
  pub Keeps->>= :
      (o : Outcome) (f : Client → Outcome) (k : Core)
      → Keeps k o
      → IsSound k
      → ((c : Client) → c.core ≡ k → Sound F (f c))
      → Sound F (o >>= f)
  Keeps->>= (done c) f k h s g = g c h
  Keeps->>= (failed c) f k h s g = subst IsSound (sym h) s
  Keeps->>= exited f k h s g = tt
  Keeps->>= fault f k h s g = absurd h

  pub Keeps-Sound : (o : Outcome) (k : Core) → Keeps k o → IsSound k → Sound F o
  Keeps-Sound (done c) k h s = subst IsSound (sym h) s
  Keeps-Sound (failed c) k h s = subst IsSound (sym h) s
  Keeps-Sound exited k h s = tt
  Keeps-Sound fault k h s = absurd h

  pub Keeps-or_done :
      (o : Outcome) (f : Client → Outcome) (k : Core)
      → Keeps k o
      → IsSound k
      → ((c : Client) → c.core ≡ k → Sound F (f c))
      → Sound F (or_done o f)
  Keeps-or_done (done c) f k h s g = g c h
  Keeps-or_done (failed c) f k h s g = subst IsSound (sym h) s
  Keeps-or_done exited f k h s g = tt
  Keeps-or_done fault f k h s g = absurd h

  pub Keeps-fails : (o : Outcome) (k : Core) → Keeps k o → IsSound k → Sound F (fails o)
  Keeps-fails (done c) k h s = subst IsSound (sym h) s
  Keeps-fails (failed c) k h s = subst IsSound (sym h) s
  Keeps-fails exited k h s = tt
  Keeps-fails fault k h s = absurd h

  -- after a call that is sound itself
  pub Sound->>= :
      (o : Outcome) (f : Client → Outcome)
      → Sound F o
      → ((c : Client) → IsSound c.core → Sound F (f c))
      → Sound F (o >>= f)
  Sound->>= (done c) f h g = g c h
  Sound->>= (failed c) f h g = h
  Sound->>= exited f h g = tt
  Sound->>= fault f h g = h

  pub Sound-regardless :
      (o : Outcome) (f : Client → Outcome)
      → Sound F o
      → ((c : Client) → IsSound c.core → Sound F (f c))
      → Sound F (regardless o f)
  Sound-regardless (done c) f h g = g c h
  Sound-regardless (failed c) f h g = g c h
  Sound-regardless exited f h g = tt
  Sound-regardless fault f h g = h

  pub check-Sound : (b : Bool) (c : Client) → IsSound c.core → Sound F (check b c)
  check-Sound true c s = s
  check-Sound false c s = s

-- the variables that the invariant does not read
pub others-IsSound :
    (k : Core) (child : Bool) (miss count : ℕ) (child_addr father my ping : SockaddrIn)
    (sp peers transfer : Bool)
    → IsSound k
    → IsSound (record k {
      have_child = child;
      child_miss_pong = miss;
      curr_child_p_count = count;
      child_addr = child_addr;
      father_addr = father;
      myaddr = my;
      addr_to_ping = ping;
      sp_checker = sp;
      peer_list_checker = peers;
      transfer_initialized = transfer;
    })
others-IsSound k child miss count child_addr father my ping sp peers transfer v = record {
  joining = v.joining;
  superpeer = v.superpeer;
  promoter = v.promoter;
  errors = v.errors;
  tries = v.tries;
}

-- another state than that of a client that joins
pub set_state-IsSound :
    (s : State) (k : Core)
    → s ≢ joinsp_sent
    → (s ≡ promote_sent → k.is_sp ≡ true)
    → (k.is_sp ≡ true → serves s ≡ true)
    → IsSound k
    → IsSound (record k { state = s })
set_state-IsSound s k away promoter superpeer v = record {
  joining = λ h. absurd (away h);
  superpeer = superpeer;
  promoter = promoter;
  errors = v.errors;
  tries = v.tries;
}

pub active-IsSound : (k : Core) → IsSound k → IsSound (record k { state = active })
active-IsSound k v = set_state-IsSound active k (λ h. cc) (λ h. absurd (cc)) (λ h. refl) v

-- a test, a pointer and an access, case by case
pub if-case :
    (Q : Outcome → Type 0) (b : Bool) (o p : Outcome)
    → (b ≡ true → Q o)
    → (b ≡ false → Q p)
    → Q (if b then o else p)
if-case Q true o p f g = f refl
if-case Q false o p f g = g refl

pub deref-case :
    (Q : Outcome → Type 0) (b : Bool) (o : Outcome)
    → (b ≡ true → Q o)
    → (b ≡ false → Q fault)
    → Q (deref b o)
deref-case Q true o f g = f refl
deref-case Q false o f g = g refl

-- the outcome, where a client that goes on has `P`
abbrev pub Ensures : (Core → Type 0) → Type 0 → Outcome → Type 0
Ensures P F (done c) = P c.core
Ensures P F (failed c) = IsSound c.core
Ensures P F exited = Unit
Ensures P F fault = F

pub Ensures->>= :
    (P : Core → Type 0) (F : Type 0) (o : Outcome) (f : Client → Outcome)
    → Ensures P F o
    → ((c : Client) → P c.core → Sound F (f c))
    → Sound F (o >>= f)
Ensures->>= P F (done c) f h g = g c h
Ensures->>= P F (failed c) f h g = h
Ensures->>= P F exited f h g = tt
Ensures->>= P F fault f h g = h
