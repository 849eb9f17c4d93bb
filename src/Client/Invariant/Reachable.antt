-- ===== src/Client/Invariant/Reachable.antt =====
-- The invariant of the client's state machine holds wherever the main loop comes to.
use karmanet.Common.{ℕ, refl, sym, inl, inr, arith}
use mathlib.Core.Path.{subst}
use karmanet.Wire.{SockaddrIn}
use karmanet.Packet.{Packet, new_leave_packet}
use karmanet.Client.{
  State, Client, Env, Outcome, request, promote_sent, leave_sent, done, failed, exited, fault,
}
use karmanet.Client.Loop.{
  initial, or_exit, Event, message, error, reset, leave, expire, elsewhere, expired, start,
  leave_network, turn, IsLeft, IsFair, Reaches, started, turned,
}
use karmanet.Client.Keeping.{IsEnv, request-Keeps, Made-leave}
use karmanet.Client.Invariant.{
  IsSound, Sound, KeepsOrFaults, Keeps->>=, set_state-IsSound, active-IsSound,
}
use karmanet.Client.Invariant.Refusals.{back_to_bs-Sound, error_handler-Sound, reset_handler-Sound}
use karmanet.Client.Invariant.Dispatch.{udp_handler-IsSound}

left-IsSound : (F : Type 0) (c : Client) (o : Outcome) → Sound F o → IsLeft c o → IsSound c.core
left-IsSound F c o s (inl h) = subst (Sound F) h s
left-IsSound F c o s (inr h) = subst (Sound F) h s

or_exit-Sound : (F : Type 0) (o : Outcome) → Sound F o → Sound F (or_exit o)
or_exit-Sound F (done c) s = s
or_exit-Sound F (failed c) s = tt
or_exit-Sound F exited s = tt
or_exit-Sound F fault s = s

expired-IsSound : (s : State) (c : Client) → IsSound c.core → IsSound (expired s c).core
expired-IsSound promote_sent c v = active-IsSound c.core v
expired-IsSound _ c v = v

pub initial-IsSound : (index : ℕ) → IsSound (initial index).core
initial-IsSound index = record {
  joining = λ h. absurd (cc);
  superpeer = λ h. absurd (cc);
  promoter = λ h. absurd (cc);
  errors = omega arith;
  tries = omega arith;
}

module _ (e : Env) (files : SockaddrIn → Packet → Client → Outcome) (w : IsEnv e)
    (keeps : (a : SockaddrIn) (p : Packet) (d : Client) → KeepsOrFaults d.core (files a p d)) where
  leave_network-Sound : (c : Client) → IsSound c.core → Sound Unit (leave_network e files c)
  unfolding leave_network
  leave_network-Sound c v =
      Keeps->>= Unit (request e c.core.addr_to_ping new_leave_packet c) _ c.core
        (request-Keeps e c.core.addr_to_ping new_leave_packet c w
          (Made-leave e.scratch w.scratch_size))
        v
        (λ c1 same.
          set_state-IsSound leave_sent c1.core (λ f. cc) (λ f. absurd (cc)) (λ f. refl)
            (subst IsSound (sym same) v))

  turn-IsSound :
      (event : Event) (c d : Client)
      → IsFair event c.core
      → IsSound c.core
      → IsLeft d (turn e files event c)
      → IsSound d.core
  unfolding turn
  turn-IsSound (message addr pck) c d fair v =
      left-IsSound _ d _ (udp_handler-IsSound e files addr pck c w keeps fair v)
  turn-IsSound (error errstr) c d fair v =
      left-IsSound Unit d _
        (or_exit-Sound Unit _ (error_handler-Sound e w Unit errstr c fair (λ _. tt) (λ _. tt) v))
  turn-IsSound reset c d fair v =
      left-IsSound Unit d _ (or_exit-Sound Unit _ (reset_handler-Sound e w Unit c fair (λ _. tt) v))
  turn-IsSound leave c d fair v = left-IsSound Unit d _ (leave_network-Sound c v)
  turn-IsSound expire c d fair v =
      left-IsSound Unit d (done (expired c.core.state c)) (expired-IsSound c.core.state c v)
  turn-IsSound (elsewhere peers packets) c d fair v =
      left-IsSound Unit d (done (record c { peers = peers; packets = packets })) v

  pub Reaches-IsSound : (c : Client) → Reaches e files c → IsSound c.core
  unfolding start
  Reaches-IsSound c (started index _ left) =
      left-IsSound Unit c _
        (or_exit-Sound Unit _
          (back_to_bs-Sound e w Unit (initial index) refl (initial-IsSound index)))
        left
  Reaches-IsSound c (turned event b _ before fair left) =
      turn-IsSound event b c fair (Reaches-IsSound b before) left
