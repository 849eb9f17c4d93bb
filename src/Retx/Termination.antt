-- ===== src/Retx/Termination.antt =====
-- Passes over the whole list, and how long a packet stays.
use karmanet.Common.{
  ℕ, suc, ◌≤◌, ◌≡◌, refl, sym, ap, ◌⊎◌, inl, inr, Bool, true, false, Option, none, some, List, [],
  ◌∷◌, arith, ltb, Bool-cases, length,
}
use mathlib.Core.Path.{subst}
use karmanet.Common.Memory.{memcpy-some}
use karmanet.Packet.{Packet, pckcpy}
use karmanet.Wire.{SockaddrIn}
use karmanet.Retx.{
  PacketNode, PacketState, retx_node, retx_pass, retx_send, insert_packet, new_packet_node,
}
use karmanet.Retx.Rounds.{
  IsShort, AllLive, AllStopped, left_of, left, rounds, retx_node-left, rounds-left, IsLive,
}

-- passes one after the other, each with the outcomes of its sends
abbrev pub passes : List (ℕ → Bool) → List PacketNode → List PacketNode
passes [] ns = ns
passes (f ∷ fs) ns = passes fs (retx_pass f ns)

-- the outcomes for the packet at the head, and those for the others
abbrev pub outcomes : List (ℕ → Bool) → List Bool
outcomes [] = []
outcomes (f ∷ fs) = f 0 ∷ outcomes fs

abbrev pub later : List (ℕ → Bool) → List (ℕ → Bool)
later [] = []
later (f ∷ fs) = (λ i. f (suc i)) ∷ later fs

length-outcomes : (fs : List (ℕ → Bool)) → length (outcomes fs) ≡ length fs
length-outcomes [] = refl
length-outcomes (f ∷ fs) = ap suc (length-outcomes fs)

length-later : (fs : List (ℕ → Bool)) → length (later fs) ≡ length fs
length-later [] = refl
length-later (f ∷ fs) = ap suc (length-later fs)

passes-nil : (fs : List (ℕ → Bool)) → passes fs [] ≡ []
unfolding retx_pass
passes-nil [] = refl
passes-nil (f ∷ fs) = passes-nil fs

passes-cons :
    (fs : List (ℕ → Bool)) (n : PacketNode) (ns : List PacketNode)
    → passes fs (n ∷ ns) ≡ rounds (outcomes fs) n ∷ passes (later fs) ns
unfolding retx_pass
passes-cons [] n ns = refl
passes-cons (f ∷ fs) n ns = passes-cons fs (retx_node (f 0) n).0 (retx_pass (λ i. f (suc i)) ns)

left-IsLive : (n : PacketNode) → IsLive n → left n ≤ 91
left-IsLive n v = bound n.countdown v.countdown
  where
    bound : (c : Option ℕ) → IsShort c → left_of n.nretx n.errors c ≤ 91
    bound none h = omega arith
    bound (some k) h = omega arith

-- After 91 passes no packet is waiting any more: each was given up, whichever of the sends in
-- between failed.
pub AllStopped-passes :
    (fs : List (ℕ → Bool)) (ns : List PacketNode)
    → AllLive ns
    → 91 ≤ length fs
    → AllStopped (passes fs ns)
AllStopped-passes fs [] v h = subst AllStopped (sym (passes-nil fs)) tt
AllStopped-passes fs (n ∷ ns) v h =
    let size = length-outcomes fs in
    let more = length-later fs in
    subst AllStopped (sym (passes-cons fs n ns)) (
      rounds-left (outcomes fs) n v.0 (omega (arith, size, left-IsLive n v.0)),
      AllStopped-passes (later fs) ns v.1 (omega (arith, more)),
    )

-- A pass keeps the counters of every packet within the limit.
pub AllLive-retx_pass :
    (f : ℕ → Bool) (ns : List PacketNode) → AllLive ns → AllLive (retx_pass f ns)
unfolding retx_pass
AllLive-retx_pass f [] v = tt
AllLive-retx_pass f (n ∷ ns) v =
    ((retx_node-left (f 0) n v.0).0, AllLive-retx_pass (λ i. f (suc i)) ns v.1)

-- A packet that is sent is kept for retransmission with counters within the limit, if its payload
-- fits the array; if it is not sent, the result is -1 and the list does not change.
pub AllLive-retx_send :
    (sent : Bool) (raw : Packet) (socksd : ℕ) (addr : SockaddrIn) (pck : Packet) (s : PacketState)
    → AllLive s.packet_list_head
    → pck.data_len ≤ length pck.payload
    → pck.data_len ≤ length raw.payload
    → (sent ≡ false) × (retx_send sent raw socksd addr pck s ≡ some none)
      ⊎ ((t : PacketState) × (retx_send sent raw socksd addr pck s ≡ some (some t))
          × AllLive t.packet_list_head
          × (length t.packet_list_head ≡ suc (length s.packet_list_head)))
unfolding retx_send insert_packet new_packet_node pckcpy
AllLive-retx_send false raw socksd addr pck s v hs hd = inl (refl, refl)
AllLive-retx_send true raw socksd addr pck s v hs hd = elim (Bool-cases (ltb 0 pck.data_len)) [
  | inl full ↦
      let copied = memcpy-some pck.data_len pck.payload raw.payload hs hd in
      rw (full, copied)
        (inr (
          _,
          refl,
          (record { nretx = omega arith; errors = omega arith; countdown = omega arith }, v),
          refl,
        ))
  | inr empty ↦ rw empty (
      inr (
        _,
        refl,
        (record { nretx = omega arith; errors = omega arith; countdown = omega arith }, v),
        refl,
      ))
]
