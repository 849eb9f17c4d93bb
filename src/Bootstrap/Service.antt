-- ===== src/Bootstrap/Service.antt =====
-- The service as a whole: its handlers, its steps and its states.
use karmanet.Common.{
  ◌*◌, ◌≡◌, refl, sym, ap, ◌∙◌, ◌≢◌, ◌⊎◌, inl, inr, Bool, true, false, Option, none, some, ◌==◌,
  Bool-cases, length,
}
use mathlib.Core.Path.{subst}
use karmanet.DList.{Ptr, null}
use karmanet.Wire.{SockaddrIn, same_bytes}
use karmanet.Packet.{
  Packet, byte_at, cmd_ping, cmd_join, cmd_leave, cmd_register, max_packet_data_len,
}
use karmanet.SpList.{SpState, head, insert_sp, remove_sp, update_sp_flag, check}
use karmanet.SpList.Cells.{has}
use karmanet.SpList.Invariant.{insert_sp-IsValid, remove_sp-IsValid, update_sp_flag-IsValid}
use karmanet.SpList.Iterator.{IsValid, Points, empty}
use karmanet.SpList.Expiry.{check-survivors}
use karmanet.Bootstrap.{
  addr_tosend, Outcome, failed, sp_register, sp_leave, is_only_sp, sp_join, handle,
}
use karmanet.Bootstrap.Replies.{Answers, send_promote-some, send_ack-some, send_addr_list-some}

module _ (delivered : Bool) (scratch : Packet) (addr : SockaddrIn) (pck : Packet)
    (room : length scratch.payload ≡ max_packet_data_len) where
  module _ (fresh : Ptr) (s : SpState) (v : IsValid s) (nf : fresh ≢ null)
      (unused : has fresh s.sp_list ≡ false) where
    sp_join-some : Answers (sp_join delivered scratch addr pck fresh s)
    unfolding sp_join
    sp_join-some = elim (Bool-cases (head s.sp_list == null)) [
      | inl none_left ↦ rw none_left (
        _,
        send_promote-some delivered scratch addr pck room
            (insert_sp fresh addr (addr_tosend * 2) s),
        (insert_sp-IsValid fresh addr (addr_tosend * 2) s v nf unused).0,
      )
      | inr some_left ↦ rw some_left (elim (Bool-cases (is_only_sp delivered scratch addr pck s)) [
        | inl only ↦ rw only (_, send_promote-some delivered scratch addr pck room s, v)
        | inr others ↦
            rw others (
              send_addr_list-some delivered scratch addr pck room s v (points v.iterator some_left))
      ])
    ]
      where
        points :
            Points s.it_addr s.sp_list
            → (head s.sp_list == null) ≡ false
            → has s.it_addr s.sp_list ≡ true
        points (inl none_left) h =
            let gone : (head s.sp_list == null) ≡ true = rw none_left.0 in cc (sym gone ∙ h)
        points (inr inside) h = inside

    ping :
        update_sp_flag addr (byte_at pck.payload) s ≡ none
          ⊎ ((t : SpState) × (update_sp_flag addr (byte_at pck.payload) s ≡ some t) × IsValid t)
        → Answers (
            some (elim (update_sp_flag addr (byte_at pck.payload) s) [
              | none ↦ failed s
              | some t ↦ record { state = t; reply = none; ok = true }
            ]))
    ping (inl unknown) = rw unknown (failed s, refl, v)
    ping (inr (t, known, vt)) = rw known (_, refl, vt)

    -- From a valid list, every packet that was received and decoded is answered or dropped without
    -- undefined behaviour, and the list is valid afterwards, whatever the packet holds, when no other
    -- thread changes the list while the handler runs: the allocator returns an unused node, the reply
    -- is built in a packet with an array of 1024 bytes, and the addresses fit their array.
    pub handle-some : Answers (handle delivered scratch addr pck fresh s)
    unfolding handle sp_leave sp_register
    handle-some = elim (Bool-cases (same_bytes 3 pck.cmd cmd_ping)) [
      | inl hit ↦ rw hit (
          ping (elim (update_sp_flag-IsValid addr (byte_at pck.payload) s v) [
            | inl unknown ↦ inl unknown.1
            | inr known ↦ let (t, e, vt, same) = known.1 in inr (t, e, vt)
          ]))
      | inr no₁ ↦ rw no₁ (elim (Bool-cases (same_bytes 3 pck.cmd cmd_join)) [
        | inl hit ↦ rw hit sp_join-some
        | inr no₂ ↦ rw no₂ (elim (Bool-cases (same_bytes 3 pck.cmd cmd_leave)) [
          | inl hit ↦ rw hit (
              send_ack-some delivered scratch addr pck room (remove_sp addr s)
                (remove_sp-IsValid addr s v).0)
          | inr no₃ ↦ rw no₃ (elim (Bool-cases (same_bytes 3 pck.cmd cmd_register)) [
            | inr no₄ ↦ rw no₄ (_, refl, v)
            | inl hit ↦ rw hit (elim (Bool-cases (pck.data_len == 1)) [
              | inr malformed ↦ rw malformed (failed s, refl, v)
              | inl well_formed ↦ rw well_formed (
                  send_ack-some delivered scratch addr pck room
                    (insert_sp fresh addr (byte_at pck.payload) s)
                    (insert_sp-IsValid fresh addr (byte_at pck.payload) s v nf unused).0)
            ])
          ])
        ])
      ])
    ]

-- what the bootstrap does: it handles a datagram, or the checker passes over the list
pub data Step : SpState → SpState → Type 0 where
  datagram :
      (delivered : Bool) (scratch : Packet) (addr : SockaddrIn) (pck : Packet) (fresh : Ptr)
      (s : SpState) (o : Outcome)
      → length scratch.payload ≡ max_packet_data_len
      → fresh ≢ null
      → has fresh s.sp_list ≡ false
      → handle delivered scratch addr pck fresh s ≡ some o
      → Step s o.state
  passed : (s : SpState) → Step s (check s)

-- the states of the bootstrap since its start
pub data Reachable : SpState → Type 0 where
  started : Reachable empty
  moved : (s t : SpState) → Reachable s → Step s t → Reachable t

abbrev state_of : Outcome → Option Outcome → SpState
state_of d none = d.state
state_of d (some o) = o.state

Step-IsValid : (s t : SpState) → Step s t → IsValid s → IsValid t
Step-IsValid s t (datagram delivered scratch addr pck fresh _ o room nf unused e) v =
    let (r, run, w) = handle-some delivered scratch addr pck room fresh s v nf unused in
    subst IsValid (ap (state_of o) (sym run ∙ e)) w
Step-IsValid s t (passed _) v = (check-survivors s v).0

-- In every state that packets and checks lead to from the start, the nodes and the addresses of
-- the list are distinct, `sp_count` counts them and `it_addr` points to one of them, or the list
-- is empty.
pub Reachable-IsValid : (s : SpState) → Reachable s → IsValid s
Reachable-IsValid _ started = record { distinct = tt; count = refl; iterator = inl (refl, refl) }
Reachable-IsValid t (moved s _ r step) = Step-IsValid s t step (Reachable-IsValid s r)
