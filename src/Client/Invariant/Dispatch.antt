-- ===== src/Client/Invariant/Dispatch.antt =====
-- Which messages and reports keep the invariant, and why a handler may fault: `udp_handler`,
-- `pipe_handler`, and the main loop that calls them.
use karmanet.Common.{◌≡◌, ◌⊎◌, inl, inr, true, false}
use karmanet.Wire.{SockaddrIn, addrcmp}
use karmanet.Packet.{
  Packet, cmd_join, cmd_register, cmd_leave, cmd_list, cmd_redirect, cmd_promote, cmd_whohas,
  cmd_ack, cmd_err, cmd_ping, cmd_pong,
}
use karmanet.Client.{
  Core, Client, Env, Outcome, is_cmd, register_sent, active, open_more_conn, fault,
}
use karmanet.Client.Commands.{cmd_abort, cmd_update_file_list, udp_handler}
use karmanet.Client.Keeping.{IsEnv}
use karmanet.Client.Invariant.{
  IsSound, Sound, lacks_checker, KeepsOrFaults, KeepsOrFaults-Sound, Sound-regardless, if-case,
}
use karmanet.Client.Invariant.Handlers.{
  Strays, ping_handler-Sound, pong_handler-Sound, register_handler-Sound, leave_handler-Sound,
  abort_handler-Sound, join_handler-Sound, redirect_handler-Sound, reply_err-Sound,
}
use karmanet.Client.Invariant.Refusals.{IsThrough, err_handler-Sound}
use karmanet.Client.Invariant.Answers.{ack_handler-Sound, promote_handler-Sound}
use karmanet.Client.Invariant.Lists.{IsEmpty, list_handler-Sound}

-- Why the handler of a message faults, by the command of the message: `ping` to `refused` are the
-- reads through the pointer to a checker that was not started, each with the kind of client, the
-- state or the sender for which the handler reads it; `through` is a refusal after each address of
-- the list was tried; `empty` and `more` are a list with no address and a list that was asked for
-- to open more connections; `stray` and `own` are calls of `remove_all_file` and `add_sp_file` that
-- leave their memory, and `by_files` is a fault of the handlers of files.
pub data Excuse (e : Env) (files : SockaddrIn → Packet → Client → Outcome) (addr : SockaddrIn)
    (pck : Packet) (c : Client) : Type 0 where
  ping :
      is_cmd pck.cmd cmd_ping ≡ true
      → c.core.is_sp ≡ true
      → lacks_checker c.core ≡ true
      → Excuse e files addr pck c
  join :
      is_cmd pck.cmd cmd_join ≡ true
      → c.core.is_sp ≡ true
      → lacks_checker c.core ≡ true
      → Excuse e files addr pck c
  pong :
      is_cmd pck.cmd cmd_pong ≡ true
      → c.core.is_sp ≡ false
      → lacks_checker c.core ≡ true
      → Excuse e files addr pck c
  leave :
      is_cmd pck.cmd cmd_leave ≡ true
      → c.core.is_sp ≡ false
      → addrcmp c.core.addr_to_ping addr ≡ true
      → lacks_checker c.core ≡ true
      → Excuse e files addr pck c
  register :
      is_cmd pck.cmd cmd_ack ≡ true
      → c.core.state ≡ register_sent
      → lacks_checker c.core ≡ true
      → Excuse e files addr pck c
  refused :
      is_cmd pck.cmd cmd_err ≡ true
      → addrcmp addr c.core.addr_to_ping ≡ true
      → c.core.state ≡ active
      → lacks_checker c.core ≡ true
      → Excuse e files addr pck c
  through : is_cmd pck.cmd cmd_err ≡ true → IsThrough c.core → Excuse e files addr pck c
  empty : is_cmd pck.cmd cmd_list ≡ true → IsEmpty pck c.core → Excuse e files addr pck c
  more : is_cmd pck.cmd cmd_list ≡ true → c.core.state ≡ open_more_conn → Excuse e files addr pck c
  stray :
      (is_cmd pck.cmd cmd_register ≡ true) ⊎ (is_cmd pck.cmd cmd_leave ≡ true)
      → Strays e addr
      → Excuse e files addr pck c
  own :
      (is_cmd pck.cmd cmd_ack ≡ true) ⊎ (is_cmd pck.cmd cmd_promote ≡ true)
      → e.own_fits ≡ false
      → Excuse e files addr pck c
  by_files :
      (is_cmd pck.cmd cmd_whohas ≡ true) ⊎ (is_cmd pck.cmd cmd_update_file_list ≡ true)
      → files addr pck c ≡ fault
      → Excuse e files addr pck c

-- the bootstrap server, which a superpeer pings, does not refuse a superpeer's request
abbrev pub IsOrderly : SockaddrIn → Packet → Core → Type 0
IsOrderly addr pck k =
    is_cmd pck.cmd cmd_err ≡ true → addrcmp addr k.addr_to_ping ≡ true → k.is_sp ≡ false

-- From a sound client, a message that `udp_handler` receives leaves a sound client, whether the
-- handler returns 0 or -1: one that joins a superpeer has its list, a superpeer is in a state of a
-- superpeer, and the counters keep their bounds. The handler leaves no array and follows no NULL
-- pointer except for a reason of `Excuse`, which names the command, the state and the sender. The
-- conditions are `IsOrderly`, and that the handlers of files, which may fault, change no variable of
-- the state machine; `remove_all_file` and `add_sp_file` may fault too.
pub udp_handler-IsSound :
    (e : Env) (files : SockaddrIn → Packet → Client → Outcome) (addr : SockaddrIn) (pck : Packet)
    (c : Client)
    → IsEnv e
    → ((a : SockaddrIn) (p : Packet) (d : Client) → KeepsOrFaults d.core (files a p d))
    → IsOrderly addr pck c.core
    → IsSound c.core
    → Sound (Excuse e files addr pck c) (udp_handler e files addr pck c)
unfolding udp_handler
udp_handler-IsSound e files addr pck c w keeps orderly v =
    if-case Q (is_cmd pck.cmd cmd_ack) _ _
      (λ f. ack_handler-Sound e w F addr pck c (register f) (own (inl f)) v)
      λ _.
        if-case Q (is_cmd pck.cmd cmd_join) _ _
          (λ f. join_handler-Sound e w F addr pck c (join f) v)
          λ _.
            if-case Q (is_cmd pck.cmd cmd_err) _ _
              (λ f. err_handler-Sound e w F addr pck c (orderly f) (refused f) (through f) v)
              λ _.
                if-case Q (is_cmd pck.cmd cmd_ping) _ _
                  (λ f.
                    Sound-regardless F _ _ (ping_handler-Sound e w F addr pck c (ping f) v)
                      (λ d u. u))
                  λ _.
                    if-case Q (is_cmd pck.cmd cmd_leave) _ _
                      (λ f. leave_handler-Sound e w F addr pck c (leave f) (stray (inr f)) v)
                      λ _.
                        if-case Q (is_cmd pck.cmd cmd_whohas) _ _
                          (λ f.
                            KeepsOrFaults-Sound F _ c.core (keeps addr pck c) (by_files (inl f)) v)
                          λ _.
                            if-case Q (is_cmd pck.cmd cmd_pong) _ _
                              (λ f. pong_handler-Sound e w F addr pck c (pong f) v)
                              λ _.
                                if-case Q (is_cmd pck.cmd cmd_promote) _ _
                                  (λ f. promote_handler-Sound e w F addr pck c (own (inr f)) v)
                                  λ _.
                                    if-case Q (is_cmd pck.cmd cmd_list) _ _
                                      (λ f. list_handler-Sound e w F pck c (empty f) (more f) v)
                                      λ _.
                                        if-case Q (is_cmd pck.cmd cmd_abort) _ _
                                          (λ _. abort_handler-Sound e w F addr pck c v)
                                          λ _.
                                            if-case Q (is_cmd pck.cmd cmd_redirect) _ _
                                              (λ _. redirect_handler-Sound e w F pck c v)
                                              λ _.
                                                if-case Q (is_cmd pck.cmd cmd_update_file_list) _ _
                                                  (λ f.
                                                    KeepsOrFaults-Sound F _ c.core
                                                      (keeps addr pck c) (by_files (inr f)) v)
                                                  λ _.
                                                    if-case Q (is_cmd pck.cmd cmd_register) _ _
                                                      (λ f.
                                                        register_handler-Sound e w F addr pck c
                                                          (stray (inl f)) v)
                                                      λ _. reply_err-Sound e w F addr pck.index c v
  where
    F : Type 0
    F = Excuse e files addr pck c

    Q : Outcome → Type 0
    Q o = Sound (Excuse e files addr pck c) o
