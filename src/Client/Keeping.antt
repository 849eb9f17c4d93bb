-- ===== src/Client/Keeping.antt =====
-- Sending a packet leaves the variables of the client's state machine alone and never leaves an array.
use karmanet.Common.{
  ℕ, ◌≤◌, ◌≡◌, refl, ◌∙◌, inl, inr, Bool, true, false, Option, none, some, List, ◌++◌, arith, ltb,
  Bool-cases, length, take, drop, set, length-append, length-set, length-take, length-drop,
}
use karmanet.Common.Memory.{memcpy-some, store_byte-some}
use karmanet.Wire.{SockaddrIn, ltob, stob, addr2str, le_bytes}
use karmanet.Packet.{
  Packet, max_packet_data_len, get_index, new_packet, new_join_packet, new_join_packet_sp,
  new_register_packet, new_ack_packet, new_err_packet, new_pong_packet, new_leave_packet,
  new_redirect_packet, pckcpy, set_flag, cmd_register, cmd_pong,
}
use karmanet.Retx.{PacketState, retx_send, insert_packet, new_packet_node}
use karmanet.Client.Messages.{new_pong_count}
use karmanet.Client.Joining.{new_join_superpeer}
use karmanet.Client.{
  Core, Client, Env, Outcome, mutex_send, send_retx, reply, request, new_abort_packet,
  new_register_free, done, failed, exited, fault,
}

-- the arrays of the packet in a variable and of one from `malloc`
pub record IsEnv (e : Env) : Type 0 where
  pub scratch_size : length e.scratch.payload ≡ max_packet_data_len
  pub raw_size : length e.raw.payload ≡ max_packet_data_len

-- the outcome is the result 0 or -1, with these variables
abbrev pub Keeps : Core → Outcome → Type 0
Keeps k (done c) = c.core ≡ k
Keeps k (failed c) = c.core ≡ k
Keeps k exited = ⊥
Keeps k fault = ⊥

-- a packet that is made in `p` and stays in its array
pub record Made (p : Packet) (o : Option Packet) : Type 0 where
  pub packet : Packet
  pub made : o ≡ some packet
  pub fits : packet.data_len ≤ max_packet_data_len
  pub size : length packet.payload ≡ max_packet_data_len

pub mutex_send-Keeps :
    (e : Env) (addr : SockaddrIn) (pck : Packet) (c : Client)
    → Keeps c.core (mutex_send e addr pck c)
unfolding mutex_send
mutex_send-Keeps e addr pck c = elim (Bool-cases (e.delivers addr)) [
  | inl h ↦ rw h refl
  | inr h ↦ rw h refl
]

pub pckcpy-ne-none :
    (raw pck : Packet)
    → length raw.payload ≡ max_packet_data_len
    → pck.data_len ≤ max_packet_data_len
    → length pck.payload ≡ max_packet_data_len
    → (q : Packet) × (pckcpy raw pck ≡ some q)
unfolding pckcpy
pckcpy-ne-none raw pck h k l = elim (Bool-cases (ltb 0 pck.data_len)) [
  | inl f ↦ (
    copied (take pck.data_len pck.payload ++ drop pck.data_len raw.payload),
    rw (f, memcpy-some pck.data_len pck.payload raw.payload (omega arith) (omega arith)) refl,
  )
  | inr f ↦ (copied raw.payload, rw f refl)
]
  where
    copied : List ℕ → Packet
    copied bytes = record raw {
      cmd = pck.cmd;
      index = pck.index;
      flag = pck.flag;
      ttl = pck.ttl;
      data_len = pck.data_len;
      payload = bytes;
    }

pub retx_send-some :
    (raw pck : Packet) (ok : Bool) (sock : ℕ) (addr : SockaddrIn) (packets : PacketState)
    → length raw.payload ≡ max_packet_data_len
    → pck.data_len ≤ max_packet_data_len
    → length pck.payload ≡ max_packet_data_len
    → (r : Option PacketState) × (retx_send ok raw sock addr pck packets ≡ some r)
unfolding retx_send insert_packet new_packet_node
retx_send-some raw pck true sock addr packets h k l =
    let (q, made) = pckcpy-ne-none raw pck h k l in rw made (_, refl)
retx_send-some raw pck false sock addr packets h k l = (none, refl)

pub send_retx-Keeps :
    (e : Env) (addr : SockaddrIn) (pck : Packet) (c : Client)
    → IsEnv e
    → pck.data_len ≤ max_packet_data_len
    → length pck.payload ≡ max_packet_data_len
    → Keeps c.core (send_retx e addr pck c)
unfolding send_retx retx_send insert_packet new_packet_node
send_retx-Keeps e addr pck c v h k = elim (Bool-cases (e.delivers addr)) [
  | inr f ↦ rw f refl
  | inl f ↦ let (q, made) = pckcpy-ne-none e.raw pck v.raw_size h k in rw (f, made) refl
]

pub reply-Keeps :
    (e : Env) (addr : SockaddrIn) (new : Packet → ℕ → Option Packet) (index : ℕ) (c : Client)
    → Made e.scratch (new e.scratch index)
    → Keeps c.core (reply e addr new index c)
unfolding reply
reply-Keeps e addr new index c m = rw m.made (mutex_send-Keeps e addr m.packet c)

pub request-Keeps :
    (e : Env) (addr : SockaddrIn) (new : Packet → ℕ → Option Packet) (c : Client)
    → IsEnv e
    → ((index : ℕ) → Made e.scratch (new e.scratch index))
    → Keeps c.core (request e addr new c)
unfolding request
request-Keeps e addr new c v m =
    let p = m (get_index c.start_index).0 in
    rw p.made (
      send_retx-Keeps e addr p.packet (record c { start_index = (get_index c.start_index).1 }) v
        p.fits p.size)

-- the packets that the handlers make
module _ (p : Packet) (h : length p.payload ≡ max_packet_data_len) (index : ℕ) where
  pub Made-empty : (cmd : List ℕ) → Made p (new_packet p cmd index none 0 1)
  unfolding new_packet
  Made-empty cmd = record { packet = _; made = refl; fits = omega arith; size = h }

  pub Made-ack : Made p (new_ack_packet p index)
  unfolding new_ack_packet
  Made-ack = Made-empty _

  pub Made-err : Made p (new_err_packet p index)
  unfolding new_err_packet
  Made-err = Made-empty _

  pub Made-pong : Made p (new_pong_packet p index)
  unfolding new_pong_packet
  Made-pong = Made-empty _

  pub Made-leave : Made p (new_leave_packet p index)
  unfolding new_leave_packet
  Made-leave = Made-empty _

  pub Made-join : Made p (new_join_packet p index)
  unfolding new_join_packet
  Made-join = Made-empty _

  pub Made-register : Made p (new_register_packet p index)
  unfolding new_register_packet
  Made-register = Made-empty _

  length-copied :
      (bytes : List ℕ) (n : ℕ)
      → n ≤ length bytes
      → n ≤ length p.payload
      → length (take n bytes ++ drop n p.payload) ≡ max_packet_data_len
  length-copied bytes n k l =
      length-append (take n bytes) (drop n p.payload)
      ∙ omega (arith, length-take n bytes k, length-drop n p.payload)

  Made-six :
      (cmd bytes : List ℕ) → length bytes ≡ 6 → Made p (new_packet p cmd index (some bytes) 6 1)
  unfolding new_packet
  Made-six cmd bytes k = record {
    packet = record {
      cmd = cmd;
      flag = 0;
      index = index;
      ttl = 1;
      data_len = 6;
      payload = take 6 bytes ++ drop 6 p.payload;
    };
    made = rw (memcpy-some 6 bytes p.payload (omega arith) (omega arith)) refl;
    fits = omega arith;
    size = length-copied bytes 6 (omega arith) (omega arith);
  }

  pub Made-join_sp : (rate port : ℕ) → Made p (new_join_packet_sp p index rate port)
  unfolding new_join_packet_sp ltob stob le_bytes
  Made-join_sp rate port = Made-six _ _ refl

  pub Made-redirect : (child : SockaddrIn) → Made p (new_redirect_packet p index child)
  unfolding new_redirect_packet addr2str ltob stob le_bytes
  Made-redirect child = Made-six _ _ refl

  pub Made-abort : (e : Env) → Made p (new_abort_packet e p index)
  unfolding new_abort_packet
  Made-abort e = Made-empty _

  pub Made-register_free : (e : Env) (free : ℕ) → Made p (new_register_free e free p index)
  unfolding new_register_free new_register_packet new_packet
  Made-register_free e free = record {
    packet = record {
      cmd = cmd_register;
      flag = 0;
      index = index;
      ttl = 1;
      data_len = 1;
      payload = set p.payload 0 free;
    };
    made = rw (store_byte-some p.payload 0 free (omega arith)) refl;
    fits = omega arith;
    size = length-set p.payload 0 free ∙ h;
  }

  pub Made-pong_count : (count : ℕ) → Made p (new_pong_count count p index)
  unfolding new_pong_count new_pong_packet new_packet ltob le_bytes
  Made-pong_count count = record {
    packet = record {
      cmd = cmd_pong;
      flag = 0;
      index = index;
      ttl = 1;
      data_len = 4;
      payload = take 4 (ltob count) ++ drop 4 p.payload;
    };
    made = rw (memcpy-some 4 (ltob count) p.payload (omega arith) (omega arith)) refl;
    fits = omega arith;
    size = length-copied (ltob count) 4 (omega arith) (omega arith);
  }

  pub Made-join_superpeer : (e : Env) → Made p (new_join_superpeer e p index)
  unfolding new_join_superpeer new_join_packet new_packet set_flag
  Made-join_superpeer e = record { packet = _; made = refl; fits = omega arith; size = h }
