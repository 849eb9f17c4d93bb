-- ===== src/Retx/Rounds.antt =====
-- The rounds of one packet.
use karmanet.Common.{
  ℕ, zero, suc, ◌+◌, ◌-◌, ◌*◌, ◌≤◌, ◌<◌, ◌≡◌, refl, ap, ◌∙◌, ◌⊎◌, inl, inr, Bool, true, false, ◌||◌,
  Option, none, some, List, [], ◌∷◌, arith, ltb, ◌==◌, Bool-cases, or-eq-false, length,
}
use karmanet.Retx.{PacketNode, max_retx, wait, after_send, retx_node}

abbrev pub IsShort : Option ℕ → Type 0
IsShort none = Unit
IsShort (some k) = k ≤ max_retx

-- the counters of a node are within the limit
pub record IsLive (n : PacketNode) : Type 0 where
  pub nretx : n.nretx ≤ max_retx
  pub errors : n.errors ≤ max_retx
  pub countdown : IsShort n.countdown

abbrev pub AllLive : List PacketNode → Type 0
AllLive [] = Unit
AllLive (n ∷ ns) = IsLive n × AllLive ns

-- nothing happens to the packets any more
abbrev pub AllStopped : List PacketNode → Type 0
AllStopped [] = Unit
AllStopped (n ∷ ns) = (n.countdown ≡ none) × AllStopped ns

-- how many rounds the node has left at most
abbrev pub left_of : ℕ → ℕ → Option ℕ → ℕ
left_of nretx errors none = 0
left_of nretx errors (some k) = (12 - nretx - errors) * 7 + k + 1

abbrev pub left : PacketNode → ℕ
left n = left_of n.nretx n.errors n.countdown

-- the rounds of one node, with the outcomes of sending it
abbrev pub rounds : List Bool → PacketNode → PacketNode
rounds [] n = n
rounds (b ∷ bs) n = rounds bs (retx_node b n).0

abbrev pub with_countdown : PacketNode → Option ℕ → PacketNode
with_countdown n c = record n { countdown = c }

after_send-left :
    (b : Bool) (n : PacketNode)
    → n.nretx < 6
    → n.errors < 6
    → IsLive (after_send b n).0 × (left (after_send b n).0 < left_of n.nretx n.errors (some 0))
after_send-left true n hn he =
    (record { nretx = omega arith; errors = omega arith; countdown = omega arith }, omega arith)
after_send-left false n hn he =
    (record { nretx = omega arith; errors = omega arith; countdown = omega arith }, omega arith)

-- one round of a node that still counts takes from the rounds that are left
retx_node-left_of :
    (b : Bool) (n : PacketNode) (c : Option ℕ)
    → IsLive (with_countdown n c)
    → IsLive (retx_node b (with_countdown n c)).0
      × ((c ≡ none) ⊎ (left (retx_node b (with_countdown n c)).0 < left (with_countdown n c)))
unfolding retx_node
retx_node-left_of b n none v = (v, inl refl)
retx_node-left_of b n (some (suc k)) v =
    let positive : ltb 0 (suc k) ≡ true = ground arith in
    let le : suc k ≤ 6 = v.countdown in
    rw positive
      (record { nretx = v.nretx; errors = v.errors; countdown = omega arith }, inr (omega arith))
retx_node-left_of b n (some zero) v =
    let m = with_countdown n (some 0) in
    elim (Bool-cases ((n.nretx == max_retx) || (n.errors == max_retx))) [
      | inl stop ↦
          rw stop (record { nretx = v.nretx; errors = v.errors; countdown = tt }, inr (omega arith))
      | inr more ↦
          let parts = or-eq-false (n.nretx == max_retx) (n.errors == max_retx) more in
          let few : n.nretx < 6 = ground (arith, v.nretx, parts.0) in
          let few_errors : n.errors < 6 = ground (arith, v.errors, parts.1) in
          let r = after_send-left b m few few_errors in rw more (r.0, inr r.1)
    ]

pub retx_node-left :
    (b : Bool) (n : PacketNode)
    → IsLive n
    → IsLive (retx_node b n).0 × ((n.countdown ≡ none) ⊎ (left (retx_node b n).0 < left n))
retx_node-left b n v = retx_node-left_of b n n.countdown v

retx_node_stopped :
    (b : Bool) (n : PacketNode) (c : Option ℕ)
    → c ≡ none
    → retx_node b (with_countdown n c) ≡ (with_countdown n c, wait)
unfolding retx_node
retx_node_stopped b n none e = refl
retx_node_stopped b n (some k) e = cc

retx_node-none : (b : Bool) (n : PacketNode) → n.countdown ≡ none → retx_node b n ≡ (n, wait)
retx_node-none b n e = retx_node_stopped b n n.countdown e

rounds-none :
    (bs : List Bool) (n : PacketNode) → n.countdown ≡ none → (rounds bs n).countdown ≡ none
rounds-none [] n e = e
rounds-none (b ∷ bs) n e =
    let same : (retx_node b n).0 ≡ n = ap (λ r. r.0) (retx_node-none b n e) in
    ap (λ m. (rounds bs m).countdown) same ∙ rounds-none bs n e

left-zero : (nretx errors : ℕ) (c : Option ℕ) → left_of nretx errors c ≤ 0 → c ≡ none
left-zero nretx errors none h = refl
left-zero nretx errors (some k) h = absurd (omega arith)

pub rounds-left :
    (bs : List Bool) (n : PacketNode)
    → IsLive n
    → left n ≤ length bs
    → (rounds bs n).countdown ≡ none
rounds-left [] n v h = left-zero n.nretx n.errors n.countdown h
rounds-left (b ∷ bs) n v h =
    let r = retx_node-left b n v in
    elim r.1 [
      | inl stopped ↦ rounds-none (b ∷ bs) n stopped
      | inr less ↦ rounds-left bs (retx_node b n).0 r.0 (omega arith)
    ]
