-- ===== src/Requests/Ageing.antt =====
-- How long a request is remembered.
use karmanet.Common.{
  ℕ, zero, suc, ◌-◌, ◌≤◌, ◌≡◌, refl, sym, ap, ◌∙◌, ◌⊎◌, inl, inr, Bool, true, false, ◌&&◌, ◌||◌,
  none, some, List, [], ◌∷◌, ◌++◌, append_assoc, arith, leb, ◌==◌, if◌then◌else◌, Bool-cases,
  or-eq-false, length, length-append,
}
use karmanet.Common.Positions.{change_at, remove_at-middle, change_at-middle, is_empty-middle}
use karmanet.Requests.{
  RequestNode, Requests, request_ttl, is_request, get_request_node, new_request_node,
  insert_request, remove_request_node, decrement, age_loop, age,
}

-- the requests after one pass: those with time left
abbrev pub aged : Requests → Requests
aged [] = []
aged (n ∷ ns) = if n.ttl == 0 then aged ns else decrement n ∷ aged ns

-- some request in the list has these keys
abbrev pub seen : ℕ → ℕ → ℕ → Requests → Bool
seen id ip port [] = false
seen id ip port (n ∷ ns) = is_request id ip port n || seen id ip port ns

-- `k` passes
abbrev pub passes : ℕ → Requests → Requests
passes zero list = list
passes (suc k) list = passes k (age list)

module _ (i : ℕ) (n : RequestNode) (it list : Requests) where
  age_loop_old :
      (n.ttl == 0) ≡ true
      → age_loop i (n ∷ it) list ≡ age_loop i it (remove_request_node (some i) list)
  unfolding age_loop
  age_loop_old e = rw e

  age_loop_young :
      (n.ttl == 0) ≡ false
      → age_loop i (n ∷ it) list ≡ age_loop (suc i) it (change_at i decrement list)
  unfolding age_loop
  age_loop_young e = rw e

remove_request_node-middle :
    (xs : Requests) (n : RequestNode) (ys : Requests)
    → remove_request_node (some (length xs)) (xs ++ n ∷ ys) ≡ xs ++ ys
unfolding remove_request_node
remove_request_node-middle xs n ys = rw (is_empty-middle xs n ys) (remove_at-middle xs n ys)

age_loop-aged : (it xs : Requests) → age_loop (length xs) it (xs ++ it) ≡ xs ++ aged it
unfolding age_loop
age_loop-aged [] xs = refl
age_loop-aged (n ∷ it) xs = elim (Bool-cases (n.ttl == 0)) [
  | inl old ↦
      age_loop_old (length xs) n it (xs ++ n ∷ it) old
      ∙ ap (age_loop (length xs) it) (remove_request_node-middle xs n it)
      ∙ age_loop-aged it xs
      ∙ rw old refl
  | inr young ↦
      let step = xs ++ decrement n ∷ [] in
      let size : suc (length xs) ≡ length step = rw length-append (omega arith) in
      age_loop_young (length xs) n it (xs ++ n ∷ it) young
      ∙ ap (λ k. age_loop k it (change_at (length xs) decrement (xs ++ n ∷ it))) size
      ∙ ap (age_loop (length step) it)
          (change_at-middle decrement xs n it ∙ sym (append_assoc xs (decrement n ∷ []) it))
      ∙ age_loop-aged it step
      ∙ append_assoc xs (decrement n ∷ []) (aged it)
      ∙ rw young refl
]

-- A pass drops exactly the requests whose time is up, and takes one from the time of the others,
-- which stay in their order.
pub age-aged : (list : Requests) → age list ≡ aged list
unfolding age
age-aged list = age_loop-aged list []

module _ (id ip port : ℕ) where
  seen-get_request_node :
      (ns : Requests)
      → (seen id ip port ns ≡ false) × (get_request_node id ip port ns ≡ none)
        ⊎ (seen id ip port ns ≡ true) × ((i : ℕ) × (get_request_node id ip port ns ≡ some i))
  unfolding get_request_node
  seen-get_request_node [] = inl (refl, refl)
  seen-get_request_node (n ∷ ns) = elim (Bool-cases (is_request id ip port n)) [
    | inl this ↦ inr (rw this refl, (0, rw this refl))
    | inr other ↦ elim (seen-get_request_node ns) [
      | inl out ↦ inl (rw (other, out.0), rw (other, out.1))
      | inr found ↦ let (i, e) = found.1 in inr (rw (other, found.0), (suc i, rw (other, e)))
    ]
  ]

  insert_none :
      (ns : Requests)
      → get_request_node id ip port ns ≡ none
      → insert_request id ip port ns ≡ (0, new_request_node id ip port ∷ ns)
  unfolding insert_request
  insert_none ns e = rw (e, insert_request)

  insert_some :
      (ns : Requests) (i : ℕ)
      → get_request_node id ip port ns ≡ some i
      → insert_request id ip port ns ≡ (1, ns)
  unfolding insert_request
  insert_some ns i e = rw (e, insert_request)

  -- The result says whether the request was known, and it is known afterwards; a known request
  -- leaves the list as it is.
  pub insert_request-seen :
      (ns : Requests)
      → (insert_request id ip port ns
          ≡ (if seen id ip port ns then (1, ns) else (0, new_request_node id ip port ∷ ns)))
        × (seen id ip port (insert_request id ip port ns).1 ≡ true)
  unfolding new_request_node
  insert_request-seen ns = elim (seen-get_request_node ns) [
    | inl out ↦
        let self : is_request id ip port (new_request_node id ip port) ≡ true = ground arith in
        (
          insert_none ns out.1 ∙ rw out.0 refl,
          ap (λ r. seen id ip port r.1) (insert_none ns out.1) ∙ rw self refl,
        )
    | inr found ↦
        let (i, e) = found.1 in
        (
          insert_some ns i e ∙ rw found.0 refl,
          ap (λ r. seen id ip port r.1) (insert_some ns i e) ∙ found.0,
        )
  ]

  seen-aged : (ns : Requests) → seen id ip port ns ≡ false → seen id ip port (aged ns) ≡ false
  seen-aged [] e = refl
  seen-aged (n ∷ ns) e =
      let parts = or-eq-false (is_request id ip port n) (seen id ip port ns) e in
      elim (Bool-cases (n.ttl == 0)) [
        | inl old ↦ rw old (seen-aged ns parts.1)
        | inr young ↦ rw (young, parts.0) (seen-aged ns parts.1)
      ]

  seen-passes :
      (k : ℕ) (ns : Requests) → seen id ip port ns ≡ false → seen id ip port (passes k ns) ≡ false
  seen-passes zero ns e = e
  seen-passes (suc k) ns e =
      seen-passes k (age ns) (ap (seen id ip port) (age-aged ns) ∙ seen-aged ns e)

  seen-passes_ttl :
      (k ttl : ℕ) (ns : Requests)
      → seen id ip port ns ≡ false
      → seen id ip port (passes k (record { id = id; ip_sender = ip; port = port; ttl = ttl } ∷ ns))
        ≡ leb k ttl
  seen-passes_ttl zero ttl ns e = ground arith
  seen-passes_ttl (suc k) zero ns e =
      let gone : leb (suc k) 0 ≡ false = ground arith in
      ap (λ l. seen id ip port (passes k l))
        (age-aged (record { id = id; ip_sender = ip; port = port; ttl = 0 } ∷ ns))
      ∙ seen-passes k (aged ns) (seen-aged ns e)
      ∙ sym gone
  seen-passes_ttl (suc k) (suc ttl) ns e =
      let young : (suc ttl == 0) ≡ false = ground arith in
      let less : suc ttl - 1 ≡ ttl = omega arith in
      let same : leb k ttl ≡ leb (suc k) (suc ttl) = ground arith in
      let head : ℕ → RequestNode = λ t. record { id = id; ip_sender = ip; port = port; ttl = t } in
      ap (λ l. seen id ip port (passes k l))
        (age-aged (head (suc ttl) ∷ ns) ∙ rw (young, less) refl)
      ∙ seen-passes_ttl k ttl (aged ns) (seen-aged ns e)
      ∙ same

  -- A new request is remembered through exactly three passes of the checker.
  pub seen-passes-insert_request :
      (k : ℕ) (ns : Requests)
      → seen id ip port ns ≡ false
      → seen id ip port (passes k (insert_request id ip port ns).1) ≡ leb k request_ttl
  unfolding new_request_node
  seen-passes-insert_request k ns e = elim (seen-get_request_node ns) [
    | inr found ↦ cc (sym found.0 ∙ e)
    | inl out ↦
        ap (λ r. seen id ip port (passes k r.1)) (insert_none ns out.1) ∙ seen-passes_ttl k 3 ns e
  ]

-- what happens to the list: a pass of the checker, or the insertion of a request, of any keys
pub data Step : Type 0 where
  pass : Step
  insertion : (id ip port : ℕ) → Step

abbrev pub later : List Step → Requests → Requests
later [] list = list
later (pass ∷ steps) list = later steps (age list)
later (insertion id ip port ∷ steps) list = later steps (insert_request id ip port list).1

abbrev pub count_passes : List Step → ℕ
count_passes [] = 0
count_passes (pass ∷ steps) = suc (count_passes steps)
count_passes (insertion id ip port ∷ steps) = count_passes steps

module _ (id ip port : ℕ) where
  -- a request with these keys has `k` passes left or more
  abbrev pub lasts : ℕ → Requests → Bool
  lasts k [] = false
  lasts k (n ∷ ns) = (is_request id ip port n && leb k n.ttl) || lasts k ns

  lasts-seen : (k : ℕ) (ns : Requests) → lasts k ns ≡ true → seen id ip port ns ≡ true
  lasts-seen k [] h = h
  lasts-seen k (n ∷ ns) h = elim (Bool-cases (is_request id ip port n)) [
    | inl e ↦ rw e
    | inr e ↦ rw e (lasts-seen k ns (rw e at h))
  ]

  lasts-aged : (k : ℕ) (ns : Requests) → lasts (suc k) ns ≡ true → lasts k (aged ns) ≡ true
  lasts-aged k [] h = h
  lasts-aged k (n ∷ ns) h = elim (Bool-cases (n.ttl == 0)) [
    | inl old ↦
        let over : leb (suc k) n.ttl ≡ false = spent k n.ttl old in
        rw old (lasts-aged k ns (others (is_request id ip port n) (leb (suc k) n.ttl) _ over h))
    | inr young ↦
        let less : leb k (n.ttl - 1) ≡ leb (suc k) n.ttl = one_less k n.ttl young in
        rw (young, less)
          (either (is_request id ip port n && leb (suc k) n.ttl) _ _ (lasts-aged k ns) h)
  ]
    where
      spent : (k t : ℕ) → (t == 0) ≡ true → leb (suc k) t ≡ false
      spent k t h = ground arith

      one_less : (k t : ℕ) → (t == 0) ≡ false → leb k (t - 1) ≡ leb (suc k) t
      one_less k t h = ground arith

      others : (a b c : Bool) → b ≡ false → ((a && b) || c) ≡ true → c ≡ true
      others a b c h k = ground arith

      either : (a b c : Bool) → (b ≡ true → c ≡ true) → (a || b) ≡ true → (a || c) ≡ true
      either true b c f h = refl
      either false b c f h = f h

  lasts-insert_request :
      (k id' ip' port' : ℕ) (ns : Requests)
      → lasts k ns ≡ true
      → lasts k (insert_request id' ip' port' ns).1 ≡ true
  lasts-insert_request k id' ip' port' ns h =
      ap (λ r. lasts k r.1) (insert_request-seen id' ip' port' ns).0
      ∙ (elim (Bool-cases (seen id' ip' port' ns)) [
        | inl known ↦ rw known h
        | inr new ↦ rw new (behind _ _ h)
      ])
    where
      behind : (a b : Bool) → b ≡ true → (a || b) ≡ true
      behind true b e = refl
      behind false b e = e

  lasts-later :
      (steps : List Step) (k : ℕ) (ns : Requests)
      → count_passes steps ≤ k
      → lasts k ns ≡ true
      → seen id ip port (later steps ns) ≡ true
  lasts-later [] k ns few h = lasts-seen k ns h
  lasts-later (pass ∷ steps) zero ns few h = absurd (omega (arith, few))
  lasts-later (pass ∷ steps) (suc k) ns few h =
      lasts-later steps k (age ns) (omega (arith, few))
        (ap (lasts k) (age-aged ns) ∙ lasts-aged k ns h)
  lasts-later (insertion id' ip' port' ∷ steps) k ns few h =
      lasts-later steps k _ few (lasts-insert_request k id' ip' port' ns h)

  -- A request that was new is still remembered after any insertions of other requests and at most
  -- three passes of the checker, in any order.
  pub seen-later-insert_request :
      (steps : List Step) (ns : Requests)
      → seen id ip port ns ≡ false
      → count_passes steps ≤ request_ttl
      → seen id ip port (later steps (insert_request id ip port ns).1) ≡ true
  unfolding new_request_node
  seen-later-insert_request steps ns new few =
      lasts-later steps 3 (insert_request id ip port ns).1 few
        (ap (λ r. lasts 3 r.1) (insert_request-seen id ip port ns).0 ∙ rw new self)
    where
      self : (is_request id ip port (new_request_node id ip port) && leb 3 3 || lasts 3 ns) ≡ true
      self = ground arith
