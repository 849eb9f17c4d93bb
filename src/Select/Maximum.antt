-- ===== src/Select/Maximum.antt =====
-- `maxd` against the entries of `fds`.
use karmanet.Common.{
  ℕ, zero, suc, ◌≤◌, ◌≡◌, refl, sym, ◌⊎◌, inl, inr, Bool, true, false, Option, none, some, List, [],
  ◌∷◌, arith, ltb, leb, ◌==◌, if◌then◌else◌, Bool-cases, replicate,
}
use mathlib.Core.Path.{subst}
use karmanet.Select.{
  FdState, max_fd_size, fd_init, later, put_fd, fd_add, clear_fd, find_maxd, fd_remove, is_maxd,
}
use karmanet.Select.Bookkeeping.{
  add, remove, Call, call, run, fd_add-full, fd_add-room, call_full, call_room,
}

-- the descriptor is at most `maxd`
abbrev pub Within : Option ℕ → ℕ → Type 0
Within none d = ⊥
Within (some m) d = d ≤ m

abbrev pub AllWithin : Option ℕ → List (Option ℕ) → Type 0
AllWithin m [] = Unit
AllWithin m (none ∷ fds) = AllWithin m fds
AllWithin m (some d ∷ fds) = Within m d × AllWithin m fds

Within-later : (m : Option ℕ) (fd : ℕ) → Within (later m fd) fd
Within-later none fd = omega arith
Within-later (some m) fd = elim (Bool-cases (ltb m fd)) [
  | inl lt ↦ rw lt (omega arith)
  | inr ge ↦ rw ge (ground arith)
]

Within-later_kept : (m : Option ℕ) (fd d : ℕ) → Within m d → Within (later m fd) d
Within-later_kept none fd d h = absurd h
Within-later_kept (some m) fd d h = elim (Bool-cases (ltb m fd)) [
  | inl lt ↦ rw lt (ground arith)
  | inr ge ↦ rw ge h
]

AllWithin-later :
    (m : Option ℕ) (fd : ℕ) (fds : List (Option ℕ)) → AllWithin m fds → AllWithin (later m fd) fds
AllWithin-later m fd [] h = tt
AllWithin-later m fd (none ∷ fds) h = AllWithin-later m fd fds h
AllWithin-later m fd (some d ∷ fds) h = (Within-later_kept m fd d h.0, AllWithin-later m fd fds h.1)

AllWithin-replicate : (n : ℕ) (m : Option ℕ) → AllWithin m (replicate n none)
AllWithin-replicate zero m = tt
AllWithin-replicate (suc n) m = AllWithin-replicate n m

AllWithin-put_fd :
    (m : Option ℕ) (fd : ℕ) (fds : List (Option ℕ))
    → Within m fd
    → AllWithin m fds
    → (put_fd fd fds ≡ none) ⊎ ((l : List (Option ℕ)) × (put_fd fd fds ≡ some l) × AllWithin m l)
unfolding put_fd
AllWithin-put_fd m fd [] w h = inl refl
AllWithin-put_fd m fd (none ∷ fds) w h = inr (_, refl, (w, h))
AllWithin-put_fd m fd (some d ∷ fds) w h = elim (AllWithin-put_fd m fd fds w h.1) [
  | inl full ↦ inl (rw full refl)
  | inr found ↦ let (l, e, below) = found in inr (some d ∷ l, rw e refl, (h.0, below))
]

AllWithin-clear_fd :
    (m : Option ℕ) (fd : ℕ) (fds : List (Option ℕ))
    → AllWithin m fds
    → AllWithin m (clear_fd fd fds)
unfolding clear_fd
AllWithin-clear_fd m fd [] h = tt
AllWithin-clear_fd m fd (none ∷ fds) h = AllWithin-clear_fd m fd fds h
AllWithin-clear_fd m fd (some d ∷ fds) h = elim (Bool-cases (d == fd)) [
  | inl this ↦ rw this h.1
  | inr other ↦ rw other (h.0, AllWithin-clear_fd m fd fds h.1)
]

Within-find_maxd :
    (m : Option ℕ) (d : ℕ) (fds : List (Option ℕ)) → Within m d → Within (find_maxd m fds) d
unfolding find_maxd
Within-find_maxd m d [] h = h
Within-find_maxd m d (none ∷ fds) h = Within-find_maxd m d fds h
Within-find_maxd m d (some e ∷ fds) h =
    Within-find_maxd (later m e) d fds (Within-later_kept m e d h)

AllWithin-find_maxd : (m : Option ℕ) (fds : List (Option ℕ)) → AllWithin (find_maxd m fds) fds
unfolding find_maxd
AllWithin-find_maxd m [] = tt
AllWithin-find_maxd m (none ∷ fds) = AllWithin-find_maxd m fds
AllWithin-find_maxd m (some d ∷ fds) =
    (Within-find_maxd (later m d) d fds (Within-later m d), AllWithin-find_maxd (later m d) fds)

Bounded : FdState → Type 0
Bounded s = AllWithin s.maxd s.fds

fd_add-Bounded :
    (fd : ℕ) (s : FdState)
    → Bounded s
    → (fd_add fd s ≡ none) ⊎ ((t : FdState) × (fd_add fd s ≡ some t) × Bounded t)
unfolding fd_add Bounded
fd_add-Bounded fd s h = elim (Bool-cases (leb max_fd_size s.fd_count)) [
  | inl full ↦ inl (fd_add-full fd s full)
  | inr room ↦
      let m = later s.maxd fd in
      let below = AllWithin-later s.maxd fd s.fds h in
      elim (AllWithin-put_fd m fd s.fds (Within-later s.maxd fd) below) [
        | inl no_entry ↦
            let t : FdState = record s {
              maxd = m;
              allset = λ d. if d == fd then true else s.allset d;
            } in
            inr (t, rw (room, no_entry) refl, below)
        | inr found ↦ let (l, e, within) = found in inr (_, fd_add-room fd s l room e, within)
      ]
]

fd_remove-Bounded : (fd : ℕ) (s : FdState) → Bounded s → Bounded (fd_remove fd s)
unfolding fd_remove Bounded
fd_remove-Bounded fd s h = choose (is_maxd s.maxd fd)
  where
    choose :
        (b : Bool)
        → AllWithin (if b then find_maxd none (clear_fd fd s.fds) else s.maxd) (clear_fd fd s.fds)
    choose true = AllWithin-find_maxd none (clear_fd fd s.fds)
    choose false = AllWithin-clear_fd s.maxd fd s.fds h

call-Bounded : (c : Call) (s : FdState) → Bounded s → Bounded (call c s)
unfolding call
call-Bounded (remove fd) s h = fd_remove-Bounded fd s h
call-Bounded (add fd) s h = elim (fd_add-Bounded fd s h) [
  | inl full ↦ subst Bounded (sym (call_full fd s full)) h
  | inr found ↦ let (t, e, below) = found in subst Bounded (sym (call_room fd s t e)) below
]

run-Bounded : (cs : List Call) (s : FdState) → Bounded s → Bounded (run cs s)
unfolding run
run-Bounded [] s h = h
run-Bounded (c ∷ cs) s h = run-Bounded cs (call c s) (call-Bounded c s h)

-- Whatever is added and removed, no descriptor of `fds` is above `maxd`, so `fd_select` looks at
-- all of them.
pub AllWithin-run : (cs : List Call) → AllWithin (run cs fd_init).maxd (run cs fd_init).fds
unfolding fd_init Bounded
AllWithin-run cs = run-Bounded cs fd_init (AllWithin-replicate max_fd_size none)
