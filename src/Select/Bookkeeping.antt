-- ===== src/Select/Bookkeeping.antt =====
-- `fd_count` and the entries of `fds` over a run of the program.
use karmanet.Common.{
  ℕ, suc, ◌+◌, ◌≤◌, ◌<◌, min, ◌≡◌, refl, sym, ap, ◌∙◌, inl, inr, true, false, Option, none, some,
  List, [], ◌∷◌, arith, leb, ◌==◌, if◌then◌else◌, Bool-cases, length,
}
use mathlib.Core.Path.{subst}
use karmanet.Select.{FdState, max_fd_size, fd_init, later, put_fd, fd_add, clear_fd, fd_remove}

-- a call of the client
pub data Call : Type 0 where
  add remove : ℕ → Call

-- a refused `fd_add` changes nothing
unfoldable pub call : Call → FdState → FdState
call (add fd) s = elim (fd_add fd s) [ none ↦ s | some t ↦ t ]
call (remove fd) s = fd_remove fd s

unfoldable pub run : List Call → FdState → FdState
run [] s = s
run (c ∷ cs) s = run cs (call c s)

abbrev pub adds : List Call → ℕ
adds [] = 0
adds (add fd ∷ cs) = suc (adds cs)
adds (remove fd ∷ cs) = adds cs

-- how many entries hold a descriptor
abbrev pub used : List (Option ℕ) → ℕ
used [] = 0
used (none ∷ fds) = used fds
used (some d ∷ fds) = suc (used fds)

-- there is an entry for each descriptor that `fd_count` still allows
pub record IsValid (s : FdState) : Type 0 where
  pub size : length s.fds ≡ max_fd_size
  pub count : used s.fds ≤ s.fd_count
  pub limit : s.fd_count ≤ max_fd_size

put_fd-some :
    (fd : ℕ) (fds : List (Option ℕ))
    → used fds < length fds
    → (l : List (Option ℕ)) × (put_fd fd fds ≡ some l)
      × (length l ≡ length fds)
      × (used l ≡ suc (used fds))
unfolding put_fd
put_fd-some fd [] h = absurd (omega arith)
put_fd-some fd (none ∷ fds) h = (_, refl, refl, refl)
put_fd-some fd (some d ∷ fds) h =
    let (l, e, size, count) = put_fd-some fd fds (omega arith) in
    (some d ∷ l, rw e refl, ap suc size, ap suc count)

length-clear_fd : (fd : ℕ) (fds : List (Option ℕ)) → length (clear_fd fd fds) ≡ length fds
unfolding clear_fd
length-clear_fd fd [] = refl
length-clear_fd fd (none ∷ fds) = ap suc (length-clear_fd fd fds)
length-clear_fd fd (some d ∷ fds) = elim (Bool-cases (d == fd)) [
  | inl this ↦ rw this refl
  | inr other ↦ rw other (ap suc (length-clear_fd fd fds))
]

used-clear_fd : (fd : ℕ) (fds : List (Option ℕ)) → used (clear_fd fd fds) ≤ used fds
unfolding clear_fd
used-clear_fd fd [] = omega arith
used-clear_fd fd (none ∷ fds) = used-clear_fd fd fds
used-clear_fd fd (some d ∷ fds) = elim (Bool-cases (d == fd)) [
  | inl this ↦ rw this (omega arith)
  | inr other ↦ rw other (omega (arith, used-clear_fd fd fds))
]

pub fd_add-full : (fd : ℕ) (s : FdState) → leb max_fd_size s.fd_count ≡ true → fd_add fd s ≡ none
unfolding fd_add
fd_add-full fd s e = rw e refl

pub fd_add-room :
    (fd : ℕ) (s : FdState) (l : List (Option ℕ))
    → leb max_fd_size s.fd_count ≡ false
    → put_fd fd s.fds ≡ some l
    → fd_add fd s
      ≡ some (record {
        maxd = later s.maxd fd;
        fds = l;
        fd_count = s.fd_count + 1;
        allset = λ d. if d == fd then true else s.allset d;
      })
unfolding fd_add
fd_add-room fd s l e put = rw (e, put) refl

pub call_full : (fd : ℕ) (s : FdState) → fd_add fd s ≡ none → call (add fd) s ≡ s
unfolding call
call_full fd s e = rw (e, call) refl

pub call_room : (fd : ℕ) (s t : FdState) → fd_add fd s ≡ some t → call (add fd) s ≡ t
unfolding call
call_room fd s t e = rw (e, call) refl

-- a call keeps the invariant, and counts an `fd_add` up to the limit
call-IsValid :
    (c : Call) (s : FdState)
    → IsValid s
    → IsValid (call c s) × ((call c s).fd_count ≡ min max_fd_size (s.fd_count + adds (c ∷ [])))
unfolding call fd_remove
call-IsValid (remove fd) s v = (
  record {
    size = length-clear_fd fd s.fds ∙ v.size;
    count = omega (arith, used-clear_fd fd s.fds, v.count);
    limit = v.limit;
  },
  omega (arith, v.limit),
)
call-IsValid (add fd) s v =
    let Goal = λ (t : FdState). IsValid t × (t.fd_count ≡ min max_fd_size (s.fd_count + 1)) in
    elim (Bool-cases (leb max_fd_size s.fd_count)) [
      | inl full ↦
          let many : 9 ≤ s.fd_count = ground arith in
          subst Goal (sym (call_full fd s (fd_add-full fd s full))) (v, omega (arith, v.limit))
      | inr room ↦
          let few : s.fd_count < 9 = ground arith in
          let (l, put, size, count) = put_fd-some fd s.fds (omega (arith, v.size, v.count)) in
          subst Goal (sym (call_room fd s _ (fd_add-room fd s l room put))) (
            record {
              size = size ∙ v.size;
              count = omega (arith, count, v.count);
              limit = omega arith;
            },
            omega arith,
          )
    ]

run-IsValid :
    (cs : List Call) (s : FdState)
    → IsValid s
    → IsValid (run cs s) × ((run cs s).fd_count ≡ min max_fd_size (s.fd_count + adds cs))
unfolding run
run-IsValid [] s v = (v, omega (arith, v.limit))
run-IsValid (add fd ∷ cs) s v =
    let one = call-IsValid (add fd) s v in
    let rest = run-IsValid cs (call (add fd) s) one.0 in (rest.0, omega (arith, rest.1, one.1))
run-IsValid (remove fd ∷ cs) s v =
    let one = call-IsValid (remove fd) s v in
    let rest = run-IsValid cs (call (remove fd) s) one.0 in
    (rest.0, omega (arith, rest.1, one.1, v.limit))

fd_init-IsValid : IsValid fd_init
unfolding fd_init
fd_init-IsValid = record { size = refl; count = omega arith; limit = omega arith }

-- After the calls `cs`, `fd_count` is the number of the `fd_add` calls among them, up to nine; no
-- call of `fd_remove` takes from it.
pub fd_count-run : (cs : List Call) → (run cs fd_init).fd_count ≡ min max_fd_size (adds cs)
unfolding fd_init
fd_count-run cs = omega (arith, (run-IsValid cs fd_init fd_init-IsValid).1)

-- Once `fd_add` has been called nine times, every later call of it fails, however many descriptors
-- were removed in between.
pub fd_add-run :
    (cs : List Call) (fd : ℕ) → max_fd_size ≤ adds cs → fd_add fd (run cs fd_init) ≡ none
fd_add-run cs fd h =
    let count = fd_count-run cs in
    let at_limit : 9 ≤ (run cs fd_init).fd_count = omega (arith, count, h) in
    fd_add-full fd (run cs fd_init) (ground arith)
