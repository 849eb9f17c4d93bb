-- ===== src/DList.antt =====
-- The doubly linked list of src/common/list.c over an explicit heap. `malloc` takes the address
-- that it returns as an argument, and a command that dereferences NULL or an address that holds no
-- node is undefined behaviour, `none`.
pub mod Shape
pub mod Insert
pub mod Remove
pub mod Walk
pub mod Bypass
pub mod Added
use karmanet.Common.{
  ℕ, zero, suc, ◌+◌, ◌≡◌, ◌≢◌, ◌||◌, Option, none, some, ◌==◌, if◌then◌else◌, ==-eq-false,
}

abbrev pub Ptr : Type 0
Ptr = ℕ

abbrev pub null : Ptr
null = 0

-- `struct node`; the payload is a pointer too
pub record Node : Type 0 where
  pub payload : Ptr
  pub next : Ptr
  pub prev : Ptr

abbrev pub node : Ptr → Ptr → Ptr → Node
node d n p = record { payload = d; next = n; prev = p }

abbrev pub Heap : Type 0
Heap = Ptr → Option Node

unfoldable pub write : Heap → Ptr → Option Node → Heap
write h p c a = if a == p then c else h a

abbrev pub Cmd : Type 0 → Type 0
Cmd A = Heap → Option (A × Heap)

abbrev pub pure : {A : Type 0} → A → Cmd A
pure a h = some (a, h)

module _ {A B : Type 0} where
  -- the rest of a command, which runs if what is before it does not fault
  abbrev pub continue_with : (A → Cmd B) → Option (A × Heap) → Option (B × Heap)
  continue_with rest none = none
  continue_with rest (some (a, h)) = rest a h

  infixl 5 ◌>>◌
  abbrev pub ◌>>◌ : Cmd A → Cmd B → Cmd B
  c >> rest = λ h. continue_with (λ x. rest) (c h)

  infixl 5 ◌>>=◌
  abbrev pub ◌>>=◌ : Cmd A → (A → Cmd B) → Cmd B
  c >>= rest = λ h. continue_with rest (c h)

-- the raw write, `none` for memory that is given back
abbrev store : Ptr → Option Node → Cmd (Unit {0})
store p c h = some (tt, write h p c)

load : Ptr → Cmd Node
load p h = if p == null then none else elim (h p) [ none ↦ none | some n ↦ some (n, h) ]

-- the assignments through the pointer that `malloc` returned, which the code does not test
pub alloc : Ptr → Node → Cmd (Unit {0})
alloc fresh n h = if fresh == null then none else store fresh (some n) h

set_next : Ptr → Ptr → Cmd (Unit {0})
set_next p q = do n ← load p; store p (some (record n { next = q }))

pub set_prev : Ptr → Ptr → Cmd (Unit {0})
set_prev p q = do n ← load p; store p (some (record n { prev = q }))

free : Ptr → Cmd (Unit {0})
free p = load p >> store p none

module _ (h : Heap) (p : Ptr) {n : Node} (ne : p ≢ null) (holds : h p ≡ some n) where
  load-some : load p h ≡ some (n, h)
  unfolding load
  load-some = rw (((==-eq-false p null).1 ne), holds)

  set_next-some : (q : Ptr) → set_next p q h ≡ some (tt, write h p (some (record n { next = q })))
  unfolding set_next
  set_next-some q = rw load-some

  set_prev-some : (q : Ptr) → set_prev p q h ≡ some (tt, write h p (some (record n { prev = q })))
  unfolding set_prev
  set_prev-some q = rw load-some

  free-some : free p h ≡ some (tt, write h p none)
  unfolding free
  free-some = rw load-some

-- run a command only for a pointer that is not NULL
pub when_not_null : Ptr → Cmd (Unit {0}) → Cmd (Unit {0})
when_not_null p m h = if p == null then some (tt, h) else m h

pub insert_node : (fresh : Ptr) → (list payload : Ptr) → Cmd Ptr
insert_node fresh list payload h =
    if payload == null
    then some (list, h)
    else (do
      alloc fresh (node payload list null)
      when_not_null list (set_prev list fresh)
      pure fresh)
        h

pub sorted_insert_node : (fresh : Ptr) → (list prev_node payload : Ptr) → Cmd Ptr
sorted_insert_node fresh list prev_node payload h =
    if payload == null
    then some (list, h)
    else if (list == null) || (prev_node == null)
    then insert_node fresh list payload h
    else (do
      p ← load prev_node
      alloc fresh (node payload p.next prev_node)
      when_not_null p.next (set_prev p.next fresh)
      set_next prev_node fresh
      pure list)
        h

pub remove_node : (list toremove : Ptr) → Cmd Ptr
remove_node list toremove h =
    if toremove == null
    then some (list, h)
    else (do
      n ← load toremove
      head ← (λ g.
          if n.prev == null
          then (if n.next == null then some (null, g) else (set_prev n.next null >> pure n.next) g)
          else (if n.next == null
              then (set_next n.prev null >> pure list) g
              else (do set_next n.prev n.next; set_prev n.next n.prev; pure list) g))
      free toremove
      pure head)
        h

-- one round for each node, and one for the end
free_list_loop : ℕ → Ptr → Cmd (Unit {0})
free_list_loop zero it = λ h. none
free_list_loop (suc k) it =
    λ h. if it == null then some (tt, h) else (do n ← load it; free it; free_list_loop k n.next) h

pub free_list : ℕ → Ptr → Cmd (Unit {0})
free_list fuel list = free_list_loop fuel list

get_list_count_loop : ℕ → Ptr → ℕ → Cmd ℕ
get_list_count_loop zero it dim = λ h. none
get_list_count_loop (suc k) it dim = λ h.
    if it == null then some (dim, h) else (do n ← load it; get_list_count_loop k n.next (dim + 1)) h

pub get_list_count : ℕ → Ptr → Cmd ℕ
get_list_count fuel head = get_list_count_loop fuel head 0
