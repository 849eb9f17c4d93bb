-- ===== src/DList/Walk.antt =====
-- The two loops over a whole list: `get_list_count` and `free_list`.
use karmanet.Common.{
  ℕ, zero, suc, ◌+◌, ◌<◌, ◌≡◌, refl, sym, ap, ◌∙◌, inl, inr, Bool, true, false, ◌||◌, none, some,
  [], ◌∷◌, arith, ◌==◌, ==_iff, Bool-cases, or-eq-false, ==-eq-false, length,
}
use karmanet.DList.{
  Ptr, null, Heap, write, load-some, free-some, free_list_loop, free_list, get_list_count_loop,
  get_list_count,
}
use karmanet.DList.Shape.{Cells, has, first, Linked, IsList, SameOutside, Returns, Linked-same}

get_list_count_loop-length :
    (h : Heap) (k b : ℕ) (xs : Cells) (dim : ℕ)
    → Linked h b xs
    → length xs < k
    → get_list_count_loop k (first xs) dim h ≡ some (dim + length xs, h)
unfolding get_list_count_loop
get_list_count_loop-length h zero b xs dim s lt = absurd (omega arith)
get_list_count_loop-length h (suc k) b [] dim s lt = ap (λ n. some (n, h)) (omega arith)
get_list_count_loop-length h (suc k) b ((a, d) ∷ xs) dim s lt =
    rw ((==-eq-false a null).1 s.0, load-some h a s.0 s.2)
      (get_list_count_loop-length h k a xs (dim + 1) s.3 (omega arith)
        ∙ ap (λ n. some (n, h)) (omega arith))

-- With more rounds than the list has nodes, `get_list_count` returns their number and changes no
-- memory.
pub get_list_count-length :
    (h : Heap) (fuel head : ℕ) (xs : Cells)
    → IsList h head xs
    → length xs < fuel
    → get_list_count fuel head h ≡ some (length xs, h)
unfolding get_list_count
get_list_count-length h fuel head xs is lt =
    rw is.0
      (get_list_count_loop-length h fuel null xs 0 is.1 lt ∙ ap (λ n. some (n, h)) (omega arith))

only_head : (a p : Ptr) (b : Bool) → ((a == p) || b) ≡ true → b ≡ false → a ≡ p
only_head a p b h out = ground arith

free_list_loop-none :
    (h : Heap) (k b : ℕ) (xs : Cells)
    → Linked h b xs
    → length xs < k
    → Returns
        (λ u g. ((a : Ptr) → has a xs ≡ true → g a ≡ none) × SameOutside xs h g)
        (free_list_loop k (first xs) h)
unfolding free_list_loop
free_list_loop-none h zero b xs s lt = absurd (omega arith)
free_list_loop-none h (suc k) b [] s lt = (tt, h, refl, (λ a i. cc, λ a n o. refl))
free_list_loop-none h (suc k) b ((p, d) ∷ xs) s lt =
    let g = write h p none in
    let kept = Linked-same h g p xs (λ a i. unfold write in ground arith) s.3 in
    let (u, g', run, (gone, same)) = free_list_loop-none g k p xs kept (omega arith) in
    (
      u,
      g',
      rw ((==-eq-false p null).1 s.0, load-some h p s.0 s.2, free-some h p s.0 s.2) run,
      (
        λ a i. elim (Bool-cases (has a xs)) [
          | inl inside ↦ gone a inside
          | inr out ↦
              let hit = only_head a p (has a xs) i out in
              same a (λ z. s.0 (sym hit ∙ z)) out ∙ (unfold write in rw ((==_iff a p).1 hit))
        ],
        λ a n out.
            let parts = or-eq-false (a == p) (has a xs) out in
            same a n parts.1 ∙ (unfold write in rw parts.0),
      ),
    )

-- With more rounds than the list has nodes, `free_list` frees every node and changes no other
-- memory.
pub free_list-none :
    (h : Heap) (fuel head : ℕ) (xs : Cells)
    → IsList h head xs
    → length xs < fuel
    → Returns
        (λ u g. ((a : Ptr) → has a xs ≡ true → g a ≡ none) × SameOutside xs h g)
        (free_list fuel head h)
unfolding free_list
free_list-none h fuel head xs is lt = rw is.0 (free_list_loop-none h fuel null xs is.1 lt)
