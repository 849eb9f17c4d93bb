-- ===== src/Tests/Memory.antt =====
-- Two cells in a heap: linking, unlinking, counting and freeing.
use karmanet.Common.{◌≡◌, refl, none, some, [], ◌∷◌, arith, ◌==◌, if◌then◌else◌}
use karmanet.DList.{Heap, node, remove_node}
use karmanet.DList.Shape.{Cells, IsList, SameOutside, Returns}
use karmanet.DList.Remove.{remove_node-erase}

abbrev two_cells : Cells
two_cells = (10, 5) ∷ (20, 6) ∷ []

abbrev two_nodes : Heap
two_nodes a = if a == 10 then some (node 5 20 0) else if a == 20 then some (node 6 0 10) else none

two_nodes-IsList : IsList two_nodes 10 two_cells
two_nodes-IsList = (refl, (omega arith, refl, refl, (omega arith, refl, refl, tt)))

remove_node-erase_example :
    Returns
      (λ head g. IsList g head ((10, 5) ∷ []) × (g 20 ≡ none) × SameOutside two_cells two_nodes g)
      (remove_node 10 20 two_nodes)
remove_node-erase_example = remove_node-erase two_nodes 10 ((10, 5) ∷ []) 20 6 [] two_nodes-IsList
