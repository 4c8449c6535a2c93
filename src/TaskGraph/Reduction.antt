-- ===== src/TaskGraph/Reduction.antt =====
-- transforms/TaskGraph: `transitiveReduction` (Graph.cpp), which drops the links that a longer path
-- makes superfluous. A heap of nodes is searched with fuel; `none` is out of fuel.
pub mod Gather
pub mod Links
pub mod Paths
pub mod Reduced
mod Tests
use apac.Prelude.{ℕ, Bool, true, false, Option, none, some, List, [], ◌∷◌, foldl, contains, erase}
use apac.Prelude.Maps.{keys, erase_key, update}
use apac.Prelude.Search.{push_all, search}
use apac.TaskGraph.Node.{Node, Heap}

abbrev pub next_nodes : Heap → ℕ → List ℕ
next_nodes h n = keys (h n).next

-- The loop over the next nodes: all that they lead to, in one set.
unfoldable pub gather : ℕ → Heap → List ℕ → List ℕ → Option (List ℕ)
gather fuel h [] visited = some visited
gather fuel h (n ∷ ns) visited =
    elim (search (next_nodes h) fuel visited (push_all (next_nodes h n) [])) [
      | none ↦ none
      | some visited' ↦ gather fuel h ns visited'
    ]

-- `toRemove`
abbrev pub visited_among : List ℕ → List ℕ → List ℕ
visited_among visited [] = []
visited_among visited (n ∷ ns) =
    let rest = visited_among visited ns in
    elim (contains n visited) [ true ↦ n ∷ rest | false ↦ rest ]

abbrev pub drop_next : ℕ → ℕ → Heap → Heap
drop_next node n h = update h node (record (h node) { next = erase_key n (h node).next })

abbrev pub drop_prev : ℕ → ℕ → Heap → Heap
drop_prev node n h = update h n (record (h n) { prev = erase node (h n).prev })

abbrev pub remove_link : ℕ → Heap → ℕ → Heap
remove_link node h n = drop_prev node n (drop_next node n h)

unfoldable pub reduce_node : ℕ → Heap → ℕ → Option Heap
reduce_node fuel h node = elim (gather fuel h (next_nodes h node) []) [
  | none ↦ none
  | some visited ↦ some (foldl (remove_link node) h (visited_among visited (next_nodes h node)))
]

unfoldable pub transitive_reduction : ℕ → Heap → List ℕ → Option Heap
transitive_reduction fuel h [] = some h
transitive_reduction fuel h (n ∷ ns) = elim (reduce_node fuel h n) [
  | none ↦ none
  | some h' ↦ transitive_reduction fuel h' ns
]
