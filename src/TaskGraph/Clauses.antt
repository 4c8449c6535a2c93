-- ===== src/TaskGraph/Clauses.antt =====
-- transforms/TaskGraph: `nodesComputeInOut` (Graph.cpp), which computes the clauses of the nodes of a
-- graph and of its subgraphs. It recurses into subgraphs on fuel: `none` is out of fuel.
pub mod Grows
pub mod Marked
mod Tests
use apac.Prelude.{ℕ, zero, suc, Option, none, some, List, [], ◌∷◌}
use apac.TaskGraph.AliasArg.{AliasArg}
use apac.TaskGraph.Node.{Heap, Graph, compute_in_out_in_dep}

-- The step at each member, in their order.
abbrev pub each {ℓ} : {A : Type ℓ} → (A → Heap → Option Heap) → List A → Heap → Option Heap
each f [] h = some h
each f (x ∷ xs) h = elim (f x h) [ none ↦ none | some r ↦ each f xs r ]

module _ (args : ℕ → AliasArg) where
  -- The node, and then its subgraphs.
  abbrev pub compute_node : (List ℕ → Heap → Option Heap) → ℕ → Heap → Option Heap
  compute_node below n h =
      let computed = compute_in_out_in_dep args h n in
      each (λ (g : Graph). below g.nodes) (computed n).graph computed

  unfoldable pub nodes_compute_in_out : ℕ → List ℕ → Heap → Option Heap
  nodes_compute_in_out zero nodes h = none
  nodes_compute_in_out (suc fuel) nodes h = each (compute_node (nodes_compute_in_out fuel)) nodes h
