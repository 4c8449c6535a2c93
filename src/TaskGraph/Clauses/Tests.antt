-- ===== src/TaskGraph/Clauses/Tests.antt =====
-- The theorem on the clauses of nested graphs at a small graph: the node 0 has a subgraph of the nodes
-- 1, which writes the element 0, and 2, which reads it.
use apac.Prelude.{ℕ, ◌≡◌, refl, ◌↔◌, ◌⊎◌, inl, inr, true, false, none, some, List, [], ◌∷◌}
use apac.Prelude.{◌==◌, if◌then◌else◌, In, arith, ◌<◌, ℕ-cases, ==-ne}
use mathlib.Core.Path.{subst}
use apac.TaskGraph.AliasArg.{AliasArg, AliasType}
use apac.TaskGraph.Instruction.{Dependencies}
use apac.TaskGraph.Node.{Heap, Graph}
use apac.TaskGraph.Clauses.{nodes_compute_in_out}
use apac.TaskGraph.Clauses.Grows.{node_of, below}
use apac.TaskGraph.Node.Shares.{IsInOut}
use apac.TaskGraph.Clauses.Marked.{IsNested, nodes_compute_in_out-decided}

abbrev scalar : ℕ → AliasArg
scalar e = record {
  has_unknown_index = false;
  declaration = e;
  alias_type = AliasType.variable;
  indexes = [];
  index_string = "";
  expression = none;
  id = e;
  pointers = [];
  references = [];
  aliased = [];
}

abbrev inner : Graph
inner = record { graph_id = 1; nodes = 1 ∷ 2 ∷ []; roots = 1 ∷ [] }

abbrev graphs_of : ℕ → List Graph
graphs_of n = if n == 0 then inner ∷ [] else []

abbrev uses_of : ℕ → Dependencies
uses_of n =
    if n == 1
    then (0, record { is_read = false; is_write = true }) ∷ []
    else if n == 2
    then (0, record { is_read = true; is_write = false }) ∷ []
    else []

abbrev next_of : ℕ → List (ℕ × Dependencies)
next_of n = if n == 1 then (2, (0, record { is_read = true; is_write = true }) ∷ []) ∷ [] else []

abbrev nested : Heap
nested n = record {
  graph_id = if n == 0 then 0 else 1;
  id = n;
  is_looped = false;
  next = next_of n;
  prev = if n == 2 then 1 ∷ [] else [];
  graph = graphs_of n;
  instruction = "";
  instruction_ptr = [];
  dependencies = uses_of n;
  in_out_dep = [];
  in_dep = [];
}

abbrev height : ℕ → ℕ
height n = if n == 0 then 1 else 0

inner_low : (k : ℕ) → In k inner.nodes → height k < 1
inner_low k j = ground arith

nested-IsNested : IsNested height nested
nested-IsNested m g i k j = elim (ℕ-cases m 0) [
  | inl e ↦ elim (subst (λ n. In g (graphs_of n)) e i) [
    | inl same ↦ rw (e) (inner_low k (subst (λ (x : Graph). In k x.nodes) same j))
    | inr none_in ↦ elim none_in [ ]
  ]
  | inr ne ↦ elim (subst (λ b. In g (if b then inner ∷ [] else [])) (==-ne m 0 ne) i) [ ]
]

nodes_compute_in_out-decided_example :
    (r : Heap) × (nodes_compute_in_out scalar 3 (0 ∷ []) nested ≡ some r)
    × (In 0 (r 1).in_out_dep ↔ (In 0 (nested 1).in_out_dep ⊎ IsInOut scalar nested 1 0))
nodes_compute_in_out-decided_example =
    nodes_compute_in_out-decided scalar height 3 (0 ∷ []) nested 1 0 nested-IsNested (ground arith)
      (λ m i. ground arith) (below 0 inner (inl refl) (inl refl) (node_of (inl refl)))
