-- ===== src/TaskGraph/Graph/Alloc.antt =====
-- The nodes that `InstructionToGraph` (Graph.cpp) creates for the instructions of one scope.
use apac.Prelude.{ℕ, ◌+◌, ◌≤◌, ◌<◌, inl, inr, Bool, List, [], ◌∷◌, arith, In}
use apac.Prelude.Maps.{update}
use apac.TaskGraph.Instruction.{Instruction, Instructions, nil, cons}
use apac.TaskGraph.Node.{Graph, Heap}
use apac.TaskGraph.Node.Link.{Link}
use apac.TaskGraph.Graph.{World, new_node, create_nodes, add_subgraph}

abbrev pub Distinct : List ℕ → Type 0
Distinct [] = Unit
Distinct (n ∷ ns) = (¬ In n ns) × Distinct ns

pub record Created (w : World) (ns : List ℕ) (w' : World) : Type 0 where
  pub counter : w.next_node_id ≤ w'.next_node_id
  pub range : (n : ℕ) → In n ns → (w.next_node_id ≤ n) × (n < w'.next_node_id)
  pub distinct : Distinct ns
  pub kept : (m k : ℕ) → m < w.next_node_id → Link w.heap m k → Link w'.heap m k
  pub no_other_links : (m k : ℕ) → Link w'.heap m k → Link w.heap m k

-- A new node has no links.
new_node-Link :
    (n g : ℕ) (is_loop : Bool) (i : Instruction) (h : Heap) (m k : ℕ)
    → Link (update h n (new_node n g is_loop i)) m k
    → Link h m k
new_node-Link n g is_loop i h m k l = ground arith

pub create_nodes-Created :
    (g : ℕ) (is_loop : Bool) (is : Instructions) (w : World)
    → Created w (create_nodes g is_loop is w).0 (create_nodes g is_loop is w).1
unfolding create_nodes
create_nodes-Created g is_loop nil w = record {
  counter = omega arith;
  range = λ n i. absurd i;
  distinct = tt;
  kept = λ m k b l. l;
  no_other_links = λ m k l. l;
}
create_nodes-Created g is_loop (cons i is) w =
    let n = w.next_node_id in
    let w1 = record w { next_node_id = n + 1; heap = update w.heap n (new_node n g is_loop i) } in
    let rest = create_nodes-Created g is_loop is w1 in
    record {
      counter = omega (arith, rest.counter);
      range = λ m c. elim c [
        | inl e ↦ omega (arith, rest.counter)
        | inr later ↦ omega (arith, rest.range m later)
      ];
      distinct = (λ c. absurd (omega (arith, rest.range n c)), rest.distinct);
      kept = λ m k b l. rest.kept m k (omega arith) (ground arith);
      no_other_links = λ m k l. new_node-Link n g is_loop i w.heap m k (rest.no_other_links m k l);
    }

pub add_subgraph-Link :
    (n : ℕ) (g : Graph) (w : World) (m k : ℕ)
    → (Link w.heap m k → Link (add_subgraph n g w).heap m k)
      × (Link (add_subgraph n g w).heap m k → Link w.heap m k)
add_subgraph-Link n g w m k = ground arith
