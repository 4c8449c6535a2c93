-- ===== src/TaskGraph/Fusion.antt =====
-- transforms/TaskGraph: the fusion of a node with its only successor. `Graph::fuseNodes` (Graph.hpp),
-- `hasCommonArrayElement` and the inner loop of `nodesFusion` (Graph.cpp).
pub mod Accesses
pub mod Links
pub mod Chain
pub mod Common
mod Tests
use Prim.Native.String.{◌++◌ as ◌<>◌}
use apac.Prelude.{ℕ, zero, suc, Bool, true, false, ◌||◌, ◌&&◌, not, Option, none, some}
use apac.Prelude.{List, [], ◌∷◌, ◌++◌, foldl, ◌==◌, if◌then◌else◌, insert, erase, length}
use apac.Prelude.Maps.{lookup, put, keys, update}
use apac.TaskGraph.AliasArg.{AliasArg, indexes_match}
use apac.TaskGraph.Instruction.{Instruction, NodeDependency, Dependencies, plus, fields}
use apac.TaskGraph.Node.{Node, Heap}

-- One dependency of the second node, into those of the first.
abbrev pub add_dep : Dependencies → ℕ × NodeDependency → Dependencies
add_dep m (a, d) = elim (lookup a m) [ none ↦ m ++ (a, d) ∷ [] | some w ↦ put a (plus w d) m ]

abbrev pub merge_dependencies : Dependencies → Dependencies → Dependencies
merge_dependencies m m' = foldl add_dep m m'

-- In a successor of the second node, the first takes the place of the second.
abbrev pub replace_prev : ℕ → ℕ → Heap → ℕ → Heap
replace_prev n1 n2 h n = update h n (record (h n) { prev = insert n1 (erase n2 (h n).prev) })

abbrev pub take_next : ℕ → ℕ → Heap → Heap
take_next n1 n2 h = update h n1 (record (h n1) { next = (h n2).next })

-- What the first node takes over besides the links.
abbrev pub take_rest : ℕ → ℕ → Heap → Heap
take_rest n1 n2 h =
    let node1 = h n1 in
    let node2 = h n2 in
    update h n1 (record node1 {
      dependencies = merge_dependencies node1.dependencies node2.dependencies;
      instruction_ptr = node1.instruction_ptr ++ node2.instruction_ptr;
      graph = node1.graph ++ node2.graph;
      instruction = node1.instruction <> ("\n" <> node2.instruction);
    })

abbrev pub fuse_heap : ℕ → ℕ → Heap → Heap
fuse_heap n1 n2 h =
    take_rest n1 n2 (foldl (replace_prev n1 n2) (take_next n1 n2 h) (keys (h n2).next))

-- `nodes.erase(std::find(...))`: it has no result if the node is not there.
unfoldable pub erase_first : ℕ → List ℕ → Option (List ℕ)
erase_first n [] = none
erase_first n (m ∷ ns) =
    if m == n
    then some ns
    else (elim (erase_first n ns) [ none ↦ none | some rest ↦ some (m ∷ rest) ])

-- The heap and the nodes of the graph.
unfoldable pub fuse_nodes : ℕ → ℕ → Heap × List ℕ → Option (Heap × List ℕ)
fuse_nodes n1 n2 (h, nodes) = elim (erase_first n2 nodes) [
  | none ↦ none
  | some rest ↦ some (fuse_heap n1 n2 h, rest)
]

module _ (args : ℕ → AliasArg) where
  -- `result` and `hasArrayUnknownElements`, at one element of a link and one of the node.
  abbrev pub compare_element : ℕ → Bool × Bool → ℕ × NodeDependency → Bool × Bool
  compare_element alias1 (result, has_unknown) (alias2, d) =
      let matches = indexes_match (args alias1).indexes (args alias2).indexes in
      (
        (alias1 == alias2) || (if matches && not has_unknown then false else result),
        has_unknown || matches,
      )

  abbrev pub compare_label : Dependencies → Bool × Bool → ℕ × NodeDependency → Bool × Bool
  compare_label deps s label = foldl (compare_element label.0) s deps

  abbrev pub compare_link : Dependencies → Bool × Bool → ℕ × Dependencies → Bool × Bool
  compare_link deps s link = foldl (compare_label deps) s link.1

  -- `node1->next[node2]` is there, as `node2` is taken from `next`, so it adds nothing.
  unfoldable pub has_common_array_element : Node → Bool
  has_common_array_element node1 =
      (foldl (compare_link node1.dependencies) (true, false) node1.next).0

  -- A node that is not fused with the one before it.
  abbrev pub is_apart : List Instruction → Bool
  is_apart [] = false
  is_apart (i ∷ []) = (fields i).complex_instruction || (fields i).no_fusion
  is_apart (i ∷ j ∷ rest) = (fields i).no_fusion

  -- The condition of the loop of `nodesFusion`; its result is the next node.
  abbrev pub next_to_fuse : Heap → ℕ → Option ℕ
  next_to_fuse h n = elim (h n).next [
    | [] ↦ none
    | link ∷ rest ↦ elim rest [
      | [] ↦
          let next = h link.0 in
          if (length next.prev == 1)
            && ((next.graph_id == (h n).graph_id)
                && (not (is_apart next.instruction_ptr) && has_common_array_element (h n)))
          then some link.0
          else none
      | _ ∷ _ ↦ none
    ]
  ]

-- How the loop ends: it ran out of fuel, a node was not in the graph, or its condition is false.
pub data Fused : Type 0 where
  out_of_fuel not_in_graph : Fused
  done : Heap → List ℕ → Fused

-- The loop of `nodesFusion` at one node.
unfoldable pub fuse_chain : (ℕ → AliasArg) → ℕ → ℕ → Heap → List ℕ → Fused
fuse_chain args zero n h nodes = out_of_fuel
fuse_chain args (suc fuel) n h nodes = elim (next_to_fuse args h n) [
  | none ↦ done h nodes
  | some next ↦ elim (fuse_nodes n next (h, nodes)) [
    | none ↦ not_in_graph
    | some s ↦ fuse_chain args fuel n s.0 s.1
  ]
]
