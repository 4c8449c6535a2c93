-- ===== src/TaskGraph/StmtOrder/Queries.antt =====
-- `getSubStmtOrder` and `getNode` (InstructionsOrderManager.hpp).
use apac.Prelude.{ℕ, ◌≡◌, refl, ◌∙◌, ap, none, some, List, ◌∷◌, ==-self}
use apac.Prelude.Maps.{SearchMap}
use apac.TaskGraph.Instruction.{Instruction, fields}
use apac.TaskGraph.Node.{Heap}
use apac.TaskGraph.StmtOrder.{StmtOrder, insert_new, add_node_to_group, get_node}

insert_new_self :
    {V : Type 0} (k : ℕ) (v : V) (m : SearchMap V) → m k ≡ none → insert_new k v m k ≡ some v
insert_new_self k v m free = rw (free, insert_new) (rw (==-self k) refl)

-- Round trip: where the first statement of a node is linked to a group that has no node yet,
-- `getNode` of this statement returns the node after `addNodeToGroup`.
pub get_node-add_node_to_group :
    (h : Heap) (n g : ℕ) (i : Instruction) (rest : List Instruction) (o : StmtOrder)
    → (h n).instruction_ptr ≡ i ∷ rest
    → o.instruction_links (fields i).statement ≡ some g
    → o.nodes_group g ≡ none
    → get_node (fields i).statement (add_node_to_group h (some n) o) ≡ some n
unfolding get_node add_node_to_group
get_node-add_node_to_group h n g i rest o first linked free =
    let after : StmtOrder = record o { nodes_group = insert_new g n o.nodes_group } in
    let added : add_node_to_group h (some n) o ≡ after =
      rw (first, add_node_to_group) (rw linked refl) in
    let found : get_node (fields i).statement after ≡ some n =
      rw (linked, get_node) (insert_new_self g n o.nodes_group free) in
    ap (get_node (fields i).statement) added ∙ found
