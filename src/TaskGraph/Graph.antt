-- ===== src/TaskGraph/Graph.antt =====
-- transforms/TaskGraph: Graph.hpp and Graph.cpp, the construction of the graph of a list of
-- instructions.
pub mod Growth
pub mod Done
pub mod Causes
pub mod Flush
pub mod Handled
pub mod Order
pub mod Alloc
pub mod Extends
pub mod Build
pub mod Preserves
pub mod Conflicts
use apac.Prelude.{ℕ, ◌+◌, Bool, true, false, ◌==◌, if◌then◌else◌, Option, none, some}
use apac.Prelude.{List, [], ◌∷◌, ◌++◌, foldl, insert}
use apac.Prelude.Maps.{SearchMap, assign, remove, update}
use apac.TaskGraph.AliasArg.{AliasArg}
use apac.TaskGraph.Instruction.{
  Clang, NodeDependency, Dependencies, Instruction, Instructions, instruction, nil, cons, fields,
}
use apac.TaskGraph.Node.{Graph, Node, Heap, add_link}

-- What the construction asks of the alias table: its elements, `getArrayElementParents` and
-- `getArrayElementChildren`.
pub record Elements : Type 0 where
  pub args : ℕ → AliasArg
  pub parents : ℕ → List ℕ
  pub children : ℕ → List ℕ

-- `dataUsedInRead` and `dataUsedInWrite`.
pub record Uses : Type 0 where
  pub reads : SearchMap (List ℕ)
  pub writes : SearchMap ℕ

abbrev pub no_uses : Uses
no_uses = record { reads = λ e. none; writes = λ e. none }

-- What the loop of `handleInstructionDeps` changes: the nodes and its three buffers.
pub record Scan : Type 0 where
  pub heap : Heap
  pub data_read_buffer : List (ℕ × ℕ)
  pub data_write_buffer : List (ℕ × ℕ)
  pub data_read_erase_buffer : List ℕ

abbrev pub push_read : ℕ → ℕ → Scan → Scan
push_read node e s = record s { data_read_buffer = s.data_read_buffer ++ (node, e) ∷ [] }

abbrev pub push_write : ℕ → ℕ → Scan → Scan
push_write node e s = record s { data_write_buffer = s.data_write_buffer ++ (node, e) ∷ [] }

abbrev pub push_erase : ℕ → Scan → Scan
push_erase e s = record s { data_read_erase_buffer = s.data_read_erase_buffer ++ e ∷ [] }

module _ (table : Elements) (uses : Uses) (node : ℕ) where
  -- The label of a link: the element of the instruction if it has an unknown index.
  abbrev pub link_arg : ℕ → ℕ → Option ℕ
  link_arg dep_elem e = some (if (table.args dep_elem).has_unknown_index then dep_elem else e)

  -- A link from `m`, unless `m` is this node: `addReadLink` or `addWriteLink`, by the flags.
  unfoldable pub link_from : Bool → Bool → ℕ → ℕ → Scan → ℕ → Scan
  link_from is_read is_write dep_elem e s m =
      if m == node
      then s
      else record s { heap = add_link s.heap m m node is_read is_write (link_arg dep_elem e) }

  -- A read: after the last write of `e`.
  unfoldable pub link_read : ℕ → ℕ → Scan → Scan
  link_read dep_elem e s = elim (uses.writes e) [
    | none ↦ s
    | some m ↦ link_from true false dep_elem e s m
  ]

  unfoldable pub visit_parent : ℕ × NodeDependency → Scan → ℕ → Scan
  visit_parent dep s e = if dep.1.is_read then push_read node e (link_read dep.0 e s) else s

  -- A write: after the readers of `e` since its last write, or else after that write.
  unfoldable pub link_write : ℕ → ℕ → Scan → Scan
  link_write dep_elem e s = elim (uses.reads e) [
    | some ms ↦ push_erase e (foldl (link_from false true dep_elem e) s ms)
    | none ↦ elim (uses.writes e) [ none ↦ s | some m ↦ link_from false true dep_elem e s m ]
  ]

  unfoldable pub visit_child : ℕ × NodeDependency → Scan → ℕ → Scan
  visit_child dep s e =
      let after_read = if dep.1.is_read then link_read dep.0 e s else s in
      let after_write =
        if dep.1.is_write then push_write node e (link_write dep.0 e after_read) else after_read in
      if dep.1.is_read then push_read node e after_write else after_write

  unfoldable pub visit_dep : Scan → ℕ × NodeDependency → Scan
  visit_dep s dep =
      foldl (visit_child dep) (foldl (visit_parent dep) s (table.parents dep.0))
        (table.children dep.0)

-- The readers that the map holds for `e`.
abbrev pub or_empty : Option (List ℕ) → List ℕ
or_empty none = []
or_empty (some ns) = ns

abbrev pub readers_of : SearchMap (List ℕ) → ℕ → List ℕ
readers_of m e = or_empty (m e)

abbrev pub add_reader : SearchMap (List ℕ) → ℕ × ℕ → SearchMap (List ℕ)
add_reader m (n, e) = assign e (insert n (readers_of m e)) m

abbrev pub set_writer : SearchMap ℕ → ℕ × ℕ → SearchMap ℕ
set_writer m (n, e) = assign e n m

abbrev pub erase_readers : SearchMap (List ℕ) → ℕ → SearchMap (List ℕ)
erase_readers m e = remove e m

-- The state of the construction that the nodes of one scope share.
pub record Linking : Type 0 where
  pub heap : Heap
  pub uses : Uses

-- The buffers are empty before the loop over the dependencies, and are flushed after it.
abbrev pub start_scan : Heap → Scan
start_scan h = record {
  heap = h;
  data_read_buffer = [];
  data_write_buffer = [];
  data_read_erase_buffer = [];
}

abbrev pub flush : Uses → Scan → Linking
flush uses s = record {
  heap = s.heap;
  uses = record {
    reads =
        foldl add_reader (foldl erase_readers uses.reads s.data_read_erase_buffer)
          s.data_read_buffer;
    writes = foldl set_writer uses.writes s.data_write_buffer;
  };
}

unfoldable pub handle_instruction_deps : Elements → ℕ → Dependencies → Linking → Linking
handle_instruction_deps table node deps l =
    flush l.uses (foldl (visit_dep table l.uses node) (start_scan l.heap) deps)

-- The two static counters, and the nodes.
pub record World : Type 0 where
  pub next_node_id : ℕ
  pub next_graph_id : ℕ
  pub heap : Heap

-- `Node()` and the assignments that follow it.
abbrev pub new_node : ℕ → ℕ → Bool → Instruction → Node
new_node id graph_id is_loop i = record {
  graph_id = graph_id;
  id = id;
  is_looped = is_loop;
  next = [];
  prev = [];
  graph = [];
  instruction = (fields i).instruction_string;
  instruction_ptr = i ∷ [];
  dependencies = (fields i).dependencies;
  in_out_dep = [];
  in_dep = [];
}

-- A node for each instruction, in order.
unfoldable pub create_nodes : ℕ → Bool → Instructions → World → List ℕ × World
create_nodes graph_id is_loop nil w = ([], w)
create_nodes graph_id is_loop (cons i is) w =
    let n = w.next_node_id in
    let (ns, w') =
      create_nodes graph_id is_loop is (record w {
        next_node_id = n + 1;
        heap = update w.heap n (new_node n graph_id is_loop i);
      }) in
    (n ∷ ns, w')

-- The nodes with no predecessor.
unfoldable pub find_roots : Heap → List ℕ → List ℕ
find_roots h [] = []
find_roots h (n ∷ ns) =
    let rest = find_roots h ns in elim (h n).prev [ [] ↦ n ∷ rest | _ ∷ _ ↦ rest ]

-- The steps of `InstructionToGraph`, round the loop `link` over its nodes.
unfoldable pub graph_of :
    Bool
    → Instructions
    → (List ℕ → World × Uses → World × Uses)
    → World × Uses
    → Graph × World × Uses
graph_of is_loop is link (w, uses) =
    let g = w.next_graph_id in
    let (ns, w') = create_nodes g is_loop is (record w { next_graph_id = g + 1 }) in
    let (w'', uses') = link ns (w', uses) in
    (record { graph_id = g; nodes = ns; roots = find_roots w''.heap ns }, w'', uses')

-- `node->graph.emplace_back`.
abbrev pub add_subgraph : ℕ → Graph → World → World
add_subgraph n g w =
    let node = w.heap n in
    record w { heap = update w.heap n (record node { graph = node.graph ++ g ∷ [] }) }

module _ (clang : Clang) (table : Elements) where
  abbrev pub handle_deps : ℕ → Dependencies → World × Uses → World × Uses
  handle_deps n deps (w, uses) =
      let l = handle_instruction_deps table n deps (record { heap = w.heap; uses = uses }) in
      (record w { heap = l.heap }, l.uses)

  unfoldable mutual
    pub link_instruction : Instruction → Bool → ℕ → World × Uses → World × Uses
    link_instruction (instruction f scoped) is_loop n s =
        let s' = handle_deps n f.dependencies s in
        let for_graph = graph_of true scoped (link_instructions scoped true) (s'.0, no_uses) in
        let sub_graph = graph_of is_loop scoped (link_instructions scoped is_loop) s' in
        if f.complex_instruction
        then (if clang.is_for_stmt f.statement
            then (add_subgraph n for_graph.0 for_graph.1, s'.1)
            else (add_subgraph n sub_graph.0 sub_graph.1, sub_graph.2))
        else s'

    -- There is a node for each instruction, so the last clause is not reached.
    pub link_instructions : Instructions → Bool → List ℕ → World × Uses → World × Uses
    link_instructions nil is_loop ns s = s
    link_instructions (cons i is) is_loop (n ∷ ns) s =
        link_instructions is is_loop ns (link_instruction i is_loop n s)
    link_instructions (cons i is) is_loop [] s = s

  unfoldable pub instruction_to_graph : Bool → Instructions → World × Uses → Graph × World × Uses
  instruction_to_graph is_loop is s = graph_of is_loop is (link_instructions is is_loop) s

  -- One graph for each function, each with maps of its own.
  unfoldable pub generate_graph : List Instructions → World → List Graph × World
  generate_graph [] w = ([], w)
  generate_graph (f ∷ fs) w =
      let (g, w', _) = instruction_to_graph false f (w, no_uses) in
      let (gs, w'') = generate_graph fs w' in (g ∷ gs, w'')
