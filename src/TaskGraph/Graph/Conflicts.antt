-- ===== src/TaskGraph/Graph/Conflicts.antt =====
-- What the links of `handleInstructionDeps` and of `InstructionToGraph` (Graph.cpp) say of the
-- instructions: a conflict is ordered, and a link comes from a conflict.
use apac.Prelude.{ℕ, suc, ◌≡◌, refl, ◌⊎◌, inl, inr, Bool, List, [], ◌∷◌, In, length, ap, sym}
use mathlib.Core.Path.{subst}
use apac.TaskGraph.Instruction.{Clang, Dependencies, Instructions, nil, cons, fields, to_list}
use apac.TaskGraph.Node.{Heap}
use apac.TaskGraph.Node.Link.{Link, Reaches}
use apac.TaskGraph.Graph.{
  Elements, Linking, World, no_uses, create_nodes, graph_of, instruction_to_graph,
  handle_instruction_deps,
}
use apac.TaskGraph.Graph.Handled.{handle_instruction_deps-Handled}
use apac.TaskGraph.Graph.Order.{
  History, Known, Conflict, Inv, Conflict-Reaches, Link-Conflict, Inv-step,
}
use apac.TaskGraph.Graph.Preserves.{After, Ordered, IsAllocated, instruction_to_graph-Ordered}

module _ (table : Elements) (hist : History) (l : Linking) (node : ℕ) (deps : Dependencies) where
  -- The maps of last readers and last writers stay right: if they describe the nodes handled so
  -- far, and `node` is not one of these, then after `handleInstructionDeps` they describe these
  -- nodes and `node`.
  pub handle_instruction_deps-Inv :
      Inv table hist l
      → ¬ Known hist node
      → Inv table ((node, deps) ∷ hist) (handle_instruction_deps table node deps l)
  handle_instruction_deps-Inv inv fresh =
      Inv-step table hist l _ node deps inv fresh
        (handle_instruction_deps-Handled table node deps l)

  -- Where the maps describe the nodes handled so far, and `node` is not one of these, there is a
  -- path to `node` from each of them that conflicts with it, after `handleInstructionDeps`.
  pub handle_instruction_deps-Reaches :
      (m : ℕ) (d : Dependencies)
      → Inv table hist l
      → ¬ Known hist node
      → In (m, d) hist
      → Conflict table d deps
      → Reaches (handle_instruction_deps table node deps l).heap m node
  handle_instruction_deps-Reaches m d inv fresh =
      Conflict-Reaches table hist l _ node deps inv fresh
        (handle_instruction_deps-Handled table node deps l) m d

  -- Where the maps describe the nodes handled so far, and `node` is not one of these, each link
  -- after `handleInstructionDeps` is an old one, or leads to `node` from one of these nodes that
  -- conflicts with it.
  pub handle_instruction_deps-Link :
      (m k : ℕ)
      → Inv table hist l
      → ¬ Known hist node
      → Link (handle_instruction_deps table node deps l).heap m k
      → Link l.heap m k ⊎ (k ≡ node) × ((d : Dependencies) × In (m, d) hist × Conflict table d deps)
  handle_instruction_deps-Link m k inv fresh =
      Link-Conflict table hist l _ node deps inv fresh
        (handle_instruction_deps-Handled table node deps l) m k

-- The instruction of the node `n` has the dependencies `d`.
abbrev pub At : Instructions → List ℕ → ℕ → Dependencies → Type 0
At (cons i is) (k ∷ ks) n d =
    ◌≡◌ {A = ℕ × Dependencies} (n, d) (k, (fields i).dependencies) ⊎ At is ks n d
At _ _ n d = ⊥

-- The node `m` stands before the node `n` in the list of the nodes, and their instructions have the
-- dependencies `d` and `d'`.
abbrev pub Precedes : Instructions → List ℕ → ℕ → Dependencies → ℕ → Dependencies → Type 0
Precedes (cons i is) (k ∷ ks) m d n d' =
    (◌≡◌ {A = ℕ × Dependencies} (m, d) (k, (fields i).dependencies) × At is ks n d')
    ⊎ Precedes is ks m d n d'
Precedes _ _ m d n d' = ⊥

module _ (table : Elements) (h : Heap) where
  After-Reaches :
      (is : Instructions) (ns : List ℕ) (m n : ℕ) (d d' : Dependencies)
      → After table h m d is ns
      → At is ns n d'
      → Conflict table d d'
      → Reaches h m n
  After-Reaches nil ns m n d d' after here c = elim here [ ]
  After-Reaches (cons i is) [] m n d d' after here c = elim here [ ]
  After-Reaches (cons i is) (k ∷ ks) m n d d' after (inl e) c =
      subst (λ (x : ℕ × Dependencies). Conflict table d x.1 → Reaches h m x.0) (sym e) after.0 c
  After-Reaches (cons i is) (k ∷ ks) m n d d' after (inr later) c =
      After-Reaches is ks m n d d' after.1 later c

  Ordered-Reaches :
      (is : Instructions) (ns : List ℕ) (m n : ℕ) (d d' : Dependencies)
      → Ordered table h is ns
      → Precedes is ns m d n d'
      → Conflict table d d'
      → Reaches h m n
  Ordered-Reaches nil ns m n d d' ordered here c = elim here [ ]
  Ordered-Reaches (cons i is) [] m n d d' ordered here c = elim here [ ]
  Ordered-Reaches (cons i is) (k ∷ ks) m n d d' ordered (inl (e, at)) c =
      subst (λ (x : ℕ × Dependencies). Conflict table x.1 d' → Reaches h x.0 n) (sym e)
        (After-Reaches is ks k n (fields i).dependencies d' ordered.0 at) c
  Ordered-Reaches (cons i is) (k ∷ ks) m n d d' ordered (inr later) c =
      Ordered-Reaches is ks m n d d' ordered.1 later c

create_nodes-length :
    (g : ℕ) (is_loop : Bool) (is : Instructions) (w : World)
    → length (create_nodes g is_loop is w).0 ≡ length (to_list is)
unfolding create_nodes
create_nodes-length g is_loop nil w = refl
create_nodes-length g is_loop (cons i is) w = ap (λ k. suc k) (create_nodes-length g is_loop is _)

module _ (clang : Clang) (table : Elements) (is_loop : Bool) (is : Instructions) (w : World) where
  -- In the graph that `InstructionToGraph` makes of a list of instructions, which may have scopes of
  -- their own, from empty maps and a heap whose links all start at nodes created before: if of two
  -- instructions of the list one writes an element that the other reads or writes, there is a path
  -- from the node of the first to the node of the second.
  pub instruction_to_graph-Reaches :
      (m n : ℕ) (d d' : Dependencies)
      → IsAllocated w
      → Precedes is (instruction_to_graph clang table is_loop is (w, no_uses)).0.nodes m d n d'
      → Conflict table d d'
      → Reaches (instruction_to_graph clang table is_loop is (w, no_uses)).1.heap m n
  instruction_to_graph-Reaches m n d d' allocated =
      Ordered-Reaches table _ is _ m n d d'
        (instruction_to_graph-Ordered clang table is_loop is w allocated)

  -- The graph has as many nodes as there are instructions in the list.
  pub instruction_to_graph-length :
      length (instruction_to_graph clang table is_loop is (w, no_uses)).0.nodes
      ≡ length (to_list is)
  unfolding instruction_to_graph graph_of
  instruction_to_graph-length = create_nodes-length _ is_loop is _
