-- ===== src/TaskGraph/Graph/Preserves.antt =====
-- `InstructionToGraph` (Graph.cpp) keeps the order of the instructions that conflict.
use apac.Prelude.{ℕ, ◌+◌, ◌<◌, refl, inl, Bool, List, [], ◌∷◌, In}
use apac.TaskGraph.Instruction.{Clang, Dependencies, Instruction, Instructions, nil, cons, fields}
use apac.TaskGraph.Node.{Heap}
use apac.TaskGraph.Node.Link.{Link, Reaches, Reaches-mono}
use apac.TaskGraph.Graph.{
  Elements, Uses, Linking, World, no_uses, create_nodes, graph_of, link_instruction,
  link_instructions, instruction_to_graph, handle_instruction_deps,
}
use apac.TaskGraph.Graph.Handled.{handle_instruction_deps-Handled}
use apac.TaskGraph.Graph.Order.{History, Conflict, Conflict-Reaches}
use apac.TaskGraph.Graph.Alloc.{create_nodes-Created}
use apac.TaskGraph.Graph.Extends.{
  Ready, Extends, Inv-empty, Ready-head, Ready-next, Ready-scope, handle_deps-Extends,
}
use apac.TaskGraph.Graph.Build.{
  after_deps, head-Extends, head-In, link_instruction-scope, link_instructions-Extends,
}

-- `n` comes after the node of `d` in `h` where the two conflict, for each later instruction.
abbrev pub After : Elements → Heap → ℕ → Dependencies → Instructions → List ℕ → Type 0
After table h m d nil [] = Unit
After table h m d (cons i is) (n ∷ ns) =
    (Conflict table d (fields i).dependencies → Reaches h m n) × After table h m d is ns
After table h m d _ _ = ⊥

-- Of two instructions that conflict, there is a path from the node of the first to that of the
-- second.
abbrev pub Ordered : Elements → Heap → Instructions → List ℕ → Type 0
Ordered table h nil [] = Unit
Ordered table h (cons i is) (n ∷ ns) =
    After table h n (fields i).dependencies is ns × Ordered table h is ns
Ordered table h _ _ = ⊥

-- One node for each instruction.
abbrev Paired : Instructions → List ℕ → Type 0
Paired nil [] = Unit
Paired (cons i is) (n ∷ ns) = Paired is ns
Paired _ _ = ⊥

create_nodes-Paired :
    (g : ℕ) (is_loop : Bool) (is : Instructions) (w : World)
    → Paired is (create_nodes g is_loop is w).0
unfolding create_nodes
create_nodes-Paired g is_loop nil w = tt
create_nodes-Paired g is_loop (cons i is) w = create_nodes-Paired g is_loop is _

module _ (clang : Clang) (table : Elements) where
  link_instruction-Reaches :
      (i : Instruction) (is_loop : Bool) (n : ℕ) (hist : History) (w : World) (uses : Uses) (m : ℕ)
      (d : Dependencies)
      → Ready table hist (n ∷ []) w uses
      → In (m, d) hist
      → Conflict table d (fields i).dependencies
      → Reaches (link_instruction clang table i is_loop n (w, uses)).0.heap m n
  link_instruction-Reaches i is_loop n hist w uses m d ready at c =
      let deps = (fields i).dependencies in
      let (w1, u1) = after_deps clang table i n (w, uses) in
      let x = handle_deps-Extends table n deps hist w uses ready in
      let before : Linking = record { heap = w.heap; uses = uses } in
      let p =
        Conflict-Reaches table hist before (handle_instruction_deps table n deps before) n deps
          ready.inv (ready.pending n (inl refl)).0
          (handle_instruction_deps-Handled table n deps before) m d at c in
      let scope =
        link_instruction-scope clang table i is_loop n x.hist' (w, uses)
          (Ready-next table n [] hist w w1 uses u1 ready x) in
      Reaches-mono scope.links p

  -- The state after the first of the nodes.
  head :
      (i : Instruction) (is_loop : Bool) (n : ℕ) (ns : List ℕ) (hist : History) (w : World)
      (uses : Uses)
      → Ready table hist (n ∷ ns) w uses
      → Extends table hist
          (n ∷ [])
          w
          (link_instruction clang table i is_loop n (w, uses)).0
          (link_instruction clang table i is_loop n (w, uses)).1
  head i is_loop n ns hist w uses ready =
      head-Extends clang table i n hist w _ uses _ (Ready-head table n ns hist w uses ready)
        (λ hist1. link_instruction-scope clang table i is_loop n hist1 (w, uses))

  link_instructions-After :
      (is : Instructions) (is_loop : Bool) (ns : List ℕ) (hist : History) (w : World) (uses : Uses)
      (m : ℕ) (d : Dependencies)
      → Paired is ns
      → Ready table hist ns w uses
      → In (m, d) hist
      → After table (link_instructions clang table is is_loop ns (w, uses)).0.heap m d is ns
  unfolding link_instructions
  link_instructions-After nil is_loop [] hist w uses m d paired ready at = tt
  link_instructions-After nil is_loop (n ∷ ns) hist w uses m d paired ready at = elim paired [ ]
  link_instructions-After (cons i is) is_loop [] hist w uses m d paired ready at = elim paired [ ]
  link_instructions-After (cons i is) is_loop (n ∷ ns) hist w uses m d paired ready at =
      let (w2, u2) = link_instruction clang table i is_loop n (w, uses) in
      let x = head i is_loop n ns hist w uses ready in
      let next = Ready-next table n ns hist w w2 uses u2 ready x in
      (
        λ c.
            Reaches-mono
              (link_instructions-Extends clang table is is_loop ns x.hist' w2 u2 next).links
              (link_instruction-Reaches i is_loop n hist w uses m d
                (Ready-head table n ns hist w uses ready) at c),
        link_instructions-After is is_loop ns x.hist' w2 u2 m d paired next (x.more m d at),
      )

  link_instructions-Ordered :
      (is : Instructions) (is_loop : Bool) (ns : List ℕ) (hist : History) (w : World) (uses : Uses)
      → Paired is ns
      → Ready table hist ns w uses
      → Ordered table (link_instructions clang table is is_loop ns (w, uses)).0.heap is ns
  unfolding link_instructions head
  link_instructions-Ordered nil is_loop [] hist w uses paired ready = tt
  link_instructions-Ordered nil is_loop (n ∷ ns) hist w uses paired ready = elim paired [ ]
  link_instructions-Ordered (cons i is) is_loop [] hist w uses paired ready = elim paired [ ]
  link_instructions-Ordered (cons i is) is_loop (n ∷ ns) hist w uses paired ready =
      let (w2, u2) = link_instruction clang table i is_loop n (w, uses) in
      let x = head i is_loop n ns hist w uses ready in
      let next = Ready-next table n ns hist w w2 uses u2 ready x in
      (
        link_instructions-After is is_loop ns x.hist' w2 u2 n (fields i).dependencies paired next (
            head-In clang table i n hist w w2 uses u2 (Ready-head table n ns hist w uses ready)
              (λ hist1. link_instruction-scope clang table i is_loop n hist1 (w, uses))),
        link_instructions-Ordered is is_loop ns x.hist' w2 u2 paired next,
      )

-- Links start only at nodes that have been created.
abbrev pub IsAllocated : World → Type 0
IsAllocated w = (m k : ℕ) → Link w.heap m k → m < w.next_node_id

-- In the graph that `InstructionToGraph` makes of a list of instructions, with any nested scopes,
-- from maps that are empty and a heap whose links start at nodes created before: there is one node
-- for each instruction, and if of two instructions one writes an element that the other reads or
-- writes, there is a path from the node of the earlier to the node of the later one.
pub instruction_to_graph-Ordered :
    (clang : Clang) (table : Elements) (is_loop : Bool) (is : Instructions) (w : World)
    → IsAllocated w
    → Ordered table
        (instruction_to_graph clang table is_loop is (w, no_uses)).1.heap
        is
        (instruction_to_graph clang table is_loop is (w, no_uses)).0.nodes
unfolding instruction_to_graph graph_of
instruction_to_graph-Ordered clang table is_loop is w allocated =
    let w1 : World = record w { next_graph_id = w.next_graph_id + 1 } in
    let ready : Ready table [] [] w1 no_uses = record {
      inv = Inv-empty table w.heap;
      bounded = λ m known. absurd known.1;
      sources = allocated;
      pending = λ n i. absurd i;
      distinct = tt;
    } in
    let (ns, w2) = create_nodes w.next_graph_id is_loop is w1 in
    link_instructions-Ordered clang table is is_loop ns [] w2 no_uses
      (create_nodes-Paired w.next_graph_id is_loop is w1)
      (Ready-scope table ns [] w1 w2 no_uses ready
        (create_nodes-Created w.next_graph_id is_loop is w1))
