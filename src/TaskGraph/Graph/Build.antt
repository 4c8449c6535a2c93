-- ===== src/TaskGraph/Graph/Build.antt =====
-- `InstructionToGraph` (Graph.cpp) with its nested scopes: the order that `Order` shows for one
-- call of `handleInstructionDeps` is kept through the whole construction.
use apac.Prelude.{ℕ, ◌+◌, refl, inl, inr, Bool, true, List, [], ◌∷◌}
use apac.Prelude.{In, Bool-cases}
use apac.TaskGraph.Instruction.{Clang, Instruction, Instructions, instruction, nil, cons, fields}
use apac.TaskGraph.Graph.{
  Elements, Uses, World, no_uses, handle_deps, create_nodes, graph_of, link_instruction,
  link_instructions,
}
use apac.TaskGraph.Graph.Order.{History}
use apac.TaskGraph.Graph.Alloc.{create_nodes-Created}
use apac.TaskGraph.Graph.Extends.{
  Ready, Extends, handle_deps-Extends, Ready-head, Extends-refl, Ready-next, Extends-trans,
  Ready-scope, Extends-scope, Extends-apart, Ready-apart, Extends-add_subgraph,
}

module _ (table : Elements) where
  pub graph_of-Extends :
      (is_loop : Bool) (is : Instructions) (link : List ℕ → World × Uses → World × Uses)
      (hist : History) (w : World) (uses : Uses)
      → Ready table hist [] w uses
      → ((ns : List ℕ) (w' : World)
          → Ready table hist ns w' uses
          → Extends table hist ns w' (link ns (w', uses)).0 (link ns (w', uses)).1)
      → Extends table hist [] w
          (graph_of is_loop is link (w, uses)).1
          (graph_of is_loop is link (w, uses)).2
  unfolding graph_of
  graph_of-Extends is_loop is link hist w uses ready step =
      let w1 : World = record w { next_graph_id = w.next_graph_id + 1 } in
      let ready1 : Ready table hist [] w1 uses = record {
        inv = ready.inv;
        bounded = ready.bounded;
        sources = ready.sources;
        pending = ready.pending;
        distinct = tt;
      } in
      let c = create_nodes-Created w.next_graph_id is_loop is w1 in
      let made = create_nodes w.next_graph_id is_loop is w1 in
      let x =
        Extends-scope table made.0 hist w1 made.1 (link made.0 (made.1, uses)).0 uses
          (link made.0 (made.1, uses)).1 ready1 c
          (step made.0 made.1 (Ready-scope table made.0 hist w1 made.1 uses ready1 c)) in
      record {
        hist' = x.hist';
        more = x.more;
        new = x.new;
        bounded = x.bounded;
        sources = x.sources;
        inv = x.inv;
        counter = x.counter;
        links = x.links;
      }

module _ (clang : Clang) (table : Elements) where
  abbrev pub after_deps : Instruction → ℕ → World × Uses → World × Uses
  after_deps i n s = handle_deps clang table n (fields i).dependencies s

  -- The dependencies of an instruction, and then its scope.
  pub head-Extends :
      (i : Instruction) (n : ℕ) (hist : History) (w w2 : World) (uses u2 : Uses)
      → Ready table hist (n ∷ []) w uses
      → ((hist1 : History)
          → Ready table hist1 [] (after_deps i n (w, uses)).0 (after_deps i n (w, uses)).1
          → Extends table hist1 [] (after_deps i n (w, uses)).0 w2 u2)
      → Extends table hist (n ∷ []) w w2 u2
  head-Extends i n hist w w2 uses u2 ready scope =
      let (w1, u1) = after_deps i n (w, uses) in
      let x = handle_deps-Extends table n (fields i).dependencies hist w uses ready in
      Extends-trans table n [] hist w w1 w2 u1 u2 x
        (scope x.hist' (Ready-next table n [] hist w w1 uses u1 ready x))

  pub head-In :
      (i : Instruction) (n : ℕ) (hist : History) (w w2 : World) (uses u2 : Uses)
      (ready : Ready table hist (n ∷ []) w uses)
      (scope : (hist1 : History)
        → Ready table hist1 [] (after_deps i n (w, uses)).0 (after_deps i n (w, uses)).1
        → Extends table hist1 [] (after_deps i n (w, uses)).0 w2 u2)
      → In (n, (fields i).dependencies) (head-Extends i n hist w w2 uses u2 ready scope).hist'
  unfolding head-Extends Extends-trans handle_deps-Extends
  head-In i n hist w w2 uses u2 ready scope =
      let (w1, u1) = after_deps i n (w, uses) in
      let x = handle_deps-Extends table n (fields i).dependencies hist w uses ready in
      (scope x.hist' (Ready-next table n [] hist w w1 uses u1 ready x)).more n
        (fields i).dependencies (inl refl)

  mutual
    unfolding link_instruction

    -- The subgraphs of an instruction, after its own dependencies.
    pub link_instruction-scope :
        (i : Instruction) (is_loop : Bool) (n : ℕ) (hist : History) (s : World × Uses)
        → Ready table hist [] (after_deps i n s).0 (after_deps i n s).1
        → Extends table hist []
            (after_deps i n s).0
            (link_instruction clang table i is_loop n s).0
            (link_instruction clang table i is_loop n s).1
    link_instruction-scope (instruction f scoped) is_loop n hist s ready =
        let (w, uses) = after_deps (instruction f scoped) n s in
        let link = λ (l : Bool). link_instructions clang table scoped l in
        elim (Bool-cases f.complex_instruction) [
          | inr simple ↦ rw simple (Extends-refl table [] hist w uses ready)
          | inl complex ↦ elim (Bool-cases (clang.is_for_stmt f.statement)) [
            | inl loop ↦
                let r = graph_of true scoped (link true) (w, no_uses) in
                let x : Extends table [] [] w r.1 r.2 =
                  graph_of-Extends table true scoped (link true) [] w no_uses
                    (Ready-apart table hist w uses ready)
                    (λ ns w'. link_instructions-Extends scoped true ns [] w' no_uses) in
                rw complex (
                  rw loop (
                    Extends-add_subgraph table n r.0 [] hist w r.1 uses
                      (Extends-apart table hist w r.1 uses r.2 ready x)))
            | inr scope ↦
                let r = graph_of is_loop scoped (link is_loop) (w, uses) in
                rw complex (
                  rw scope (
                    Extends-add_subgraph table n r.0 [] hist w r.1 r.2 (
                      graph_of-Extends table is_loop scoped (link is_loop) hist w uses ready
                        (λ ns w'. link_instructions-Extends scoped is_loop ns hist w' uses))))
          ]
        ]

    pub link_instructions-Extends :
        (is : Instructions) (is_loop : Bool) (ns : List ℕ) (hist : History) (w : World)
        (uses : Uses)
        → Ready table hist ns w uses
        → Extends table hist ns w
            (link_instructions clang table is is_loop ns (w, uses)).0
            (link_instructions clang table is is_loop ns (w, uses)).1
    link_instructions-Extends nil is_loop ns hist w uses ready =
        Extends-refl table ns hist w uses ready
    link_instructions-Extends (cons i is) is_loop [] hist w uses ready =
        Extends-refl table [] hist w uses ready
    link_instructions-Extends (cons i is) is_loop (n ∷ ns) hist w uses ready =
        let (w2, u2) = link_instruction clang table i is_loop n (w, uses) in
        let x =
          head-Extends i n hist w w2 uses u2 (Ready-head table n ns hist w uses ready)
            (λ hist1. link_instruction-scope i is_loop n hist1 (w, uses)) in
        let s' = link_instructions clang table is is_loop ns (w2, u2) in
        Extends-trans table n ns hist w w2 s'.0 u2 s'.1 x (
          link_instructions-Extends is is_loop ns x.hist' w2 u2
            (Ready-next table n ns hist w w2 uses u2 ready x))
