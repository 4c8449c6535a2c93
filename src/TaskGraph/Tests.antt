-- ===== src/TaskGraph/Tests.antt =====
-- The theorems on the task graph at a small program: `a = 4; b = a; a = 5;`, with the variables
-- `a` (element 0) and `b` (element 1).
use apac.Prelude.{
  ℕ, zero, suc, ap, ◌↔◌, ◌≡◌, refl, ◌⊎◌, inl, inr, arith, true, false, none, some, List, [], ◌∷◌,
  In,
}
use apac.TaskGraph.AliasArg.{AliasArg, AliasType}
use apac.TaskGraph.Instruction.{
  Clang, NodeDependency, Dependencies, Instruction, Instructions, instruction, nil, cons,
}
use apac.TaskGraph.Node.{Node, Heap, set_link, add_prev, add_link, compute_in_out_in_dep}
use apac.TaskGraph.Node.Link.{Link, Reaches, IsMirrored, add_link-IsMirrored}
use apac.TaskGraph.Node.Shares.{SharesWithPrev, IsInOut, compute_in_out_in_dep-shared}
use apac.TaskGraph.Node.Clauses.{write_link-clauses, first_read-no_clause}
use apac.TaskGraph.Graph.{
  visit_dep, visit_child, visit_parent, link_read, link_write, link_from, Elements, Linking, World,
  no_uses, instruction_to_graph, graph_of, create_nodes, handle_instruction_deps,
}
use apac.TaskGraph.Graph.Order.{Inv, Known, Conflict}
use apac.TaskGraph.Graph.Extends.{Inv-empty}
use apac.TaskGraph.Graph.Preserves.{IsAllocated}
use apac.TaskGraph.Graph.Conflicts.{
  handle_instruction_deps-Inv, handle_instruction_deps-Reaches, handle_instruction_deps-Link,
  instruction_to_graph-Reaches,
}

abbrev scalar : ℕ → AliasArg
scalar e = record {
  has_unknown_index = false;
  declaration = e;
  alias_type = AliasType.variable;
  indexes = [];
  index_string = "";
  expression = none;
  id = e;
  pointers = [];
  references = [];
  aliased = [];
}

-- Variables with no array elements.
abbrev scalars : Elements
scalars = record { args = scalar; parents = λ e. []; children = λ e. e ∷ [] }

abbrev no_class : Clang
no_class = record {
  begin_loc = λ s. s;
  is_for_stmt = λ s. false;
  is_if_stmt = λ s. false;
  is_compound_stmt = λ s. false;
}

abbrev reading : NodeDependency
reading = record { is_read = true; is_write = false }

abbrev writing : NodeDependency
writing = record { is_read = false; is_write = true }

abbrev set_a : Dependencies
set_a = (0, writing) ∷ []

abbrev set_b : Dependencies
set_b = (0, reading) ∷ (1, writing) ∷ []

abbrev simple : ℕ → Dependencies → Instruction
simple s deps =
    instruction
      (record {
        statement = s;
        instruction_string = "";
        complex_instruction = false;
        no_fusion = false;
        scoped_instructions_number = 0;
        dependencies = deps;
        cur_aliases = [];
      })
      nil

abbrev program : Instructions
program = cons (simple 0 set_a) (cons (simple 1 set_b) (cons (simple 2 set_a) nil))

abbrev node_of : Dependencies → List (ℕ × Dependencies) → List ℕ → ℕ → Node
node_of deps next prev n = record {
  graph_id = 0;
  id = n;
  is_looped = false;
  next = next;
  prev = prev;
  graph = [];
  instruction = "";
  instruction_ptr = [];
  dependencies = deps;
  in_out_dep = [];
  in_dep = [];
}

abbrev no_links : Heap
no_links n = node_of [] [] [] n

abbrev start : World
start = record { next_node_id = 0; next_graph_id = 0; heap = no_links }

start-IsAllocated : IsAllocated start
start-IsAllocated m k l = cc

instruction_to_graph-Reaches_example :
    Reaches (instruction_to_graph no_class scalars false program (start, no_uses)).1.heap 1 2
unfolding instruction_to_graph graph_of create_nodes
instruction_to_graph-Reaches_example =
    instruction_to_graph-Reaches no_class scalars false program start 1 2 set_b set_a
      start-IsAllocated (inr (inl (refl, inl refl)))
      (
        0,
        inr (
            inr (
              ((0, reading), inl refl, refl, inr (inl refl)),
              ((0, writing), inl refl, refl, inl refl),
            )),
      )

abbrev first : Linking
first = record { heap = no_links; uses = no_uses }

first-Inv : Inv scalars [] first
first-Inv = Inv-empty scalars no_links

abbrev second : Linking
second = handle_instruction_deps scalars 0 set_a first

not-Known : (n : ℕ) → ¬ Known [] n
not-Known n known = known.1

second-Inv : Inv scalars ((0, set_a) ∷ []) second
second-Inv = handle_instruction_deps-Inv scalars [] first 0 set_a first-Inv (not-Known 0)

new_node_1 : ¬ Known ((0, set_a) ∷ []) 1
new_node_1 (d, inl e) = let no_way : ◌≡◌ {A = ℕ} 1 0 = (λ j. (e j).0) in ground arith
new_node_1 (d, inr i) = i

handle_instruction_deps-Inv_example :
    Inv scalars ((1, set_b) ∷ (0, set_a) ∷ []) (handle_instruction_deps scalars 1 set_b second)
handle_instruction_deps-Inv_example =
    handle_instruction_deps-Inv scalars ((0, set_a) ∷ []) second 1 set_b second-Inv new_node_1

handle_instruction_deps-Reaches_example :
    Reaches (handle_instruction_deps scalars 1 set_b second).heap 0 1
handle_instruction_deps-Reaches_example =
    handle_instruction_deps-Reaches scalars ((0, set_a) ∷ []) second 1 set_b 0 set_a second-Inv
      new_node_1 (inl refl)
      (
        0,
        inl (
          ((0, writing), inl refl, refl, inl refl),
          ((0, reading), inl refl, refl, inr (inl refl)),
        ),
      )

second-Link : Link (handle_instruction_deps scalars 1 set_b second).heap 0 1
unfolding handle_instruction_deps visit_dep visit_child visit_parent link_read link_write link_from
    add_link set_link add_prev
second-Link = refl

handle_instruction_deps-Link_example :
    Link second.heap 0 1
    ⊎ (◌≡◌ {A = ℕ} 1 1)
      × ((d : Dependencies) × In {A = ℕ × Dependencies} (0, d) ((0, set_a) ∷ [])
          × Conflict scalars d set_b)
handle_instruction_deps-Link_example =
    handle_instruction_deps-Link scalars ((0, set_a) ∷ []) second 1 set_b 0 1 second-Inv new_node_1
      second-Link

no_links-IsMirrored : IsMirrored no_links
no_links-IsMirrored m n = (λ l. cc, λ i. elim i [ ])

add_link-IsMirrored_example : IsMirrored (add_link no_links 0 0 1 true false (some 0))
add_link-IsMirrored_example =
    add_link-IsMirrored no_links 0 1 true false (some 0) no_links-IsMirrored

-- `a = 4; b = a;` with its link, on the element `a`.
abbrev linked : Heap
linked zero = node_of set_a ((1, set_a) ∷ []) [] 0
linked (suc zero) = node_of set_b [] (0 ∷ []) 1
linked (suc (suc n)) = node_of [] [] [] n

linked-IsMirrored : IsMirrored linked
linked-IsMirrored zero zero = (λ l. cc, λ i. elim i [ ])
linked-IsMirrored zero (suc zero) = (λ l. inl refl, λ i. refl)
linked-IsMirrored zero (suc (suc n)) = (λ l. ground arith, λ i. elim i [ ])
linked-IsMirrored (suc zero) zero = (λ l. cc, λ i. elim i [ ])
linked-IsMirrored (suc zero) (suc zero) = (λ l. cc, λ i. ground arith)
linked-IsMirrored (suc zero) (suc (suc n)) = (λ l. cc, λ i. elim i [ ])
linked-IsMirrored (suc (suc m)) zero = (λ l. cc, λ i. elim i [ ])
linked-IsMirrored (suc (suc m)) (suc zero) = (λ l. cc, λ i. ground arith)
linked-IsMirrored (suc (suc m)) (suc (suc n)) = (λ l. cc, λ i. elim i [ ])

write_link-clauses_example :
    In 0 (compute_in_out_in_dep scalar linked 0 0).in_out_dep
    × (In 0 (compute_in_out_in_dep scalar linked 1 1).in_dep
        ⊎ In 0 (compute_in_out_in_dep scalar linked 1 1).in_out_dep)
write_link-clauses_example =
    write_link-clauses scalar linked 0 1 0 writing reading linked-IsMirrored refl (inl refl) refl
      (inl refl)

-- `b = a; a = 5;` where the first task reads `a` and the second writes it.
abbrev read_first : Heap
read_first zero = node_of set_b ((1, set_a) ∷ []) [] 0
read_first (suc zero) = node_of set_a [] (0 ∷ []) 1
read_first (suc (suc n)) = node_of [] [] [] n

set_b-reads : (d : NodeDependency) → In (0, d) set_b → d.is_write ≡ false
set_b-reads d (inl e) = ap (λ (x : ℕ × NodeDependency). x.1.is_write) e
set_b-reads d (inr (inl e)) = let no_way : ◌≡◌ {A = ℕ} 0 1 = (λ j. (e j).0) in ground arith
set_b-reads d (inr (inr x)) = absurd x

first_read-no_clause_example :
    (¬ In 0 (compute_in_out_in_dep scalar read_first 0 0).in_out_dep)
    × (¬ In 0 (compute_in_out_in_dep scalar read_first 0 0).in_dep)
first_read-no_clause_example = first_read-no_clause scalar read_first 0 0 refl refl refl set_b-reads

compute_in_out_in_dep-shared_example :
    (In 0 (compute_in_out_in_dep scalar linked 1 1).in_out_dep
      ↔ (In {A = ℕ} 0 [] ⊎ IsInOut scalar linked 1 0))
    × (In 0 (compute_in_out_in_dep scalar linked 1 1).in_dep ↔ (
        In {A = ℕ} 0 []
        ⊎ ((d : NodeDependency) × In (0, d) set_b
            × SharesWithPrev scalar linked 1 0
            × (¬ In 0 (compute_in_out_in_dep scalar linked 1 1).in_out_dep))))
compute_in_out_in_dep-shared_example = compute_in_out_in_dep-shared scalar linked 1 0
