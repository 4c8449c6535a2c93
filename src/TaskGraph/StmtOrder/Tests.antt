-- ===== src/TaskGraph/StmtOrder/Tests.antt =====
-- The theorems on the groups of statements at two statements, of which the second is a loop.
use apac.Prelude.{ℕ, ◌≡◌, refl, false, ◌==◌, some, arith}
use apac.Prelude.{[], ◌∷◌, none}
use apac.TaskGraph.Instruction.{Clang, Instruction, instruction, nil}
use apac.TaskGraph.Node.{Heap}
use apac.TaskGraph.StmtOrder.{get_node, add_node_to_group}
use apac.TaskGraph.StmtOrder.Queries.{get_node-add_node_to_group}
use apac.TaskGraph.StmtOrder.{
  StmtOrder, Orders, new_order, add_instruction_to_manager, move_instruction,
}
use apac.TaskGraph.StmtOrder.Groups.{IsLinked, IsCounted}
use apac.TaskGraph.StmtOrder.Moves.{
  AreApart, move_instruction-IsLinked, add_instruction_to_manager-IsLinked,
}

-- The statement 7 is a loop; a statement begins at its own number.
abbrev clang : Clang
clang = record {
  begin_loc = λ s. s;
  is_for_stmt = λ s. s == 7;
  is_if_stmt = λ s. false;
  is_compound_stmt = λ s. false;
}

abbrev no_orders : Orders
no_orders = record { order_at = λ k. new_order; next_order = 0 }

new_order-IsLinked : IsLinked new_order
new_order-IsLinked s g e = cc

new_order-IsCounted : IsCounted new_order
new_order-IsCounted g above = refl

abbrev one_statement : StmtOrder
one_statement = (add_instruction_to_manager clang 3 new_order no_orders).0

add_instruction_to_manager-IsLinked_example : IsLinked one_statement × IsCounted one_statement
add_instruction_to_manager-IsLinked_example =
    add_instruction_to_manager-IsLinked clang 3 new_order no_orders new_order-IsLinked
      new_order-IsCounted

one_statement-IsLinked : IsLinked one_statement × IsCounted one_statement
one_statement-IsLinked =
    add_instruction_to_manager-IsLinked clang 3 new_order no_orders new_order-IsLinked
      new_order-IsCounted

abbrev two_statements : StmtOrder
two_statements = (add_instruction_to_manager clang 7 one_statement no_orders).0

two_statements-IsLinked : IsLinked two_statements
two_statements-IsLinked =
    (add_instruction_to_manager-IsLinked clang 7 one_statement no_orders one_statement-IsLinked.0
      one_statement-IsLinked.1).0

apart : AreApart clang 3 7 two_statements
unfolding add_instruction_to_manager
apart = (0, 1, refl, refl, λ e. ground arith)

move_instruction-IsLinked_example :
    IsLinked (move_instruction clang (some 3) (some 7) two_statements)
    × ((g : ℕ) × ((move_instruction clang (some 3) (some 7) two_statements).instruction_links 3
          ≡ some g)
        × ((move_instruction clang (some 3) (some 7) two_statements).instruction_links 7 ≡ some g))
move_instruction-IsLinked_example =
    move_instruction-IsLinked clang 3 7 two_statements two_statements-IsLinked apart

abbrev statement : Instruction
statement =
    instruction
      (record {
        statement = 3;
        instruction_string = "";
        complex_instruction = false;
        no_fusion = false;
        scoped_instructions_number = 0;
        dependencies = [];
        cur_aliases = [];
      })
      nil

abbrev nodes : Heap
nodes n = record {
  graph_id = 0;
  id = n;
  is_looped = false;
  next = [];
  prev = [];
  graph = [];
  instruction = "";
  instruction_ptr = statement ∷ [];
  dependencies = [];
  in_out_dep = [];
  in_dep = [];
}

one_statement_link : one_statement.instruction_links 3 ≡ some 0
unfolding add_instruction_to_manager
one_statement_link = refl

one_statement_node : one_statement.nodes_group 0 ≡ none
unfolding add_instruction_to_manager
one_statement_node = refl

get_node-add_node_to_group_example :
    get_node 3 (add_node_to_group nodes (some 5) one_statement) ≡ some 5
get_node-add_node_to_group_example =
    get_node-add_node_to_group nodes 5 0 statement [] one_statement refl one_statement_link
      one_statement_node
