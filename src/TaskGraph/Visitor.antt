-- ===== src/TaskGraph/Visitor.antt =====
-- transforms/TaskGraph: ASTTaskGraphVisitor.hpp and ASTTaskGraphVisitor.cpp: the dependencies of an
-- instruction, and the traversal of declarations, gotos and for statements. `TraverseStmt` of clang,
-- which calls these again for what stands in a statement, is a parameter.
pub mod Dependency
pub mod Merged
pub mod Adds
pub mod Scopes
mod Tests
use Prim.Native.String.{String}
use apac.Prelude.{
  ℕ, suc, ◌+◌, Bool, true, false, not, ◌&&◌, ◌||◌, Option, none, some, List, [], ◌∷◌, ◌++◌,
}
use apac.Prelude.{if◌then◌else◌, length, foldl, ◌==◌}
use apac.Prelude.Maps.{lookup, put, update}
use apac.TaskGraph.Instruction.{
  Clang, NodeDependency, Dependencies, Fields, Instruction, Instructions, instruction, nil, cons,
  fields, scoped_instructions, to_list,
}
use apac.TaskGraph.AliasTable.Aliases.{Store}
use apac.TaskGraph.AliasTable.Queries.{get_aliases}
use apac.TaskGraph.StmtOrder.{StmtOrder, Orders, add_instruction_to_manager, get_sub_stmt_order}

-- The loop over the aliases.
abbrev pub read_alias : Dependencies → ℕ → Dependencies
read_alias deps e = elim (lookup e deps) [
  | none ↦ put e (record { is_read = true; is_write = false }) deps
  | some d ↦ put e (record d { is_read = true }) deps
]

abbrev pub write_alias : Dependencies → ℕ → Dependencies
write_alias deps e = elim (lookup e deps) [
  | none ↦ put e (record { is_read = false; is_write = true }) deps
  | some d ↦ put e (record d { is_write = true }) deps
]

-- On the dependencies of the instruction; `none` is out of fuel in `getAliases`.
unfoldable pub add_dependency_read : Store → ℕ → Dependencies → ℕ → Option Dependencies
add_dependency_read s fuel deps d = elim (get_aliases s fuel d) [
  | none ↦ none
  | some aliases ↦ some (foldl read_alias deps aliases)
]

unfoldable pub add_dependency_write : Store → ℕ → Dependencies → ℕ → Option Dependencies
add_dependency_write s fuel deps d = elim (get_aliases s fuel d) [
  | none ↦ none
  | some aliases ↦ some (foldl write_alias deps aliases)
]

-- `unordered_map::insert` keeps what is there.
abbrev pub insert_dependency : Dependencies → ℕ × NodeDependency → Dependencies
insert_dependency deps (e, d) = elim (lookup e deps) [ none ↦ put e d deps | some _ ↦ deps ]

abbrev pub insert_dependencies : Dependencies → List Instruction → Dependencies
insert_dependencies deps [] = deps
insert_dependencies deps (i ∷ is) =
    insert_dependencies (foldl insert_dependency deps (fields i).dependencies) is

-- `scopedInstructionsNumber`
abbrev pub scoped_number : ℕ → List Instruction → ℕ
scoped_number n [] = n
scoped_number n (i ∷ is) =
    scoped_number
      (if (fields i).complex_instruction
        then suc (n + length (to_list (scoped_instructions i)))
        else suc n)
      is

abbrev pub from_list : List Instruction → Instructions
from_list [] = nil
from_list (i ∷ is) = cons i (from_list is)

-- The state: the orders of statements, which of them is the current one, the flag, and the vectors of
-- instructions, the innermost first.
pub record State : Type 0 where
  pub orders : Orders
  pub current_order_manager : ℕ
  pub ignore_stmt_pragma : Bool
  pub functions_instructions : List (List Instruction)

-- What the traversal asks of the source.
pub record Statements : Type 0 where
  pub clang : Clang
  pub is_in_headers : ℕ → Bool
  pub elements_conditions : ℕ → Bool
  pub stmt_as_string : ℕ → String
  -- `getCond`, `getInc`, `getInit` and `getBody` of a for statement
  pub cond : ℕ → ℕ
  pub inc : ℕ → ℕ
  pub init : ℕ → ℕ
  pub body : ℕ → ℕ

module _ (st : Statements) where
  -- `currentOrderManager->addInstructionToManager(s)`
  abbrev pub add_to_current : ℕ → State → State
  add_to_current s v =
      let (o, orders') =
        add_instruction_to_manager st.clang s (v.orders.order_at v.current_order_manager)
          v.orders in
      record v {
        orders = record orders' { order_at = update orders'.order_at v.current_order_manager o };
      }

  abbrev pub add_unless_ignored : ℕ → State → State
  add_unless_ignored s v = if v.ignore_stmt_pragma then v else add_to_current s v

  -- `TraverseDeclStmt` and `TraverseGotoStmt`
  unfoldable pub traverse_decl_stmt : ℕ → State → State
  traverse_decl_stmt d v = if st.elements_conditions d then add_unless_ignored d v else v

  -- The order of a statement becomes the current one, if it has one.
  abbrev pub enter_order : ℕ → State → State
  enter_order s v = elim (get_sub_stmt_order s (v.orders.order_at v.current_order_manager)) [
    | none ↦ v
    | some sub ↦ record v { current_order_manager = sub }
  ]

  abbrev pub open_scope : State → State
  open_scope v = record v { functions_instructions = [] ∷ v.functions_instructions }

  abbrev pub with_flag : Bool → State → State
  with_flag b v = record v { ignore_stmt_pragma = b }

  -- The instruction of a for statement with these instructions in it.
  abbrev pub for_instruction : ℕ → List Instruction → Instruction
  for_instruction f scoped =
      instruction
        (record {
          statement = f;
          instruction_string = st.stmt_as_string f;
          complex_instruction = true;
          no_fusion = true;
          scoped_instructions_number = scoped_number 0 scoped;
          dependencies = insert_dependencies [] scoped;
          cur_aliases = [];
        })
        (from_list scoped)

  -- `pop_back`, and `back().push_back`: there has to be an outer vector.
  abbrev pub close_scope : (List Instruction → Instruction) → State → Option State
  close_scope comp v = elim v.functions_instructions [
    | [] ↦ none
    | scoped ∷ outer ↦ elim outer [
      | [] ↦ none
      | back ∷ rest ↦ some (record v { functions_instructions = (back ++ comp scoped ∷ []) ∷ rest })
    ]
  ]

  -- `a && b` of two traversals.
  abbrev pub and_then : (State → Bool × State) → (State → Bool × State) → State → Bool × State
  and_then a b v = let (ok, v') = a v in elim ok [ true ↦ b v' | false ↦ (false, v') ]

  -- The state when the head of the for statement is traversed.
  abbrev pub enter_for : ℕ → State → State
  enter_for f v = with_flag true (open_scope (enter_order f (add_unless_ignored f v)))

  module _ (traverse_stmt : ℕ → State → Bool × State) where
    abbrev pub traverse_head : ℕ → State → Bool × State
    traverse_head f =
        and_then (traverse_stmt (st.cond f))
          (and_then (traverse_stmt (st.inc f)) (traverse_stmt (st.init f)))

    -- Where a traversal fails, only the flag is restored.
    unfoldable pub traverse_for_stmt : ℕ → State → Option (Bool × State)
    traverse_for_stmt f v =
        let (head_ok, v1) = traverse_head f (enter_for f v) in
        let (body_ok, v2) = traverse_stmt (st.body f) (with_flag false v1) in
        elim (st.is_in_headers f) [
          | true ↦ some (true, v)
          | false ↦ elim head_ok [
            | false ↦ some (false, with_flag v.ignore_stmt_pragma v1)
            | true ↦ elim body_ok [
              | false ↦ some (false, with_flag v.ignore_stmt_pragma v2)
              | true ↦
                  elim (close_scope (for_instruction f) (record v2 {
                    ignore_stmt_pragma = v.ignore_stmt_pragma;
                    current_order_manager = v.current_order_manager;
                  })) [ none ↦ none | some v' ↦ some (true, v') ]
            ]
          ]
        ]
