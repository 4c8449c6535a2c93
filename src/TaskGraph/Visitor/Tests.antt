-- ===== src/TaskGraph/Visitor/Tests.antt =====
-- The theorems on the visitor at `for (...) { ... }`, the statement 0, whose parts add an instruction
-- each, and at two elements, 1, and the reference 2 to it.
use apac.Prelude.{ℕ, ◌≡◌, refl, ◌↔◌, inl, inr, Bool, true, false, none, some, List, [], ◌∷◌, ◌++◌}
use apac.Prelude.{if◌then◌else◌, ◌==◌, In, arith}
use mathlib.Core.Path.{subst}
use apac.TaskGraph.AliasArg.{AliasArg, AliasType}
use apac.TaskGraph.Instruction.{Clang, Instruction, instruction, nil}
use apac.TaskGraph.StmtOrder.{new_order, Orders, add_instruction_to_manager, get_sub_stmt_order}
use apac.TaskGraph.AliasTable.Aliases.{Store}
use apac.TaskGraph.AliasTable.Queries.{get_aliases}
use apac.TaskGraph.AliasTable.Queries.Closure.{Step, Aliases, get_aliases-Aliases}
use apac.TaskGraph.Visitor.{
  State, Statements, for_instruction, traverse_for_stmt, add_dependency_read, add_dependency_write,
}
use apac.TaskGraph.Visitor.Dependency.{IsMarked, mark_read, mark_write, add_dependency-IsMarked}
use apac.TaskGraph.Visitor.Merged.{IsForInstruction}
use apac.TaskGraph.Visitor.Adds.{functions, Appends, Adds}
use apac.TaskGraph.Visitor.Scopes.{scope_instructions, traverse_for_stmt-functions}

abbrev leaf : Instruction
leaf =
    instruction
      (record {
        statement = 9;
        instruction_string = "a = b";
        complex_instruction = false;
        no_fusion = false;
        scoped_instructions_number = 0;
        dependencies = (1, record { is_read = true; is_write = false }) ∷ [];
        cur_aliases = [];
      })
      nil

abbrev add_leaf : List (List Instruction) → List (List Instruction)
add_leaf [] = []
add_leaf (back ∷ rest) = (back ++ leaf ∷ []) ∷ rest

abbrev test_traverse : ℕ → State → Bool × State
test_traverse s v = (true, record v { functions_instructions = add_leaf v.functions_instructions })

abbrev one_leaf : ℕ → State → List Instruction
one_leaf s v = leaf ∷ []

Appends-add_leaf : (fs : List (List Instruction)) → Appends (leaf ∷ []) fs (add_leaf fs)
Appends-add_leaf [] = refl
Appends-add_leaf (back ∷ rest) = refl

test_traverse-Adds : (s : ℕ) → Adds (one_leaf s) (test_traverse s)
test_traverse-Adds s v ok = (refl, refl, Appends-add_leaf v.functions_instructions)

abbrev for_class : Clang
for_class = record {
  begin_loc = λ s. s;
  is_for_stmt = λ s. s == 0;
  is_if_stmt = λ s. false;
  is_compound_stmt = λ s. false;
}

abbrev for_statement : Statements
for_statement = record {
  clang = for_class;
  is_in_headers = λ s. false;
  elements_conditions = λ s. true;
  stmt_as_string = λ s. "for(;;)";
  cond = λ s. 1;
  inc = λ s. 2;
  init = λ s. 3;
  body = λ s. 4;
}

abbrev start : State
start = record {
  orders = record { order_at = λ o. new_order; next_order = 1 };
  current_order_manager = 0;
  ignore_stmt_pragma = false;
  functions_instructions = [] ∷ [];
}

-- The orders after the for statement has one.
abbrev for_orders : Orders
for_orders = record {
  order_at = λ o.
      if o == 0
      then (add_instruction_to_manager for_class 0 new_order start.orders).0
      else (add_instruction_to_manager for_class 0 new_order start.orders).1.order_at o;
  next_order = 2;
}

abbrev finish : State
finish = record {
  orders = for_orders;
  current_order_manager = 0;
  ignore_stmt_pragma = false;
  functions_instructions =
      (for_instruction for_statement 0 (leaf ∷ leaf ∷ leaf ∷ leaf ∷ []) ∷ []) ∷ [];
}

traversed : traverse_for_stmt for_statement test_traverse 0 start ≡ some (true, finish)
unfolding traverse_for_stmt add_instruction_to_manager get_sub_stmt_order
traversed = refl

traverse_for_stmt-functions_example :
    (i : Instruction) × (functions finish ≡ ([] ++ i ∷ []) ∷ [])
    × IsForInstruction 0 (scope_instructions for_statement test_traverse one_leaf 0 start) i
    × (finish.current_order_manager ≡ start.current_order_manager)
    × (finish.ignore_stmt_pragma ≡ start.ignore_stmt_pragma)
traverse_for_stmt-functions_example =
    traverse_for_stmt-functions for_statement test_traverse one_leaf test_traverse-Adds 0 start
      finish [] [] refl refl traversed

abbrev cell : ℕ → AliasType → List ℕ → List ℕ → AliasArg
cell e kind references aliased = record {
  has_unknown_index = false;
  declaration = e;
  alias_type = kind;
  indexes = [];
  index_string = "";
  expression = none;
  id = e;
  pointers = [];
  references = references;
  aliased = aliased;
}

abbrev two_cells : Store
two_cells e =
    if e == 1
    then cell 1 AliasType.variable (2 ∷ []) []
    else if e == 2
    then cell 2 AliasType.reference [] (1 ∷ [])
    else cell e AliasType.variable [] []

abbrev both : List ℕ
both = 1 ∷ 2 ∷ []

both-stays : (x y : ℕ) → In x both → Step two_cells x y → In y both
both-stays x y (inl e) st =
    let at : Step two_cells 1 y = subst (λ z. Step two_cells z y) e st in
    elim at [ inl i ↦ elim i [ inl same ↦ inr (inl same) | inr b ↦ absurd b ] | inr b ↦ absurd b ]
both-stays x y (inr (inl e)) st =
    let at : Step two_cells 2 y = subst (λ z. Step two_cells z y) e st in
    elim at [ inl b ↦ absurd b | inr i ↦ elim i [ inl same ↦ inl same | inr b ↦ absurd b ] ]
both-stays x y (inr (inr e)) st = absurd e

get_aliases-Aliases_example :
    (r : List ℕ) × (get_aliases two_cells 3 1 ≡ some r) × ((x : ℕ) → In x r ↔ Aliases two_cells 1 x)
get_aliases-Aliases_example =
    get_aliases-Aliases two_cells both 3 1 both-stays (inl refl) (ground arith)

add_dependency-IsMarked_example :
    IsMarked two_cells 1 [] mark_read (add_dependency_read two_cells 3 [] 1)
    × IsMarked two_cells 1 [] mark_write (add_dependency_write two_cells 3 [] 1)
add_dependency-IsMarked_example =
    add_dependency-IsMarked two_cells 1 [] both 3 both-stays (inl refl) (ground arith)
