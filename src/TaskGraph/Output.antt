-- ===== src/TaskGraph/Output.antt =====
-- transforms/TaskGraph: OutputHandler.hpp, OutputHandler.cpp and `varAsString` (AliasArg.cpp): the
-- pragmas of a group of statements. Where the code would use a null pointer, or fails an assertion, the
-- result is `none`; so is running out of fuel.
pub mod Calls
pub mod Variables
pub mod Status
pub mod Ends
pub mod Pragmas
pub mod Rewrite
mod Tests
use Prim.Native.String.{String, ◌++◌ as ◌<>◌}
use apac.Prelude.{
  ℕ, zero, suc, Bool, true, false, not, ◌&&◌, ◌||◌, Option, none, some, List, [], ◌∷◌, map, ◌++◌,
}
use apac.Prelude.Maps.{keys}
use apac.Prelude.{if◌then◌else◌, insert_all}
use apac.Prelude.Int.{ℤ}
use apac.Prelude.Search.{push_all}
use apac.Core.Ast.{Ast}
use apac.Core.Exprs.{get_array_subscripts_indexes, get_all_decl_ref_expr_inside_expr, is_empty}
use apac.TaskGraph.AliasArg.{AliasArg}
use apac.TaskGraph.Instruction.{Clang, Instruction, Fields, fields, Dependencies}
use apac.TaskGraph.Node.{Node, Heap}
use apac.TaskGraph.StmtOrder.{StmtOrder, Group, get_node}

-- What the output asks of the source, and how the standard library prints numbers.
pub record Source : Type 0 where
  pub ast : Ast
  pub clang : Clang
  pub is_decl_stmt : ℕ → Bool
  pub is_cxx_delete_expr : ℕ → Bool
  pub is_goto_stmt : ℕ → Bool
  -- `getArgument` of a delete, and whether an if has an else
  pub argument : ℕ → ℕ
  pub has_else : ℕ → Bool
  -- `getStmtAsString` and `getStmtAsStringFull`
  pub stmt_as_string : ℕ → String
  pub stmt_as_string_full : ℕ → String
  pub show_int : ℤ → String
  pub show : ℕ → String

pub record PragmaStatus : Type 0 where
  pub is_task_wait_valid : Bool
  pub is_task_valid : Bool
  pub has_function_call : Bool

abbrev pub new_status : PragmaStatus
new_status = record { is_task_wait_valid = true; is_task_valid = true; has_function_call = false }

abbrev pub set_function_call_true : PragmaStatus → PragmaStatus
set_function_call_true p = record p { has_function_call = true }

abbrev pub set_task_wait_false : PragmaStatus → PragmaStatus
set_task_wait_false p = record p { is_task_wait_valid = false }

abbrev pub set_task_false : PragmaStatus → PragmaStatus
set_task_false p = record p { is_task_valid = false }

-- `ss << a` for each, with commas in between.
abbrev pub commas : List String → String
commas [] = ""
commas (s ∷ ss) = let rest = commas ss in elim ss [ [] ↦ s | _ ∷ _ ↦ s <> ("," <> rest) ]

abbrev pub concat : List String → String
concat [] = ""
concat (s ∷ ss) = s <> concat ss

module _ (src : Source) where
  abbrev pub var_as_string : AliasArg → String
  var_as_string e =
      src.ast.name e.declaration
      <> (if e.has_unknown_index
          then e.index_string
          else concat (map (λ i. "[" <> (src.show_int i <> "]")) e.indexes))

  -- The search for a call: it ends at the first.
  unfoldable pub find_call : ℕ → List ℕ → Option Bool
  find_call fuel [] = some false
  find_call zero (s ∷ stack) = none
  find_call (suc fuel) (s ∷ stack) =
      let rest = find_call fuel (push_all (src.ast.children s) stack) in
      if src.ast.is_call_expr s then some true else rest

  unfoldable pub has_function_call_in : ℕ → Group → Option Bool
  has_function_call_in fuel [] = some false
  has_function_call_in fuel (instr ∷ group) = elim (find_call fuel (instr.0 ∷ [])) [
    | none ↦ none
    | some true ↦ some true
    | some false ↦ has_function_call_in fuel group
  ]

  -- The test of the if statement of a group of its own.
  abbrev pub if_status : Heap → StmtOrder → ℕ → PragmaStatus → Option PragmaStatus
  if_status h o instr p = elim (get_node instr o) [
    | none ↦ none
    | some n ↦ some (
        if is_empty (h n).in_out_dep && is_empty (h n).in_dep
        then set_task_wait_false (set_task_false p)
        else set_task_false p)
  ]

  -- The guards for a group of one statement.
  unfoldable pub single_status :
      Heap → StmtOrder → ℕ × Option ℕ → PragmaStatus → Option PragmaStatus
  single_status h o (instr, sub) p =
      let if_case = if_status h o instr p in
      if src.is_decl_stmt instr
      then some (set_task_wait_false (set_task_false p))
      else if src.is_cxx_delete_expr instr || src.is_goto_stmt instr
      then some (set_task_false p)
      else elim sub [
        | none ↦ some (set_task_wait_false p)
        | some _ ↦
            if src.clang.is_if_stmt instr
            then if_case
            else some (set_task_wait_false (set_task_false p))
      ]

  abbrev pub group_status : Heap → StmtOrder → Group → PragmaStatus → Option PragmaStatus
  group_status h o (instr ∷ []) p = single_status h o instr p
  group_status h o group p = some p

  -- The search for calls, of a group that may be a task.
  abbrev pub call_status : ℕ → Group → PragmaStatus → Option PragmaStatus
  call_status fuel group p =
      if p.is_task_valid
      then elim (has_function_call_in fuel group) [
        | none ↦ none
        | some found ↦ some (if found then set_function_call_true p else p)
      ]
      else some p

  unfoldable pub is_pragma_valid : ℕ → Heap → StmtOrder → Group → PragmaStatus → Option PragmaStatus
  is_pragma_valid fuel h o [] p = some p
  is_pragma_valid fuel h o (instr ∷ group) p = elim (group_status h o (instr ∷ group) p) [
    | none ↦ none
    | some p' ↦ call_status fuel (instr ∷ group) p'
  ]

  -- The variables in each of the indexes.
  abbrev pub insert_variables : ℕ → List ℕ → List ℕ → Option (List ℕ)
  insert_variables fuel set [] = some set
  insert_variables fuel set (index ∷ rest) =
      elim (get_all_decl_ref_expr_inside_expr src.ast fuel (some index)) [
        | none ↦ none
        | some found ↦ insert_variables fuel (insert_all set found) rest
      ]

  -- What an element adds to `firstPrivateSet`.
  unfoldable pub insert_index_variables : ℕ → AliasArg → List ℕ → Option (List ℕ)
  insert_index_variables fuel e set = elim e.has_unknown_index [
    | false ↦ some set
    | true ↦ elim e.expression [
      | none ↦ none
      | some exp ↦ elim (get_array_subscripts_indexes src.ast fuel exp) [
        | none ↦ none
        | some indexes ↦ insert_variables fuel set indexes
      ]
    ]
  ]

  unfoldable pub index_variables : ℕ → (ℕ → AliasArg) → List ℕ → List ℕ → Option (List ℕ)
  index_variables fuel args [] set = some set
  index_variables fuel args (e ∷ es) set = elim (insert_index_variables fuel (args e) set) [
    | none ↦ none
    | some set' ↦ index_variables fuel args es set'
  ]

  -- The elements that the instructions of the node access.
  abbrev pub accessed : List Instruction → List ℕ
  accessed [] = []
  accessed (i ∷ is) = keys (fields i).dependencies ++ accessed is
