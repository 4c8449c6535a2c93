-- ===== src/TaskGraph/Output/Pragmas.antt =====
-- transforms/TaskGraph: the texts of the pragmas (OutputHandler.cpp). Where the code would use a null
-- pointer, or fails an assertion, the result is `none`.
use Prim.Native.String.{String, ◌++◌ as ◌<>◌}
use text.Mathlib.Text.{◌==◌ as ◌≟◌}
use apac.Prelude.{
  ℕ, Bool, true, false, ◌&&◌, not, Option, none, some, List, [], ◌∷◌, map, if◌then◌else◌,
}
use apac.Core.Exprs.{is_empty}
use apac.TaskGraph.AliasArg.{AliasArg}
use apac.TaskGraph.Node.{Heap}
use apac.TaskGraph.StmtOrder.{StmtOrder, Group, get_node}
use apac.TaskGraph.Output.{
  Source, PragmaStatus, new_status, commas, var_as_string, is_pragma_valid, index_variables,
  accessed,
}

module _ (src : Source) (args : ℕ → AliasArg) (h : Heap) where
  abbrev pub clause : String → List ℕ → String
  clause kind [] = ""
  clause kind (e ∷ es) =
      " depend ("
      <> (kind <> (":" <> (commas (map (λ x. var_as_string src (args x)) (e ∷ es)) <> ") ")))

  unfoldable pub create_depends_string : Option ℕ → Option String
  create_depends_string none = none
  create_depends_string (some n) =
      some (clause "inout" (h n).in_out_dep <> clause "in" (h n).in_dep)

  -- `getDecl()->getNameAsString()`
  abbrev pub decl_name : ℕ → String
  decl_name x = src.ast.name (src.ast.decl x)

  abbrev pub first_private_clause : List ℕ → Bool → String
  first_private_clause set has_function_call =
      if is_empty set && not has_function_call
      then ""
      else " firstprivate("
        <> ((if has_function_call
              then " __apac_depth_local" <> (if is_empty set then "" else ",")
              else "")
            <> (commas (map decl_name set) <> ") "))

  unfoldable pub create_first_private_string : ℕ → ℕ → Bool → Option String
  create_first_private_string fuel n has_function_call =
      elim (index_variables src fuel args (accessed src (h n).instruction_ptr) []) [
        | none ↦ none
        | some set ↦ some (first_private_clause set has_function_call)
      ]

  abbrev pub taskwait_text : List ℕ → String
  taskwait_text [] = ""
  taskwait_text (x ∷ xs) =
      "#pragma omp taskwait depend (in: " <> (commas (map decl_name (x ∷ xs)) <> ")\n")

  unfoldable pub create_taskwait_indexes : ℕ → Option ℕ → Option String
  create_taskwait_indexes fuel none = none
  create_taskwait_indexes fuel (some n) = elim (index_variables src fuel args (h n).in_dep []) [
    | none ↦ none
    | some set ↦ elim (index_variables src fuel args (h n).in_out_dep set) [
      | none ↦ none
      | some set' ↦ some (taskwait_text set')
    ]
  ]

  -- The node is used before the test whether it is null.
  unfoldable pub create_pragma_task_string : ℕ → StmtOrder → ℕ × Option ℕ → Bool → Option String
  create_pragma_task_string fuel o (instr, sub) has_function_call =
      elim (create_taskwait_indexes fuel (get_node instr o)) [
        | none ↦ none
        | some waits ↦ elim (get_node instr o) [
          | none ↦ some ""
          | some n ↦ elim (create_depends_string (some n)) [
            | none ↦ none
            | some depends ↦ elim (create_first_private_string fuel n has_function_call) [
              | none ↦ none
              | some private ↦
                  some (waits <> ("#pragma omp task default(shared) " <> (depends <> private)))
            ]
          ]
        ]
      ]

  -- The name of the variable that is deleted, if it is a variable.
  abbrev pub deleted_name : ℕ → String
  deleted_name instr =
      let arg = src.ast.ignore_imp_casts (src.argument instr) in
      if src.ast.is_decl_ref_expr arg then decl_name arg else ""

  abbrev pub taskwait_depend : StmtOrder → ℕ → Option String
  taskwait_depend o instr =
      let depends = create_depends_string (get_node instr o) in
      if src.clang.is_if_stmt instr
      then depends
      else if src.is_cxx_delete_expr instr
      then some (deleted_name instr)
      else some ""

  unfoldable pub create_pragma_task_wait : StmtOrder → ℕ × Option ℕ → Option String
  create_pragma_task_wait o (instr, sub) = elim (taskwait_depend o instr) [
    | none ↦ none
    | some depend ↦ some (
        "#pragma omp taskwait "
        <> (if depend ≟ "" then "" else "depend (inout:" <> (depend <> ")")))
  ]

  abbrev pub task_start : ℕ → StmtOrder → ℕ × Option ℕ → Bool → Option String
  task_start fuel o instr has_function_call =
      elim (create_pragma_task_string fuel o instr has_function_call) [
        | none ↦ none
        | some task ↦ some (
            task
            <> ("\n{\n"
                <> (if has_function_call then "__apac_depth = __apac_depth_local + 1;\n" else "")))
      ]

  -- The texts before and after the group, by the status of its pragma.
  abbrev pub pragma_texts : ℕ → StmtOrder → ℕ × Option ℕ → PragmaStatus → Option (String × String)
  pragma_texts fuel o instr p = elim p.is_task_valid [
    | true ↦ elim (task_start fuel o instr p.has_function_call) [
      | none ↦ none
      | some start ↦ some (start, "}\n")
    ]
    | false ↦ elim p.is_task_wait_valid [
      | true ↦ elim (create_pragma_task_wait o instr) [
        | none ↦ none
        | some wait ↦ some (wait <> "\n", "")
      ]
      | false ↦ some ("", "")
    ]
  ]

  -- The first statement of an empty group is used.
  unfoldable pub create_pragma_string : ℕ → StmtOrder → Group → Option (String × String)
  create_pragma_string fuel o [] = none
  create_pragma_string fuel o (instr ∷ group) =
      elim (is_pragma_valid src fuel h o (instr ∷ group) new_status) [
        | none ↦ none
        | some p ↦ pragma_texts fuel o instr p
      ]
