-- ===== src/TaskGraph/Output/Tests.antt =====
-- The theorems on the output at a small function: the statement 0, `f(v[i])`, holds the call 1; the
-- element 0 is `v[i]`, where `i` is not known; 2 is the expression `v[i]`, and 3 its index `i`.
use Prim.Native.String.{String}
use apac.Prelude.{
  ℕ, ◌≡◌, refl, sym, inl, inr, arith, ◌↔◌, ◌⊎◌, true, false, none, some, List, [], ◌∷◌,
}
use apac.Prelude.{if◌then◌else◌, ◌==◌, In}
use apac.Prelude.Int.{minus_one}
use apac.Prelude.Walk.{walk_queue, walk_stack, Tree, tree, no_trees, branch}
use apac.Core.Ast.{Ast}
use apac.Core.Exprs.{get_array_subscripts, get_all_decl_ref_expr_inside_expr}
use apac.TaskGraph.AliasArg.{AliasArg, AliasType}
use apac.TaskGraph.Instruction.{Clang}
use apac.TaskGraph.Node.{Heap}
use apac.TaskGraph.StmtOrder.{StmtOrder, Group, get_node}
use apac.TaskGraph.Output.{
  Source, PragmaStatus, new_status, is_pragma_valid, insert_index_variables, index_variables,
}
use apac.TaskGraph.Output.Calls.{GroupHasCall}
use apac.TaskGraph.Output.Status.{MayBeTask}
use apac.TaskGraph.Output.Ends.{IsSmall, is_pragma_valid-decided}
use apac.TaskGraph.Output.Variables.{IsIndexVariable, In-index_variables}
use apac.TaskGraph.Output.Pragmas.{create_depends_string, create_pragma_task_wait}
use apac.TaskGraph.Output.Rewrite.{Edit, blank, removal, insertion}

abbrev call_ast : Ast
call_ast = record {
  children = λ n. if n == 0 then 1 ∷ [] else if n == 1 then 2 ∷ [] else [];
  is_expr = λ n. true;
  is_call_expr = λ n. n == 1;
  is_decl_ref_expr = λ n. n == 3;
  is_array_subscript_expr = λ n. n == 2;
  is_unary_operator = λ n. false;
  is_binary_operator = λ n. false;
  is_member_expr = λ n. false;
  decl = λ n. n;
  is_var_decl = λ n. true;
  canonical = λ n. n;
  name = λ n. if n == 3 then "i" else "v";
  base = λ n. 4;
  idx = λ n. 3;
  member_base = λ n. n;
  sub_expr = λ n. n;
  lhs = λ n. n;
  ignore_paren_imp_casts = λ n. n;
  ignore_imp_casts = λ n. n;
  is_addr_of = λ n. false;
  is_deref = λ n. false;
  is_assignment_op = λ n. false;
  is_compound_assignment_op = λ n. false;
  is_increment_decrement_op = λ n. false;
  evaluate_as_int = λ n. none;
  direct_callee = λ n. none;
  args = λ n. [];
  is_definition = λ n. false;
  params = λ n. [];
  body = λ n. n;
  type_of = λ n. n;
  is_null_type = λ n. false;
  is_apac_helper = λ n. false;
  is_in_headers = λ n. false;
}

abbrev no_scopes : Clang
no_scopes = record {
  begin_loc = λ s. s;
  is_for_stmt = λ s. false;
  is_if_stmt = λ s. false;
  is_compound_stmt = λ s. false;
}

abbrev call_source : Source
call_source = record {
  ast = call_ast;
  clang = no_scopes;
  is_decl_stmt = λ s. false;
  is_cxx_delete_expr = λ s. false;
  is_goto_stmt = λ s. false;
  argument = λ s. s;
  has_else = λ s. false;
  stmt_as_string = λ s. "f(v[i])";
  stmt_as_string_full = λ s. "f(v[i]);";
  show_int = λ i. "1";
  show = λ n. "0";
}

abbrev element : ℕ → AliasArg
element e = record {
  has_unknown_index = true;
  declaration = 4;
  alias_type = AliasType.variable;
  indexes = minus_one ∷ [];
  index_string = "[i]";
  expression = some 2;
  id = e;
  pointers = [];
  references = [];
  aliased = [];
}

-- The task of the call writes `v[i]`.
abbrev call_node : Heap
call_node n = record {
  graph_id = 0;
  id = n;
  is_looped = false;
  next = [];
  prev = [];
  graph = [];
  instruction = "f(v[i])";
  instruction_ptr = [];
  dependencies = [];
  in_out_dep = 0 ∷ [];
  in_dep = [];
}

abbrev call_group : Group
call_group = (0, none) ∷ []

abbrev call_order : StmtOrder
call_order = record {
  is_looped = false;
  group_counter = 1;
  instruction_links = λ s. if s == 0 then some 0 else none;
  instruction_groups = λ g. if g == 0 then some call_group else none;
  nodes_group = λ g. if g == 0 then some 0 else none;
}

abbrev call_tree : Tree
call_tree = tree 0 (branch (tree 1 (branch (tree 2 no_trees) no_trees)) no_trees)

small : (s : ℕ) → In s (0 ∷ []) → IsSmall call_source 3 s
small s i = elim i [
  | inl e ↦ (call_tree, sym e, (refl, ((refl, ((refl, tt), tt)), tt)), ground arith)
  | inr none_in ↦ elim none_in [ ]
]

first_noded : get_node 0 call_order ≡ some 0
unfolding get_node
first_noded = refl

noded : (s : ℕ) → In s (0 ∷ []) → (n : ℕ) × (get_node s call_order ≡ some n)
noded s i = elim i [ inl e ↦ (0, rw (e) first_noded) | inr none_in ↦ elim none_in [ ] ]

is_pragma_valid-decided_example :
    (p' : PragmaStatus) × (is_pragma_valid call_source 3 call_node call_order call_group new_status
      ≡ some p')
    × ((p'.is_task_valid ≡ true) ↔ MayBeTask call_source call_group)
    × ((p'.has_function_call ≡ true)
        ↔ (MayBeTask call_source call_group × GroupHasCall call_source call_group))
is_pragma_valid-decided_example =
    is_pragma_valid-decided call_source 3 call_node call_order call_group small noded

variables-computed : index_variables call_source 2 element (0 ∷ []) [] ≡ some (3 ∷ [])
unfolding index_variables insert_index_variables get_array_subscripts walk_stack
    get_all_decl_ref_expr_inside_expr walk_queue
variables-computed = refl

In-index_variables_example :
    In {A = ℕ} 3 (3 ∷ [])
    ↔ (In {A = ℕ} 3 [] ⊎ ((e : ℕ) × In e (0 ∷ []) × IsIndexVariable call_source 2 (element e) 3))
In-index_variables_example =
    In-index_variables call_source 2 element (0 ∷ []) [] (3 ∷ []) 3 variables-computed

abbrev call_text : String
call_text =
    "#pragma omp taskwait depend (in: i)\n#pragma omp task default(shared)  depend (inout:v[i])  firstprivate( __apac_depth_local) \n{\n__apac_depth = __apac_depth_local + 1;\nf(v[i]);\n}\n"

abbrev call_edits : List Edit
call_edits = blank 0 ∷ removal 0 ∷ insertion 0 call_text ∷ []

-- The same statement as an if: the clause stands in another clause.
abbrev if_source : Source
if_source = record call_source { clang = record no_scopes { is_if_stmt = λ s. s == 0 } }

taskwait_of_if :
    create_pragma_task_wait if_source element call_node call_order (0, none)
    ≡ some "#pragma omp taskwait depend (inout: depend (inout:v[i]) )"
unfolding create_pragma_task_wait create_depends_string get_node
taskwait_of_if = refl
