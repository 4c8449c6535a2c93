-- ===== src/Core/ParamWrite.antt =====
-- core/ParamWriteAnalyzer.cpp: which pointer and reference parameters a function writes to. The
-- recursions are on fuel; a result `none` is out of fuel, or the failed assertion of
-- `isFullConstType`. `ctx_` is set.
pub mod Writes
pub mod Analysis
pub mod Ends
use apac.Prelude.{
  ℕ, zero, suc, Bool, true, false, not, ◌&&◌, ◌||◌, Option, none, some, List, [], ◌∷◌,
  if◌then◌else◌, ◌==◌, contains, insert,
}
use apac.Prelude.Maps.{SearchMap, assign}
use apac.Core.Ast.{Ast}
use apac.Core.Types.{Types, is_full_const_type}

-- `a || b`, where `b` is run only if `a` is false.
abbrev pub or_else : Option Bool → Option Bool → Option Bool
or_else none b = none
or_else (some true) b = some true
or_else (some false) b = b

-- `if (guard && test) return true;`
abbrev pub tested : Bool → Option Bool → Option Bool
tested true b = b
tested false b = some false

abbrev pub any_child : (ℕ → Option Bool) → List ℕ → Option Bool
any_child f [] = some false
any_child f (c ∷ cs) = or_else (f c) (any_child f cs)

-- `writtenParams_`, by canonical declaration.
abbrev pub Written : Type 0
Written = SearchMap (List ℕ)

module _ (a : Ast) (ty : Types) where
  abbrev pub is_param_read_only : Written → Option ℕ → ℕ → Bool
  is_param_read_only w none i = false
  is_param_read_only w (some f) i = elim (w (a.canonical f)) [
    | none ↦ false
    | some set ↦ not (contains i set)
  ]

  -- The operand that a dereference, a subscript or a member access looks at.
  abbrev pub inner_expr : ℕ → Option ℕ
  inner_expr e =
      if a.is_unary_operator e && a.is_deref e
      then some (a.sub_expr e)
      else if a.is_array_subscript_expr e
      then some (a.base e)
      else if a.is_member_expr e
      then some (a.member_base e)
      else none

  unfoldable pub refers_to_param : ℕ → ℕ → ℕ → Option Bool
  refers_to_param zero e param = none
  refers_to_param (suc fuel) e param = elim (a.is_decl_ref_expr (a.ignore_paren_imp_casts e)) [
    | true ↦ some (a.canonical (a.decl (a.ignore_paren_imp_casts e)) == a.canonical param)
    | false ↦ elim (inner_expr (a.ignore_paren_imp_casts e)) [
      | none ↦ some false
      | some inner ↦ refers_to_param fuel inner param
    ]
  ]

  -- A pointer or a reference that is not const all the way down.
  abbrev pub is_modifiable : ℕ → ℕ → Option Bool
  is_modifiable fuel t = elim (is_full_const_type ty fuel t) [
    | none ↦ none
    | some full ↦
        some (not full && (ty.is_reference_qual_type (some t) || ty.is_pointer_qual_type t))
  ]

  -- The loop over the parameters of the called function, from number `i`; `read_only` is
  -- `isParamReadOnly` of this function.
  unfoldable pub passes_to : ℕ → (ℕ → Bool) → ℕ → ℕ → List ℕ → List ℕ → Option Bool
  passes_to fuel read_only param i (p ∷ ps) (x ∷ xs) =
      let rest = passes_to fuel read_only param (suc i) ps xs in
      elim (a.is_null_type (a.type_of p)) [
        | true ↦ rest
        | false ↦ elim (is_modifiable fuel (a.type_of p)) [
          | none ↦ none
          | some false ↦ rest
          | some true ↦ elim (read_only i) [
            | true ↦ rest
            | false ↦ or_else (refers_to_param fuel x param) rest
          ]
        ]
      ]
  passes_to fuel read_only param i _ _ = some false

  unfoldable pub call_writes : ℕ → Written → ℕ → ℕ → ℕ → Option Bool
  call_writes fuel w param parent s = elim (a.direct_callee s) [
    | none ↦ some false
    | some callee ↦ elim (a.canonical callee == a.canonical parent) [
      | true ↦ some false
      | false ↦
          tested (not (a.is_apac_helper callee)) (
            passes_to fuel (is_param_read_only w (some callee)) param 0 (a.params callee)
              (a.args s))
    ]
  ]

  -- What the node itself writes.
  abbrev pub node_writes : ℕ → Written → ℕ → ℕ → ℕ → Option Bool
  node_writes fuel w param parent s =
      or_else
        (tested (a.is_binary_operator s && (a.is_assignment_op s || a.is_compound_assignment_op s))
          (refers_to_param fuel (a.lhs s) param))
        (or_else
          (tested (a.is_unary_operator s && a.is_increment_decrement_op s)
            (refers_to_param fuel (a.sub_expr s) param))
          (tested (a.is_call_expr s) (call_writes fuel w param parent s)))

  unfoldable pub contains_write_to : ℕ → Written → ℕ → ℕ → ℕ → Option Bool
  contains_write_to zero w param parent s = none
  contains_write_to (suc fuel) w param parent s =
      or_else (node_writes fuel w param parent s)
        (any_child (contains_write_to fuel w param parent) (a.children s))

  -- `writtenParams_[canonical]`
  abbrev pub written_set : Written → ℕ → List ℕ
  written_set w f = elim (w (a.canonical f)) [ none ↦ [] | some set ↦ set ]

  abbrev pub add_written : Written → ℕ → ℕ → Written
  add_written w f i = assign (a.canonical f) (insert i (written_set w f)) w

  -- Whether a parameter is analysed and written to.
  unfoldable pub param_written : ℕ → Written → ℕ → ℕ → Option Bool
  param_written fuel w f param = elim (a.is_null_type (a.type_of param)) [
    | true ↦ some false
    | false ↦ elim (is_modifiable fuel (a.type_of param)) [
      | none ↦ none
      | some modifiable ↦ tested modifiable (contains_write_to fuel w param f (a.body f))
    ]
  ]

  unfoldable pub analyze_params : ℕ → ℕ → ℕ → List ℕ → Written → Option Written
  analyze_params fuel f i [] w = some w
  analyze_params fuel f i (p ∷ ps) w = elim (param_written fuel w f p) [
    | none ↦ none
    | some true ↦ analyze_params fuel f (suc i) ps (add_written w f i)
    | some false ↦ analyze_params fuel f (suc i) ps w
  ]

  unfoldable pub analyze_function : ℕ → ℕ → Written → Option Written
  analyze_function fuel f w =
      analyze_params fuel f 0 (a.params f) (assign (a.canonical f) (written_set w f) w)

  unfoldable pub visit_function_decl : ℕ → ℕ → Written → Option Written
  visit_function_decl fuel f w =
      let analysed = analyze_function fuel f w in
      if a.is_definition f && not (a.is_in_headers f) then analysed else some w
