-- ===== src/Core/Tests.antt =====
-- The theorems of Core at small syntax trees and types.
use apac.Prelude.{
  Returns, ℕ, zero, suc, ◌≤◌, ◌≡◌, refl, ◌≢◌, ◌↔◌, Bool, true, false, not, Option, none, some, List,
  [], ◌∷◌,
}
use apac.Prelude.{if◌then◌else◌, ◌==◌, In, arith, ◌<◌}
use apac.Prelude.Int.{pos, to_int, minus_one}
use apac.Prelude.Walk.{Tree, tree, no_trees, branch}
use apac.Core.Ast.{Ast}
use apac.Core.Types.{
  Types, is_full_const_type, ptr_levels, get_ptr_depth, access_levels, get_ptr_depth_access,
}
use apac.Core.Types.Const.{NonConstAt, IsConstThroughout, is_full_const_type-NonConstAt}
use apac.Core.Types.Depth.{
  value, pointer, get_ptr_depth_access-IsDepth, get_ptr_depth-PointsDown, IsDepth,
}
use apac.Core.Exprs.{get_all_read_decl_ref_expr_inside_expr, get_array_subscripts_indexes}
use apac.Core.Exprs.Found.{IsVariableUse, get_all_read_decl_ref_expr-IsVariableUse}
use apac.Core.Exprs.Subscripts.{
  IsSubscripted, plain, wrapped, subscript, get_array_subscripts_indexes-IsSubscripted,
}
use apac.Core.ParamWrite.{Written}

-- Expressions: 0 is `v[i][j]`, with the cast 1 of its base 2, `v[i]`, with the cast 3 of its base 4,
-- `v`; 5 is `i`, 6 is `j`. Also 7 is `&v + i`: 8 is `&v`. The function 20 has the parameter 21, and its
-- body 9 is `v = i`, where `v` is the parameter; the function 22 has the same, and its body is `i = v`.
abbrev parts : ℕ → List ℕ
parts n =
    if n == 0
    then 1 ∷ 6 ∷ []
    else if n == 1
    then 2 ∷ []
    else if n == 2
    then 3 ∷ 5 ∷ []
    else if n == 3
    then 4 ∷ []
    else if n == 7
    then 8 ∷ 5 ∷ []
    else if n == 8
    then 4 ∷ []
    else if n == 9
    then 4 ∷ 5 ∷ []
    else if n == 10
    then 5 ∷ 4 ∷ []
    else []

abbrev is_variable_ref : ℕ → Bool
is_variable_ref n = if n == 4 then true else if n == 5 then true else n == 6

abbrev test_ast : Ast
test_ast = record {
  children = parts;
  is_expr = λ n. true;
  is_call_expr = λ n. false;
  is_decl_ref_expr = is_variable_ref;
  is_array_subscript_expr = λ n. if n == 0 then true else n == 2;
  is_unary_operator = λ n. n == 8;
  is_binary_operator = λ n. if n == 9 then true else n == 10;
  is_member_expr = λ n. false;
  decl = λ n. if n == 4 then 21 else n;
  is_var_decl = λ n. true;
  canonical = λ n. n;
  name = λ n. "v";
  base = λ n. suc n;
  idx = λ n. if n == 0 then 6 else 5;
  member_base = λ n. n;
  sub_expr = λ n. 4;
  lhs = λ n. if n == 9 then 4 else 5;
  ignore_paren_imp_casts = λ n. n;
  ignore_imp_casts = λ n. n;
  is_addr_of = λ n. n == 8;
  is_deref = λ n. false;
  is_assignment_op = λ n. true;
  is_compound_assignment_op = λ n. false;
  is_increment_decrement_op = λ n. false;
  evaluate_as_int = λ n. none;
  direct_callee = λ n. none;
  args = λ n. [];
  is_definition = λ n. true;
  params = λ n. 21 ∷ [];
  body = λ n. if n == 20 then 9 else 10;
  type_of = λ n. 1;
  is_null_type = λ n. false;
  is_apac_helper = λ n. false;
  is_in_headers = λ n. false;
}

-- The type n is the type 0 with n pointers.
abbrev pointee_of : ℕ → Option ℕ
pointee_of zero = none
pointee_of (suc n) = some n

abbrev test_types : Types
test_types = record {
  is_const_qualified = λ t. false;
  is_reference_qual_type = λ t. false;
  pointee_type = pointee_of;
  non_reference_type = λ t. t;
  non_reference_qual_type = λ t. t;
  desugared_type = λ t. t;
  is_pointer_qual_type = λ t. not (t == 0);
  is_array_type = λ t. false;
  element_type = λ t. none;
  pointer_to = λ t. suc t;
}

-- The expression 7.
abbrev sum_tree : Tree
sum_tree =
    tree 7 (branch (tree 8 (branch (tree 4 no_trees) no_trees)) (branch (tree 5 no_trees) no_trees))

get_all_read_decl_ref_expr-IsVariableUse_example :
    (r : List ℕ) × (get_all_read_decl_ref_expr_inside_expr test_ast 4 (some 7) ≡ some r)
    × ((x : ℕ) → In x r ↔ IsVariableUse test_ast 7 x)
get_all_read_decl_ref_expr-IsVariableUse_example =
    get_all_read_decl_ref_expr-IsVariableUse test_ast 4 sum_tree
      (refl, ((refl, ((refl, tt), tt)), ((refl, tt), tt))) (ground arith)

subscripted : IsSubscripted test_ast 0 (5 ∷ 6 ∷ [])
subscripted =
    subscript refl (wrapped refl refl (subscript refl (wrapped refl refl (plain refl refl))))

get_array_subscripts_indexes-IsSubscripted_example :
    (n : ℕ) × ((fuel : ℕ)
      → n ≤ fuel
      → get_array_subscripts_indexes test_ast fuel 0 ≡ some (5 ∷ 6 ∷ []))
get_array_subscripts_indexes-IsSubscripted_example =
    get_array_subscripts_indexes-IsSubscripted test_ast 0 (5 ∷ 6 ∷ []) subscripted

-- The pointers are const, and what they lead to is not.
abbrev const_pointers : Types
const_pointers = record test_types { is_const_qualified = λ t. not (t == 0) }

is_full_const_type-NonConstAt_example :
    (is_full_const_type const_pointers 3 2 ≢ some true)
    × ((is_full_const_type const_pointers 3 2 ≡ some false)
        ↔ ((n : ℕ) × (n < 3) × NonConstAt const_pointers n 2))
    × (¬ (IsConstThroughout const_pointers 2 × Returns (is_full_const_type const_pointers 3 2)))
is_full_const_type-NonConstAt_example = is_full_const_type-NonConstAt const_pointers 3 2

get_ptr_depth-PointsDown_example : get_ptr_depth test_types 3 2 ≡ some 3
get_ptr_depth-PointsDown_example =
    get_ptr_depth-PointsDown test_types 2 2 3 refl
      (pointer refl (λ e. absurd (ground arith))
        (pointer refl (λ e. absurd (ground arith)) (value refl)))
      (ground arith)

two_stars : get_ptr_depth_access test_types 9 5 3 ≡ some (pos 2)
unfolding get_ptr_depth_access access_levels ptr_levels
two_stars = refl

get_ptr_depth_access-IsDepth_example : IsDepth test_types (pos 2)
get_ptr_depth_access-IsDepth_example =
    get_ptr_depth_access-IsDepth test_types 9 5 3 (pos 2) two_stars

abbrev no_functions : Written
no_functions f = none

-- Only the type 1 is a pointer, to the type 0.
abbrev one_pointee : ℕ → Option ℕ
one_pointee t = if t == 1 then some 0 else none

abbrev flat_types : Types
flat_types = record {
  is_const_qualified = λ t. false;
  is_reference_qual_type = λ t. false;
  pointee_type = one_pointee;
  non_reference_type = λ t. t;
  non_reference_qual_type = λ t. t;
  desugared_type = λ t. t;
  is_pointer_qual_type = λ t. t == 1;
  is_array_type = λ t. false;
  element_type = λ t. none;
  pointer_to = λ t. 1;
}

-- Of the expressions only the two subscripts have an operand to look at.
abbrev subscript_depth : ℕ → ℕ
subscript_depth e = if e == 0 then 1 else if e == 2 then 1 else 0

-- The body of the function 22.
abbrev body_tree : Tree
body_tree = tree 10 (branch (tree 5 no_trees) (branch (tree 4 no_trees) no_trees))

-- 2^32 - 1 becomes -1, which stands for an unknown index.
wrapped_index : to_int (pos 4294967295) ≡ minus_one
wrapped_index = refl
