-- ===== src/Core/Ast.antt =====
-- What core/common.cpp and core/ParamWriteAnalyzer.cpp ask of clang: its statements, declarations and
-- types are numbers, and its classes, accessors and tests are the fields of `Ast`.
use Prim.Native.String.{String}
use apac.Prelude.{ℕ, Bool, Option, List}
use apac.Prelude.Int.{ℤ}

-- `isa<C>(s)` is the field `is_c`.
pub record Ast : Type 0 where
  pub children : ℕ → List ℕ
  pub is_expr : ℕ → Bool
  pub is_call_expr : ℕ → Bool
  pub is_decl_ref_expr : ℕ → Bool
  pub is_array_subscript_expr : ℕ → Bool
  pub is_unary_operator : ℕ → Bool
  pub is_binary_operator : ℕ → Bool
  pub is_member_expr : ℕ → Bool
  -- `getDecl` of a reference, `isa<VarDecl>`, and `getCanonicalDecl`
  pub decl : ℕ → ℕ
  pub is_var_decl : ℕ → Bool
  pub canonical : ℕ → ℕ
  pub name : ℕ → String
  -- `getBase` and `getIdx` of a subscript, `getBase` of a member, `getSubExpr`, `getLHS`
  pub base : ℕ → ℕ
  pub idx : ℕ → ℕ
  pub member_base : ℕ → ℕ
  pub sub_expr : ℕ → ℕ
  pub lhs : ℕ → ℕ
  pub ignore_paren_imp_casts : ℕ → ℕ
  pub ignore_imp_casts : ℕ → ℕ
  pub is_addr_of : ℕ → Bool
  pub is_deref : ℕ → Bool
  pub is_assignment_op : ℕ → Bool
  pub is_compound_assignment_op : ℕ → Bool
  pub is_increment_decrement_op : ℕ → Bool
  -- `EvaluateAsInt`, as `getSExtValue` gives it; `none` is failure.
  pub evaluate_as_int : ℕ → Option ℤ
  -- `getDirectCallee` and the arguments of a call
  pub direct_callee : ℕ → Option ℕ
  pub args : ℕ → List ℕ
  -- Of a function: has it a body that is its definition, its parameters and its body; of a parameter: its type.
  pub is_definition : ℕ → Bool
  pub params : ℕ → List ℕ
  pub body : ℕ → ℕ
  pub type_of : ℕ → ℕ
  -- `isNull` of a type
  pub is_null_type : ℕ → Bool
  -- The function stands in the file `_apac_header.hpp`, or in a header.
  pub is_apac_helper : ℕ → Bool
  pub is_in_headers : ℕ → Bool
