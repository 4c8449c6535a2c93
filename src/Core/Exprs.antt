-- ===== src/Core/Exprs.antt =====
-- core/common.cpp: the walks of an expression. They are searched with fuel, which counts the visits;
-- `none` at the top is out of fuel, and a null pointer is `none` inside.
pub mod Found
pub mod Subscripts
use apac.Prelude.{
  ℕ, zero, suc, Bool, true, false, ◌&&◌, ◌||◌, Option, none, some, List, [], ◌∷◌, map, filter,
  if◌then◌else◌,
}
use apac.Prelude.Int.{ℤ, minus_one, to_int}
use apac.Prelude.Walk.{walk_queue, walk_stack}
use apac.Core.Ast.{Ast}

-- The only element of a vector, if it has one element.
abbrev pub single : List ℕ → Option ℕ
single (x ∷ []) = some x
single _ = none

abbrev pub is_empty : List ℕ → Bool
is_empty [] = true
is_empty (x ∷ xs) = false

module _ (a : Ast) where
  abbrev pub leaf_next : ℕ → List ℕ
  leaf_next s = if a.is_call_expr s then [] else a.children s

  abbrev pub is_leaf : ℕ → Bool
  is_leaf s = a.is_call_expr s || is_empty (a.children s)

  unfoldable pub get_leafs : ℕ → ℕ → Option (List ℕ)
  get_leafs fuel st = walk_queue leaf_next is_leaf fuel (st ∷ []) []

  abbrev pub sub_exprs : ℕ → List ℕ
  sub_exprs s = filter a.is_expr (a.children s)

  -- A reference to a variable.
  abbrev pub is_variable : ℕ → Bool
  is_variable s = a.is_decl_ref_expr s && a.is_var_decl (a.decl s)

  abbrev pub decl_ref_next : ℕ → List ℕ
  decl_ref_next s = if is_variable s then [] else sub_exprs s

  unfoldable pub get_all_decl_ref_expr_inside_expr : ℕ → Option ℕ → Option (List ℕ)
  get_all_decl_ref_expr_inside_expr fuel none = some []
  get_all_decl_ref_expr_inside_expr fuel (some e) =
      walk_queue decl_ref_next is_variable fuel (e ∷ []) []

  abbrev pub get_single_decl_ref_expr_inside_expr : ℕ → Option ℕ → Option (Option ℕ)
  get_single_decl_ref_expr_inside_expr fuel e = elim (get_all_decl_ref_expr_inside_expr fuel e) [
    | none ↦ none
    | some found ↦ some (single found)
  ]

  -- The variable of a subscript of a subscript of ...: the loop.
  unfoldable pub array_base : ℕ → ℕ → Option ℕ
  array_base zero base = if a.is_array_subscript_expr base then none else some base
  array_base (suc fuel) base =
      let rest = array_base fuel (a.ignore_paren_imp_casts (a.base base)) in
      if a.is_array_subscript_expr base then rest else some base

  abbrev pub get_array_base_decl_ref_expr : ℕ → ℕ → Option (Option ℕ)
  get_array_base_decl_ref_expr fuel ase = elim (array_base fuel ase) [
    | none ↦ none
    | some base ↦ get_single_decl_ref_expr_inside_expr fuel (some base)
  ]

  abbrev pub subscript_next : ℕ → List ℕ
  subscript_next s = if a.is_array_subscript_expr s then [] else sub_exprs s

  abbrev pub get_single_array_subscript_expr_inside_expr : ℕ → ℕ → Option (Option ℕ)
  get_single_array_subscript_expr_inside_expr fuel e =
      elim (walk_stack subscript_next a.is_array_subscript_expr fuel (e ∷ []) []) [
        | none ↦ none
        | some found ↦ some (single found)
      ]

  abbrev pub nested_next : ℕ → List ℕ
  nested_next s = if a.is_array_subscript_expr s then a.base s ∷ [] else sub_exprs s

  unfoldable pub get_array_subscripts : ℕ → ℕ → Option (List ℕ)
  get_array_subscripts fuel e = walk_stack nested_next a.is_array_subscript_expr fuel (e ∷ []) []

  abbrev pub get_array_subscripts_indexes : ℕ → ℕ → Option (List ℕ)
  get_array_subscripts_indexes fuel e = elim (get_array_subscripts fuel e) [
    | none ↦ none
    | some found ↦ some (map a.idx found)
  ]

  -- -1 stands for an index that is not known. The number, of up to 64 bits, becomes an `int`.
  abbrev pub index_value : ℕ → ℤ
  index_value e = elim (a.evaluate_as_int e) [ none ↦ minus_one | some i ↦ to_int i ]

  unfoldable pub get_array_subscripts_indexes_values : ℕ → ℕ → Option (List ℤ)
  get_array_subscripts_indexes_values fuel e = elim (get_array_subscripts_indexes fuel e) [
    | none ↦ none
    | some indexes ↦ elim (a.is_array_subscript_expr e) [
      | false ↦ some []
      | true ↦ elim (get_array_base_decl_ref_expr fuel e) [
        | none ↦ none
        | some base ↦ elim (get_single_decl_ref_expr_inside_expr fuel base) [
          | none ↦ none
          | some variable ↦ elim variable [
            | none ↦ some []
            | some v ↦ some (map index_value indexes)
          ]
        ]
      ]
    ]
  ]

  -- TaskGraph: what an expression reads; the variable of `&v` is not read.
  abbrev pub is_address_of_variable : ℕ → Bool
  is_address_of_variable s =
      a.is_unary_operator s
      && (a.is_addr_of s && a.is_decl_ref_expr (a.ignore_imp_casts (a.sub_expr s)))

  abbrev pub read_next : ℕ → List ℕ
  read_next s = if is_address_of_variable s || is_variable s then [] else sub_exprs s

  abbrev pub is_read_variable : ℕ → Bool
  is_read_variable s = if is_address_of_variable s then false else is_variable s

  unfoldable pub get_all_read_decl_ref_expr_inside_expr : ℕ → Option ℕ → Option (List ℕ)
  get_all_read_decl_ref_expr_inside_expr fuel none = some []
  get_all_read_decl_ref_expr_inside_expr fuel (some e) =
      walk_queue read_next is_read_variable fuel (e ∷ []) []
