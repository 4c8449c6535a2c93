-- ===== src/Core/ParamWrite/Ends.antt =====
-- `analyzeFunction` (core/ParamWriteAnalyzer.cpp) ends, where expressions and bodies are finite
-- and no parameter has a type that is const throughout.
use apac.Prelude.{
  In, ℕ, zero, suc, ◌+◌, ◌≤◌, ◌<◌, ◌≡◌, refl, inl, inr, Bool, true, false, not, Option, none, some,
  List, [], ◌∷◌,
}
use apac.Prelude.{◌==◌, arith, Bool-cases, Option-cases, none≢some, Returns, Returns-value}
use apac.Prelude.Walk.{
  Tree, Trees, tree, no_trees, branch, root, roots, size, sizes, IsTreeOf, AreTreesOf,
}
use apac.Core.Ast.{Ast}
use apac.Core.Types.{Types, without_reference}
use apac.Core.Types.Const.{NonConstAt, const_levels-NonConstAt}
use apac.Core.ParamWrite.{
  or_else, tested, any_child, Written, is_param_read_only, inner_expr, refers_to_param,
  is_modifiable, passes_to, call_writes, node_writes, contains_write_to,
}

Returns-or_else : (x y : Option Bool) → Returns x → Returns y → Returns (or_else x y)
Returns-or_else none y p q = absurd (none≢some p.1)
Returns-or_else (some true) y p q = (true, refl)
Returns-or_else (some false) y p q = q

Returns-tested : (c : Bool) (x : Option Bool) → Returns x → Returns (tested c x)
Returns-tested true x p = p
Returns-tested false x p = Returns-value false

module _ (a : Ast) (ty : Types) where
  -- The operands of an expression get down to nothing in fewer steps than `bound`, and of the type of
  -- each parameter of a function, one level above `bound` is not const.
  pub record IsFinite (bound : ℕ) : Type 0 where
    pub depth : ℕ → ℕ
    pub depth_falls :
        (e inner : ℕ)
        → inner_expr a ty (a.ignore_paren_imp_casts e) ≡ some inner
        → depth inner < depth e
    pub depth_bounded : (e : ℕ) → depth e < bound
    pub non_const :
        (g p : ℕ)
        → In p (a.params g)
        → a.is_null_type (a.type_of p) ≡ false
        → (n : ℕ) × (n < bound) × NonConstAt ty n (without_reference ty (a.type_of p))

  module _ (bound : ℕ) (finite : IsFinite bound) where
    refers_to_param-Returns :
        (param fuel e : ℕ) → finite.depth e < fuel → Returns (refers_to_param a ty fuel e param)
    unfolding refers_to_param
    refers_to_param-Returns param zero e enough = absurd (ground arith)
    refers_to_param-Returns param (suc fuel) e enough =
        let s = a.ignore_paren_imp_casts e in
        elim (Bool-cases (a.is_decl_ref_expr s)) [
          | inl d ↦ rw (d, refers_to_param) (Returns-value _)
          | inr d ↦ elim (Option-cases (inner_expr a ty s)) [
            | inl q ↦ rw (d, q, refers_to_param) (Returns-value _)
            | inr (inner, q) ↦
                let down = finite.depth_falls e inner q in
                rw (d, q, refers_to_param) (refers_to_param-Returns param fuel inner (omega arith))
          ]
        ]

    is_modifiable-Returns :
        (fuel g p : ℕ)
        → In p (a.params g)
        → a.is_null_type (a.type_of p) ≡ false
        → bound ≤ fuel
        → Returns (is_modifiable a ty fuel (a.type_of p))
    is_modifiable-Returns fuel g p i typed enough =
        let (n, few, at) = finite.non_const g p i typed in
        let found =
          const_levels-NonConstAt ty n (without_reference ty (a.type_of p)) fuel at (omega arith) in
        rw (found, is_modifiable) (Returns-value _)

    passes_to-Returns :
        (fuel g : ℕ) (read_only : ℕ → Bool) (param i : ℕ) (ps xs : List ℕ)
        → ((p : ℕ) → In p ps → In p (a.params g))
        → bound ≤ fuel
        → Returns (passes_to a ty fuel read_only param i ps xs)
    unfolding passes_to
    passes_to-Returns fuel g read_only param i [] xs inside enough = Returns-value false
    passes_to-Returns fuel g read_only param i (p ∷ ps) [] inside enough = Returns-value false
    passes_to-Returns fuel g read_only param i (p ∷ ps) (x ∷ xs) inside enough =
        let rest =
          passes_to-Returns fuel g read_only param (suc i) ps xs (λ q j. inside q (inr j)) enough in
        let few = finite.depth_bounded x in
        let found = refers_to_param-Returns param fuel x (omega arith) in
        elim (Bool-cases (a.is_null_type (a.type_of p))) [
          | inl n ↦ rw (n, passes_to) rest
          | inr n ↦
              one_param read_only i p x rest found n
                (is_modifiable-Returns fuel g p (inside p (inl refl)) n enough)
        ]
      where
        one_param :
            (read_only : ℕ → Bool) (i p x : ℕ)
            → Returns (passes_to a ty fuel read_only param (suc i) ps xs)
            → Returns (refers_to_param a ty fuel x param)
            → a.is_null_type (a.type_of p) ≡ false
            → Returns (is_modifiable a ty fuel (a.type_of p))
            → Returns (passes_to a ty fuel read_only param i (p ∷ ps) (x ∷ xs))
        one_param read_only i p x rest found n (false, m) = rw (n, m, passes_to) rest
        one_param read_only i p x rest found n (true, m) = elim (Bool-cases (read_only i)) [
          | inl r ↦ rw (n, m, r, passes_to) rest
          | inr r ↦ rw (n, m, r, passes_to) (Returns-or_else _ _ found rest)
        ]

    call_writes-Returns :
        (fuel : ℕ) (w : Written) (param parent s : ℕ)
        → bound ≤ fuel
        → Returns (call_writes a ty fuel w param parent s)
    unfolding call_writes
    call_writes-Returns fuel w param parent s enough = elim (Option-cases (a.direct_callee s)) [
      | inl q ↦ rw (q, call_writes) (Returns-value false)
      | inr (callee, q) ↦ elim (Bool-cases (a.canonical callee == a.canonical parent)) [
        | inl e ↦ rw (q, e, call_writes) (Returns-value false)
        | inr e ↦
            rw (q, e, call_writes)
              (Returns-tested (not (a.is_apac_helper callee)) _ (
                passes_to-Returns fuel callee (is_param_read_only a ty w (some callee)) param 0
                  (a.params callee) (a.args s) (λ q j. j) enough))
      ]
    ]

    node_writes-Returns :
        (fuel : ℕ) (w : Written) (param parent s : ℕ)
        → bound ≤ fuel
        → Returns (node_writes a ty fuel w param parent s)
    node_writes-Returns fuel w param parent s enough =
        let left = finite.depth_bounded (a.lhs s) in
        let operand = finite.depth_bounded (a.sub_expr s) in
        Returns-or_else _ _
          (Returns-tested _ _ (refers_to_param-Returns param fuel (a.lhs s) (omega arith)))
          (Returns-or_else _ _
            (Returns-tested _ _ (refers_to_param-Returns param fuel (a.sub_expr s) (omega arith)))
            (Returns-tested (a.is_call_expr s) _
              (call_writes-Returns fuel w param parent s enough)))

    mutual
      unfolding contains_write_to

      contains_write_to-Returns :
          (fuel : ℕ) (w : Written) (param parent : ℕ) (t : Tree)
          → IsTreeOf a.children t
          → size t + bound ≤ fuel
          → Returns (contains_write_to a ty fuel w param parent (root t))
      contains_write_to-Returns zero w param parent (tree s ts) is enough = absurd (ground arith)
      contains_write_to-Returns (suc fuel) w param parent (tree s ts) is enough =
          Returns-or_else (node_writes a ty fuel w param parent s) _
            (node_writes-Returns fuel w param parent s (omega arith))
            (rw (← is.0) (any_child-Returns fuel w param parent ts is.1 (omega arith)))

      any_child-Returns :
          (fuel : ℕ) (w : Written) (param parent : ℕ) (ts : Trees)
          → AreTreesOf a.children ts
          → sizes ts + bound ≤ fuel
          → Returns (any_child (contains_write_to a ty fuel w param parent) (roots ts))
      any_child-Returns fuel w param parent no_trees are enough = Returns-value false
      any_child-Returns fuel w param parent (branch t ts) are enough =
          Returns-or_else (contains_write_to a ty fuel w param parent (root t)) _
            (contains_write_to-Returns fuel w param parent t are.0 (omega arith))
            (any_child-Returns fuel w param parent ts are.1 (omega arith))
