-- ===== src/Core/Exprs/Subscripts.antt =====
-- The order of the indexes that getArraySubscriptsIndexes (core/common.cpp) returns.
use apac.Prelude.{ℕ, ◌≤◌, ◌≡◌, refl, ap, true, false, some, List, [], ◌∷◌, ◌++◌, append-nil, map}
use apac.Prelude.Walk.{
  Tree, tree, no_trees, branch, root, size, IsTreeOf, picked, walk_stack-picked,
}
use apac.Core.Ast.{Ast}
use apac.Core.Exprs.{sub_exprs, nested_next, get_array_subscripts, get_array_subscripts_indexes}

-- The expression is a variable with these indexes, `v[i][j]`, with casts and parentheses in between.
pub data IsSubscripted (a : Ast) : ℕ → List ℕ → Type 0 where
  plain : {e : ℕ} → a.is_array_subscript_expr e ≡ false → sub_exprs a e ≡ [] → IsSubscripted a e []
  wrapped :
      {e c : ℕ} {is : List ℕ}
      → a.is_array_subscript_expr e ≡ false
      → sub_exprs a e ≡ c ∷ []
      → IsSubscripted a c is
      → IsSubscripted a e is
  subscript :
      {e : ℕ} {is : List ℕ}
      → a.is_array_subscript_expr e ≡ true
      → IsSubscripted a (a.base e) is
      → IsSubscripted a e (is ++ a.idx e ∷ [])

module _ (a : Ast) where
  -- The walk's tree of the expression.
  abbrev TreeFor : ℕ → List ℕ → Type 0
  TreeFor e is =
      (t : Tree) × (root t ≡ e)
      × IsTreeOf (nested_next a) t
      × (map a.idx (picked (nested_next a) a.is_array_subscript_expr t) ≡ is)

  map-snoc : (f : ℕ → ℕ) (xs : List ℕ) (x : ℕ) → map f (xs ++ x ∷ []) ≡ map f xs ++ f x ∷ []
  map-snoc f [] x = refl
  map-snoc f (y ∷ xs) x = ap (λ l. f y ∷ l) (map-snoc f xs x)

  IsSubscripted-tree : {e : ℕ} {is : List ℕ} → IsSubscripted a e is → TreeFor e is
  IsSubscripted-tree (plain {e} not_one no_parts) =
      (tree e no_trees, refl, rw (not_one, no_parts) (refl, tt), rw not_one refl)
  IsSubscripted-tree (wrapped {e} {c} not_one part inner) =
      let (t, at, is, all) = IsSubscripted-tree inner in
      (
        tree e (branch t no_trees),
        refl,
        (rw (at, not_one, nested_next, part) refl, (is, tt)),
        rw
            (
              not_one,
              append-nil (picked (nested_next a) a.is_array_subscript_expr t),
              append-nil (picked (nested_next a) a.is_array_subscript_expr t),
            )
            all,
      )
  IsSubscripted-tree (subscript {e} one inner) =
      let (t, at, is, all) = IsSubscripted-tree inner in
      (
        tree e (branch t no_trees),
        refl,
        (rw (at, one, nested_next) refl, (is, tt)),
        rw
            (
              one,
              append-nil (picked (nested_next a) a.is_array_subscript_expr t),
              map-snoc a.idx (picked (nested_next a) a.is_array_subscript_expr t) e,
            )
            (ap (λ l. l ++ a.idx e ∷ []) all),
      )

  -- With enough fuel, getArraySubscriptsIndexes returns the indexes in the order in which they are
  -- written, for a variable with indexes, casts and parentheses in between.
  pub get_array_subscripts_indexes-IsSubscripted :
      (e : ℕ) (is : List ℕ)
      → IsSubscripted a e is
      → (n : ℕ) × ((fuel : ℕ) → n ≤ fuel → get_array_subscripts_indexes a fuel e ≡ some is)
  unfolding get_array_subscripts
  get_array_subscripts_indexes-IsSubscripted e is written =
      let (t, at, is_tree, all) = IsSubscripted-tree written in
      (
        size t,
        λ fuel enough.
            let walked =
              walk_stack-picked (nested_next a) a.is_array_subscript_expr fuel t is_tree enough in
            rw (rw at at walked, get_array_subscripts_indexes) (ap some all),
      )
