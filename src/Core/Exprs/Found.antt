-- ===== src/Core/Exprs/Found.antt =====
-- What the searches of an expression (core/common.cpp and the visitor of TaskGraph) find.
use apac.Prelude.{ℕ, ◌≤◌, ◌≡◌, sym, ap, ◌↔◌, inl, inr, Bool, true, false, ◌||◌, some, List, [], ◌∷◌}
use apac.Prelude.{In, filter, Bool-cases, arith}
use mathlib.Core.Bool.{true≢false}
use apac.Prelude.Walk.{Tree, root, size, IsTreeOf}
use apac.Prelude.Walk.Found.{Finds, here, below, walk_queue-below_cut}
use apac.Core.Ast.{Ast}
use apac.Core.Exprs.{
  sub_exprs, is_variable, is_address_of_variable, read_next, is_read_variable,
  get_all_read_decl_ref_expr_inside_expr,
}

pub In-filter : (p : ℕ → Bool) (x : ℕ) (xs : List ℕ) → In x (filter p xs) ↔ (In x xs × (p x ≡ true))
In-filter p x [] = (λ i. absurd i, λ i. absurd i.0)
In-filter p x (y ∷ xs) =
    let rest = In-filter p x xs in
    let same : x ≡ y → p x ≡ p y = (λ q. ap p q) in
    elim (Bool-cases (p y)) [
      | inl e ↦ rw (e, filter) (ground (arith, rest, same))
      | inr e ↦ rw (e, filter) (ground (arith, rest, same))
    ]

-- The variable reference `x` stands in the expression `s`, not below `&`.
pub data IsVariableUse (a : Ast) : ℕ → ℕ → Type 0 where
  read_here :
      {s : ℕ} → is_variable a s ≡ true → is_address_of_variable a s ≡ false → IsVariableUse a s s
  read_below :
      {s c x : ℕ}
      → is_variable a s ≡ false
      → is_address_of_variable a s ≡ false
      → In c (a.children s)
      → a.is_expr c ≡ true
      → IsVariableUse a c x
      → IsVariableUse a s x

module _ (a : Ast) where
  IsVariableUse-Finds :
      {s x : ℕ} → IsVariableUse a s x → Finds (read_next a) (is_read_variable a) s x
  IsVariableUse-Finds (read_here v n) = here (rw n v)
  IsVariableUse-Finds (read_below {s} {c} v n i e r) =
      below (rw (v, n) ((In-filter a.is_expr c (a.children s)).1 (i, e))) (IsVariableUse-Finds r)

  Finds-IsVariableUse :
      {s x : ℕ} → Finds (read_next a) (is_read_variable a) s x → IsVariableUse a s x
  Finds-IsVariableUse (here {s} e) = elim (Bool-cases (is_address_of_variable a s)) [
    | inl q ↦ absurd (true≢false (sym (rw (q, is_read_variable) at e)))
    | inr q ↦ read_here (rw (q, is_read_variable) at e) q
  ]
  Finds-IsVariableUse (below {s} {c} i f) = elim (Bool-cases (is_address_of_variable a s)) [
    | inl q ↦ absurd (rw (q, read_next) at i)
    | inr q ↦ elim (Bool-cases (is_variable a s)) [
      | inl v ↦ absurd (rw (q, v, read_next) at i)
      | inr v ↦
          let (at, e) = (In-filter a.is_expr c (a.children s)).0 (rw (q, v, read_next) at i) in
          read_below v q at e (Finds-IsVariableUse f)
    ]
  ]

  -- Where the parts of an expression are a tree, getAllReadDeclRefExprInsideExpr returns, in as many
  -- visits as the tree has nodes, the references to variables in it that are not the operand of `&`.
  pub get_all_read_decl_ref_expr-IsVariableUse :
      (fuel : ℕ) (t : Tree)
      → IsTreeOf (sub_exprs a) t
      → size t ≤ fuel
      → (r : List ℕ) × (get_all_read_decl_ref_expr_inside_expr a fuel (some (root t)) ≡ some r)
        × ((x : ℕ) → In x r ↔ IsVariableUse a (root t) x)
  unfolding get_all_read_decl_ref_expr_inside_expr
  get_all_read_decl_ref_expr-IsVariableUse fuel t is enough =
      let (r, e, found) =
        walk_queue-below_cut (sub_exprs a) (λ s. is_address_of_variable a s || is_variable a s)
          (is_read_variable a) fuel t is enough in
      (
        r,
        e,
        λ x. (λ i. Finds-IsVariableUse ((found x).0 i), λ i. (found x).1 (IsVariableUse-Finds i)),
      )
