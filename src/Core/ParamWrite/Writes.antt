-- ===== src/Core/ParamWrite/Writes.antt =====
-- What containsWriteTo and refersToParam (core/ParamWriteAnalyzer.cpp) answer.
use apac.Prelude.{
  ℕ, zero, suc, ◌≡◌, refl, sym, ◌∙◌, ◌↔◌, inl, inr, Bool, true, false, ◌&&◌, ◌||◌, Option, none,
  some, List, [], ◌∷◌,
}
use apac.Prelude.{==_iff, In, Bool-cases, Option-cases, some_inj, none≢some}
use mathlib.Core.Path.{subst}
use mathlib.Core.Bool.{true≢false}
use apac.Core.Ast.{Ast}
use apac.Core.Types.{Types}
use apac.Core.ParamWrite.{
  or_else, tested, any_child, Written, inner_expr, refers_to_param, node_writes, contains_write_to,
}

module _ (a : Ast) (ty : Types) (param : ℕ) where
  -- The expression is the parameter, or a dereference, a subscript or a member of what refers to it.
  pub data Refers : ℕ → Type 0 where
    direct :
        {e : ℕ}
        → a.is_decl_ref_expr (a.ignore_paren_imp_casts e) ≡ true
        → a.canonical (a.decl (a.ignore_paren_imp_casts e)) ≡ a.canonical param
        → Refers e
    through :
        {e inner : ℕ}
        → a.is_decl_ref_expr (a.ignore_paren_imp_casts e) ≡ false
        → inner_expr a ty (a.ignore_paren_imp_casts e) ≡ some inner
        → Refers inner
        → Refers e

  not_through :
      (e : ℕ)
      → a.is_decl_ref_expr (a.ignore_paren_imp_casts e) ≡ false
      → inner_expr a ty (a.ignore_paren_imp_casts e) ≡ none
      → ¬ Refers e
  not_through e d n (direct d' c) = let both = sym d ∙ d' in cc
  not_through e d n (through d' i r) = none≢some (sym n ∙ i)

  -- If refersToParam ends, it is true exactly of the expressions that refer to the parameter.
  pub refers_to_param-Refers :
      (fuel e : ℕ) (b : Bool) → refers_to_param a ty fuel e param ≡ some b → (b ≡ true) ↔ Refers e
  unfolding refers_to_param
  refers_to_param-Refers zero e b h = absurd (none≢some h)
  refers_to_param-Refers (suc fuel) e b h =
      let s = a.ignore_paren_imp_casts e in
      elim (Bool-cases (a.is_decl_ref_expr s)) [
        | inl d ↦
            let same = some_inj (rw (d, refers_to_param) at h) in
            let names = ==_iff (a.canonical (a.decl s)) (a.canonical param) in
            (
              λ t. direct d (names.0 (same ∙ t)),
              λ r. elim r [
                | direct _ c ↦ sym same ∙ names.1 c
                | through d' _ _ ↦ let both = sym d ∙ d' in cc
              ],
            )
        | inr d ↦ elim (Option-cases (inner_expr a ty s)) [
          | inl q ↦
              let same = some_inj (rw (d, q, refers_to_param) at h) in
              (λ t. let both = same ∙ t in cc, λ r. absurd (not_through e d q r))
          | inr (inner, q) ↦
              let rest = refers_to_param-Refers fuel inner b (rw (d, q, refers_to_param) at h) in
              (
                λ t. through d q (rest.0 t),
                λ r. elim r [
                  | direct d' _ ↦ let both = sym d ∙ d' in cc
                  | through _ i r' ↦ rest.1 (subst Refers (some_inj (sym i ∙ q)) r')
                ],
              )
        ]
      ]

or_else-false : (x y : Option Bool) → or_else x y ≡ some false → (x ≡ some false) × (y ≡ some false)
or_else-false none y h = absurd (none≢some h)
or_else-false (some true) y h = let same = some_inj h in absurd (true≢false same)
or_else-false (some false) y h = (refl, h)

any_child-false :
    (f : ℕ → Option Bool) (cs : List ℕ)
    → any_child f cs ≡ some false
    → (c : ℕ) → In c cs
    → f c ≡ some false
any_child-false f [] h c i = absurd i
any_child-false f (d ∷ cs) h c i =
    let (first, later) = or_else-false (f d) (any_child f cs) h in
    elim i [ inl same ↦ rw same first | inr i' ↦ any_child-false f cs later c i' ]

-- The statement is this one or stands in it.
pub data Under (a : Ast) : ℕ → ℕ → Type 0 where
  itself : {s : ℕ} → Under a s s
  in_child : {s c x : ℕ} → In c (a.children s) → Under a c x → Under a s x

module _ (a : Ast) (ty : Types) (param : ℕ) where
  abbrev pub Assigns : ℕ → Type 0
  Assigns s =
      (a.is_binary_operator s ≡ true)
      × ((a.is_assignment_op s || a.is_compound_assignment_op s) ≡ true)
      × Refers a ty param (a.lhs s)

  abbrev pub Increments : ℕ → Type 0
  Increments s =
      (a.is_unary_operator s ≡ true)
      × (a.is_increment_decrement_op s ≡ true)
      × Refers a ty param (a.sub_expr s)

  tested-false :
      (fuel e : ℕ) (b c : Bool)
      → tested (b && c) (refers_to_param a ty fuel e param) ≡ some false
      → b ≡ true
      → c ≡ true
      → ¬ Refers a ty param e
  tested-false fuel e true true h _ _ r =
      let found = (refers_to_param-Refers a ty param fuel e false h).1 r in true≢false (sym found)
  tested-false fuel e false c h no_test _ r = true≢false (sym no_test)
  tested-false fuel e true false h _ no_test r = true≢false (sym no_test)

  node_writes-false :
      (fuel : ℕ) (w : Written) (parent s : ℕ)
      → node_writes a ty fuel w param parent s ≡ some false
      → (¬ Assigns s) × (¬ Increments s)
  node_writes-false fuel w parent s h =
      let (first, rest) =
        or_else-false
          (tested
            (a.is_binary_operator s && (a.is_assignment_op s || a.is_compound_assignment_op s))
            (refers_to_param a ty fuel (a.lhs s) param))
          _ h in
      let (second, _) =
        or_else-false
          (tested (a.is_unary_operator s && a.is_increment_decrement_op s)
            (refers_to_param a ty fuel (a.sub_expr s) param))
          _ rest in
      (
        λ c. tested-false fuel (a.lhs s) _ _ first c.0 c.1 c.2,
        λ c. tested-false fuel (a.sub_expr s) _ _ second c.0 c.1 c.2,
      )

  -- If containsWriteTo ends and is false, no part of the statement assigns to what refers to the
  -- parameter, nor increments or decrements it.
  pub contains_write_to-false :
      (fuel : ℕ) (w : Written) (parent s : ℕ)
      → contains_write_to a ty fuel w param parent s ≡ some false
      → (x : ℕ) → Under a s x
      → (¬ Assigns x) × (¬ Increments x)
  unfolding contains_write_to
  contains_write_to-false zero w parent s h x u = absurd (none≢some h)
  contains_write_to-false (suc fuel) w parent s h x itself =
      node_writes-false fuel w parent s
        (or_else-false (node_writes a ty fuel w param parent s) _ h).0
  contains_write_to-false (suc fuel) w parent s h x (in_child {c} i u) =
      let (_, rest) = or_else-false (node_writes a ty fuel w param parent s) _ h in
      contains_write_to-false fuel w parent c
        (any_child-false (contains_write_to a ty fuel w param parent) (a.children s) rest c i) x u
