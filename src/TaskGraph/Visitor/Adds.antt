-- ===== src/TaskGraph/Visitor/Adds.antt =====
-- Traversals (ASTTaskGraphVisitor.cpp) that add instructions to the innermost vector only.
use apac.Prelude.{◌≡◌, refl, sym, ◌∙◌, Bool, true, inl, inr, List, [], ◌∷◌, ◌++◌, append_assoc}
use apac.Prelude.{Bool-cases}
use mathlib.Core.Bool.{true≢false}
use mathlib.Core.Path.{subst}
use apac.TaskGraph.Instruction.{Instruction}
use apac.TaskGraph.Visitor.{State, Statements, and_then}

abbrev pub functions : State → List (List Instruction)
functions v = v.functions_instructions

-- These instructions are added to the innermost vector, and no other vector changes.
abbrev pub Appends : List Instruction → List (List Instruction) → List (List Instruction) → Type 0
Appends more [] after = [] ≡ after
Appends more (back ∷ rest) after = (back ++ more) ∷ rest ≡ after

pub Appends-trans :
    (more more' : List Instruction) (a b c : List (List Instruction))
    → Appends more a b
    → Appends more' b c
    → Appends (more ++ more') a c
Appends-trans more more' [] b c p q = subst (λ l. Appends more' l c) (sym p) q
Appends-trans more more' (back ∷ rest) b c p q =
    (λ i. sym (append_assoc back more more') i ∷ rest) ∙ subst (λ l. Appends more' l c) (sym p) q

-- The order and the flag are those before, and these instructions are added to the innermost vector.
abbrev pub Kept : List Instruction → State → State → Type 0
Kept more v v' =
    (v'.current_order_manager ≡ v.current_order_manager)
    × (v'.ignore_stmt_pragma ≡ v.ignore_stmt_pragma)
    × Appends more v.functions_instructions v'.functions_instructions

pub Kept-trans :
    (more more' : List Instruction) (u v w : State)
    → Kept more u v
    → Kept more' v w
    → Kept (more ++ more') u w
Kept-trans more more' u v w (order, flag, p) (order', flag', p') = (
  order' ∙ order,
  flag' ∙ flag,
  Appends-trans more more' (functions u) (functions v) (functions w) p p',
)

-- A traversal, where it succeeds, adds these instructions and keeps the order and the flag.
abbrev pub Adds : (State → List Instruction) → (State → Bool × State) → Type 0
Adds added a = (v : State) → (a v).0 ≡ true → Kept (added v) v (a v).1

module _ (st : Statements) where
  pub and_then-Adds :
      (added added' : State → List Instruction) (a b : State → Bool × State)
      → Adds added a
      → Adds added' b
      → Adds (λ v. added v ++ added' (a v).1) (and_then st a b)
  and_then-Adds added added' a b keep keep' v ok = elim (Bool-cases (a v).0) [
    | inl e ↦
        let first = keep v e in
        let second = keep' (a v).1 (rw (e, and_then) at ok) in
        rw (e, and_then)
          (Kept-trans (added v) (added' (a v).1) v (a v).1 (b (a v).1).1 first second)
    | inr e ↦ absurd (true≢false (sym (rw (e, and_then) at ok)))
  ]

  pub and_then-succeeded :
      (a b : State → Bool × State) (v : State)
      → (and_then st a b v).0 ≡ true
      → ((a v).0 ≡ true) × (and_then st a b v ≡ b (a v).1)
  and_then-succeeded a b v ok = elim (Bool-cases (a v).0) [
    | inl e ↦ (e, rw (e, and_then) refl)
    | inr e ↦ absurd (true≢false (sym (rw (e, and_then) at ok)))
  ]
