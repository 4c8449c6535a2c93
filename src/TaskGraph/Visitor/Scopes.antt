-- ===== src/TaskGraph/Visitor/Scopes.antt =====
-- What TraverseForStmt (ASTTaskGraphVisitor.cpp) leaves of the visitor's state.
use apac.Prelude.{
  ℕ, ◌≡◌, refl, sym, ap, ◌∙◌, Bool, true, false, inl, inr, Option, none, some, List, [], ◌∷◌, ◌++◌,
}
use apac.Prelude.{Bool-cases, Option-cases, some_inj, none≢some}
use mathlib.Core.Bool.{true≢false}
use mathlib.Core.Path.{subst}
use apac.TaskGraph.Instruction.{Instruction}
use apac.TaskGraph.StmtOrder.{get_sub_stmt_order}
use apac.TaskGraph.Visitor.Adds.{
  functions, Appends, Appends-trans, Adds, and_then-Adds, and_then-succeeded,
}
use apac.TaskGraph.Visitor.Merged.{IsForInstruction, for_instruction-IsForInstruction}
use apac.TaskGraph.Visitor.{
  State, Statements, add_unless_ignored, enter_order, with_flag, for_instruction, close_scope,
  and_then, traverse_head, enter_for, traverse_for_stmt,
}

abbrev ended : Bool → State → Option (Bool × State)
ended ok w = some (ok, w)

abbrev after_scope : Option State → Option (Bool × State)
after_scope none = none
after_scope (some w) = some (true, w)

module _ (st : Statements) where
  functions-enter_order : (s : ℕ) (v : State) → functions (enter_order st s v) ≡ functions v
  functions-enter_order s v =
      elim (Option-cases (get_sub_stmt_order s (v.orders.order_at v.current_order_manager))) [
        | inl q ↦ rw (q, enter_order) refl
        | inr (sub, q) ↦ rw (q, enter_order) refl
      ]

  functions-add_unless_ignored :
      (s : ℕ) (v : State) → functions (add_unless_ignored st s v) ≡ functions v
  functions-add_unless_ignored s v = elim (Bool-cases v.ignore_stmt_pragma) [
    | inl e ↦ rw (e, add_unless_ignored) refl
    | inr e ↦ rw (e, add_unless_ignored) refl
  ]

  functions-enter_for : (f : ℕ) (v : State) → functions (enter_for st f v) ≡ [] ∷ functions v
  functions-enter_for f v =
      ap (λ l. [] ∷ l)
        (functions-enter_order f (add_unless_ignored st f v) ∙ functions-add_unless_ignored f v)

  close_scope-functions :
      (comp : List Instruction → Instruction) (v v' : State) (scoped back : List Instruction)
      (rest : List (List Instruction))
      → functions v ≡ scoped ∷ back ∷ rest
      → close_scope st comp v ≡ some v'
      → (v'.current_order_manager ≡ v.current_order_manager)
        × (v'.ignore_stmt_pragma ≡ v.ignore_stmt_pragma)
        × (functions v' ≡ (back ++ comp scoped ∷ []) ∷ rest)
  close_scope-functions comp v v' scoped back rest at e =
      subst
        (λ (w : State).
          (w.current_order_manager ≡ v.current_order_manager)
          × (w.ignore_stmt_pragma ≡ v.ignore_stmt_pragma)
          × (functions w ≡ (back ++ comp scoped ∷ []) ∷ rest))
        (some_inj (rw (at, close_scope) at e)) (refl, refl, refl)

  module _ (traverse_stmt : ℕ → State → Bool × State) (added : ℕ → State → List Instruction) where
    -- What the three parts of the head add, from the state at the first of them.
    abbrev pub head_instructions : ℕ → State → List Instruction
    head_instructions f v =
        let v1 = (traverse_stmt (st.cond f) v).1 in
        let v2 = (traverse_stmt (st.inc f) v1).1 in
        added (st.cond f) v ++ (added (st.inc f) v1 ++ added (st.init f) v2)

    -- The state at the body, if the head succeeds.
    abbrev pub at_body : ℕ → State → State
    at_body f v =
        let v1 = (traverse_stmt (st.cond f) v).1 in
        let v2 = (traverse_stmt (st.inc f) v1).1 in
        with_flag st false (traverse_stmt (st.init f) v2).1

    -- What the parts of the for statement add, in the order of their traversal.
    abbrev pub scope_instructions : ℕ → State → List Instruction
    scope_instructions f v =
        let v0 = enter_for st f v in head_instructions f v0 ++ added (st.body f) (at_body f v0)

  module _ (traverse_stmt : ℕ → State → Bool × State) (added : ℕ → State → List Instruction)
      (adds : (s : ℕ) → Adds (added s) (traverse_stmt s)) where
    traverse_head-Adds :
        (f : ℕ) → Adds (head_instructions traverse_stmt added f) (traverse_head st traverse_stmt f)
    traverse_head-Adds f =
        and_then-Adds st (added (st.cond f))
          (λ v. added (st.inc f) v ++ added (st.init f) (traverse_stmt (st.inc f) v).1)
          (traverse_stmt (st.cond f))
          (and_then st (traverse_stmt (st.inc f)) (traverse_stmt (st.init f))) (adds (st.cond f))
          (and_then-Adds st (added (st.inc f)) (added (st.init f)) (traverse_stmt (st.inc f))
            (traverse_stmt (st.init f)) (adds (st.inc f)) (adds (st.init f)))

    -- The state after a head that succeeds.
    traverse_head-at_body :
        (f : ℕ) (v : State)
        → (traverse_head st traverse_stmt f v).0 ≡ true
        → with_flag st false (traverse_head st traverse_stmt f v).1
          ≡ at_body traverse_stmt added f v
    traverse_head-at_body f v ok =
        let (_, first) = and_then-succeeded st (traverse_stmt (st.cond f)) (later f) v ok in
        let v1 = (traverse_stmt (st.cond f) v).1 in
        let (_, second) =
          and_then-succeeded st (traverse_stmt (st.inc f)) (traverse_stmt (st.init f)) v1
            (sym (ap (λ (p : Bool × State). p.0) first) ∙ ok) in
        ap (λ (p : Bool × State). with_flag st false p.1) (first ∙ second)
      where
        later : ℕ → State → Bool × State
        later f = and_then st (traverse_stmt (st.inc f)) (traverse_stmt (st.init f))

    not_done : {w v' : State} {P : Type 0} → ended false w ≡ ended true v' → P
    not_done e = absurd (true≢false (sym (ap (λ (p : Bool × State). p.0) (some_inj e))))

    -- The end of the traversal, with the vector of the scope on top.
    left_scope :
        (f : ℕ) (v v2 v' : State) (scoped back : List Instruction) (rest : List (List Instruction))
        → functions v2 ≡ scoped ∷ back ∷ rest
        → after_scope (
            close_scope st (for_instruction st f) (record v2 {
              ignore_stmt_pragma = v.ignore_stmt_pragma;
              current_order_manager = v.current_order_manager;
            }))
          ≡ ended true v'
        → (functions v' ≡ (back ++ for_instruction st f scoped ∷ []) ∷ rest)
          × (v'.current_order_manager ≡ v.current_order_manager)
          × (v'.ignore_stmt_pragma ≡ v.ignore_stmt_pragma)
    left_scope f v v2 v' scoped back rest at e =
        let v3 : State = record v2 {
          ignore_stmt_pragma = v.ignore_stmt_pragma;
          current_order_manager = v.current_order_manager;
        } in
        elim (Option-cases (close_scope st (for_instruction st f) v3)) [
          | inl q ↦ absurd (none≢some (rw (q, after_scope) at e))
          | inr (w, q) ↦
              let same : w ≡ v' =
                ap (λ (p : Bool × State). p.1) (some_inj (rw (q, after_scope) at e)) in
              let (order, flag, all) =
                close_scope-functions (for_instruction st f) v3 w scoped back rest at q in
              subst
                (λ (u : State).
                  (functions u ≡ (back ++ for_instruction st f scoped ∷ []) ∷ rest)
                  × (u.current_order_manager ≡ v.current_order_manager)
                  × (u.ignore_stmt_pragma ≡ v.ignore_stmt_pragma))
                same (all, order, flag)
        ]

    -- If TraverseStmt, where it succeeds, keeps the current order and the flag, and adds certain
    -- instructions to the innermost vector only, then TraverseForStmt of a for statement that is in no
    -- header, where it succeeds, keeps these too, and adds one instruction to the innermost vector. This
    -- is a complex instruction of the statement that is not fused; its scope holds what the condition,
    -- the increment, the initialisation and the body add, in this order, each in the state that the
    -- parts before it leave; and it accesses each element as the first instruction of the scope that
    -- does so accesses it.
    pub traverse_for_stmt-functions :
        (f : ℕ) (v v' : State) (back : List Instruction) (rest : List (List Instruction))
        → st.is_in_headers f ≡ false
        → functions v ≡ back ∷ rest
        → traverse_for_stmt st traverse_stmt f v ≡ some (true, v')
        → (i : Instruction) × (functions v' ≡ (back ++ i ∷ []) ∷ rest)
          × IsForInstruction f (scope_instructions traverse_stmt added f v) i
          × (v'.current_order_manager ≡ v.current_order_manager)
          × (v'.ignore_stmt_pragma ≡ v.ignore_stmt_pragma)
    unfolding traverse_for_stmt
    traverse_for_stmt-functions f v v' back rest here at e =
        let v0 = enter_for st f v in
        elim (Bool-cases (traverse_head st traverse_stmt f v0).0) [
          | inr no_head ↦ not_done (rw (here, no_head, traverse_for_stmt) at e)
          | inl head ↦
              let v1 = (traverse_head st traverse_stmt f v0).1 in
              elim (Bool-cases (traverse_stmt (st.body f) (with_flag st false v1)).0) [
                | inr no_body ↦ not_done (rw (here, head, no_body, traverse_for_stmt) at e)
                | inl body ↦
                    let v2 = (traverse_stmt (st.body f) (with_flag st false v1)).1 in
                    let below = traverse_head-Adds f v0 head in
                    let inside = adds (st.body f) (with_flag st false v1) body in
                    let more =
                      head_instructions traverse_stmt added f v0
                      ++ added (st.body f) (with_flag st false v1) in
                    let p : more ∷ back ∷ rest ≡ functions v2 =
                      subst (λ l. Appends more l (functions v2))
                        (functions-enter_for f v ∙ ap (λ l. [] ∷ l) at)
                        (Appends-trans (head_instructions traverse_stmt added f v0)
                          (added (st.body f) (with_flag st false v1)) (functions v0) (functions v1)
                          (functions v2) below.2 inside.2) in
                    let same : more ≡ scope_instructions traverse_stmt added f v =
                      ap
                        (λ (w : State).
                          head_instructions traverse_stmt added f v0 ++ added (st.body f) w)
                        (traverse_head-at_body f v0 head) in
                    let scope = scope_instructions traverse_stmt added f v in
                    let (all, order, flag) =
                      left_scope f v v2 v' (scope_instructions traverse_stmt added f v) back rest
                        (sym p ∙ ap (λ l. l ∷ back ∷ rest) same)
                        (rw (here, head, body, traverse_for_stmt) at e) in
                    (
                      for_instruction st f scope,
                      all,
                      for_instruction-IsForInstruction st f scope,
                      order,
                      flag,
                    )
              ]
        ]
