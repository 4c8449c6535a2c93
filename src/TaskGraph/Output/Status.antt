-- ===== src/TaskGraph/Output/Status.antt =====
-- What isPragmaValid (OutputHandler.cpp) decides of a group of statements.
use apac.Prelude.{
  ℕ, ◌≡◌, refl, sym, ap, ◌∙◌, ◌↔◌, inl, inr, Bool, true, false, ◌||◌, Option, none, some, [], ◌∷◌,
}
use apac.Prelude.{if◌then◌else◌, Bool-cases, Option-cases, some_inj, none≢some}
use mathlib.Core.Path.{subst}
use mathlib.Core.Bool.{true≢false}
use apac.TaskGraph.Node.{Heap}
use apac.TaskGraph.StmtOrder.{StmtOrder, Group, get_node}
use apac.TaskGraph.Output.{
  Source, PragmaStatus, new_status, if_status, single_status, group_status, call_status,
  is_pragma_valid, has_function_call_in,
}
use apac.TaskGraph.Output.Calls.{GroupHasCall, has_function_call_in-GroupHasCall}

-- `is_task_valid` as a function.
abbrev is_valid : PragmaStatus → Bool
is_valid p = p.is_task_valid

abbrev calls_known : PragmaStatus → Bool
calls_known p = p.has_function_call

if_both :
    {A B : Type 0} (f : A → B) (c : Bool) (x y : A) (r : B)
    → f x ≡ r
    → f y ≡ r
    → f (if c then x else y) ≡ r
if_both f true x y r e e' = e
if_both f false x y r e e' = e'

module _ (src : Source) where
  -- A group of one statement may be a task if this is no declaration, no delete and no goto, and has no
  -- scope of its own; every other group may.
  abbrev pub MayBeTask : Group → Type 0
  MayBeTask ((instr, sub) ∷ []) =
      (src.is_decl_stmt instr ≡ false)
      × ((src.is_cxx_delete_expr instr || src.is_goto_stmt instr) ≡ false)
      × (sub ≡ none)
  MayBeTask _ = Unit

  if_status-no_task :
      (h : Heap) (o : StmtOrder) (instr : ℕ) (p p' : PragmaStatus)
      → if_status src h o instr p ≡ some p'
      → (p'.is_task_valid ≡ false) × (p'.has_function_call ≡ p.has_function_call)
  if_status-no_task h o instr p p' e = elim (Option-cases (get_node instr o)) [
    | inl q ↦ absurd (none≢some (rw (q, if_status) at e))
    | inr (n, q) ↦
        let same = some_inj (rw (q, if_status) at e) in
        (
          ap is_valid (sym same) ∙ if_both is_valid _ _ _ false refl refl,
          ap calls_known (sym same) ∙ if_both calls_known _ _ _ p.has_function_call refl refl,
        )
  ]

  single_status-MayBeTask :
      (h : Heap) (o : StmtOrder) (instr : ℕ) (sub : Option ℕ) (p' : PragmaStatus)
      → single_status src h o (instr, sub) new_status ≡ some p'
      → ((p'.is_task_valid ≡ true) ↔ MayBeTask ((instr, sub) ∷ [])) × (p'.has_function_call ≡ false)
  unfolding single_status
  single_status-MayBeTask h o instr sub p' e = elim (Bool-cases (src.is_decl_stmt instr)) [
    | inl d ↦
        let got = some_inj (rw (d, single_status) at e) in
        let same = ap is_valid got in
        (
          (λ t. let both = same ∙ t in cc, λ c. let both = sym d ∙ c.0 in cc),
          sym (ap calls_known got),
        )
    | inr d ↦ elim (Bool-cases (src.is_cxx_delete_expr instr || src.is_goto_stmt instr)) [
      | inl g ↦
          let got = some_inj (rw (d, g, single_status) at e) in
          let same = ap is_valid got in
          (
            (λ t. let both = same ∙ t in cc, λ c. let both = sym g ∙ c.1 in cc),
            sym (ap calls_known got),
          )
      | inr g ↦ elim (Option-cases sub) [
        | inl q ↦
            let got = some_inj (rw (d, g, q, single_status) at e) in
            let same = ap is_valid got in
            ((λ t. (d, g, q), λ c. sym same), sym (ap calls_known got))
        | inr (k, q) ↦ elim (Bool-cases (src.clang.is_if_stmt instr)) [
          | inl i ↦
              let (same, calls) =
                if_status-no_task h o instr new_status p' (rw (d, g, q, i, single_status) at e) in
              ((λ t. let both = sym same ∙ t in cc, λ c. absurd (none≢some (sym c.2 ∙ q))), calls)
          | inr i ↦
              let got = some_inj (rw (d, g, q, i, single_status) at e) in
              let same = ap is_valid got in
              (
                (λ t. let both = same ∙ t in cc, λ c. absurd (none≢some (sym c.2 ∙ q))),
                sym (ap calls_known got),
              )
        ]
      ]
    ]
  ]

  group_status-MayBeTask :
      (h : Heap) (o : StmtOrder) (group : Group) (p' : PragmaStatus)
      → group_status src h o group new_status ≡ some p'
      → ((p'.is_task_valid ≡ true) ↔ MayBeTask group) × (p'.has_function_call ≡ false)
  group_status-MayBeTask h o [] p' e =
      let got = some_inj e in
      let same = ap is_valid got in ((λ t. tt, λ c. sym same), sym (ap calls_known got))
  group_status-MayBeTask h o ((instr, sub) ∷ []) p' e = single_status-MayBeTask h o instr sub p' e
  group_status-MayBeTask h o (a ∷ b ∷ group) p' e =
      let got = some_inj e in
      let same = ap is_valid got in ((λ t. tt, λ c. sym same), sym (ap calls_known got))

  abbrev Answer : ℕ → Group → PragmaStatus → PragmaStatus → Type 0
  Answer fuel group p p' =
      (p'.is_task_valid ≡ p.is_task_valid)
      × ((p'.has_function_call ≡ true) ↔ ((p.is_task_valid ≡ true) × GroupHasCall src group))

  call_status-GroupHasCall :
      (fuel : ℕ) (group : Group) (p p' : PragmaStatus)
      → call_status src fuel group p ≡ some p'
      → p.has_function_call ≡ false
      → Answer fuel group p p'
  call_status-GroupHasCall fuel group p p' e none_yet = elim (Bool-cases p.is_task_valid) [
    | inr v ↦
        subst (λ (z : PragmaStatus). Answer fuel group p z) (some_inj (rw (v, call_status) at e))
          (sym v, (λ t. let both = sym none_yet ∙ t in cc, λ c. let both = sym v ∙ c.0 in cc))
    | inl v ↦ elim (Option-cases (has_function_call_in src fuel group)) [
      | inl q ↦ absurd (none≢some (rw (v, q, call_status) at e))
      | inr (true, q) ↦
          subst (λ (z : PragmaStatus). Answer fuel group p z)
            (some_inj (rw (v, q, call_status) at e))
            (
              refl,
              (
                λ t. (v, (has_function_call_in-GroupHasCall src fuel group true q).0 refl),
                λ c. refl,
              ),
            )
      | inr (false, q) ↦
          subst (λ (z : PragmaStatus). Answer fuel group p z)
            (some_inj (rw (v, q, call_status) at e))
            (
              refl,
              (
                λ t. let both = sym none_yet ∙ t in cc,
                λ c.
                    let found = (has_function_call_in-GroupHasCall src fuel group false q).1 c.1 in
                    cc,
              ),
            )
    ]
  ]

  -- Where isPragmaValid has a result, a group gets a task exactly if it may be one, and the task
  -- increments the depth exactly if a call stands in one of its statements.
  pub is_pragma_valid-MayBeTask :
      (fuel : ℕ) (h : Heap) (o : StmtOrder) (group : Group) (p' : PragmaStatus)
      → is_pragma_valid src fuel h o group new_status ≡ some p'
      → ((p'.is_task_valid ≡ true) ↔ MayBeTask group)
        × ((p'.has_function_call ≡ true) ↔ (MayBeTask group × GroupHasCall src group))
  unfolding is_pragma_valid
  is_pragma_valid-MayBeTask fuel h o [] p' e =
      subst
        (λ (z : PragmaStatus).
          ((z.is_task_valid ≡ true) ↔ Unit) × ((z.has_function_call ≡ true) ↔ (Unit × ⊥)))
        (some_inj e) ((λ t. tt, λ c. refl), (λ t. absurd (true≢false (sym t)), λ c. absurd c.1))
  is_pragma_valid-MayBeTask fuel h o (instr ∷ group) p' e =
      elim (Option-cases (group_status src h o (instr ∷ group) new_status)) [
        | inl q ↦ absurd (none≢some (rw (q, is_pragma_valid) at e))
        | inr (p, q) ↦
            let (task, none_yet) = group_status-MayBeTask h o (instr ∷ group) p q in
            let (same, calls) =
              call_status-GroupHasCall fuel (instr ∷ group) p p' (rw (q, is_pragma_valid) at e)
                none_yet in
            (
              (λ t. task.0 (sym same ∙ t), λ c. same ∙ task.1 c),
              (
                λ t. let (valid, call) = calls.0 t in (task.0 valid, call),
                λ c. calls.1 (task.1 c.0, c.1),
              ),
            )
      ]
