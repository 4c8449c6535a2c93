-- ===== src/TaskGraph/Output/Calls.antt =====
-- Which groups of statements isPragmaValid (OutputHandler.cpp) finds a call in.
use apac.Prelude.{
  ℕ, zero, suc, ◌≡◌, refl, sym, ◌∙◌, ◌↔◌, ◌⊎◌, inl, inr, Bool, true, false, some, List, [], ◌∷◌,
}
use apac.Prelude.{In, Bool-cases, Option-cases, some_inj, none≢some}
use mathlib.Core.Path.{subst}
use mathlib.Core.Bool.{true≢false}
use apac.Prelude.Search.{push_all, In-push_all}
use apac.Core.ParamWrite.Writes.{Under, itself, in_child}
use apac.TaskGraph.StmtOrder.{Group}
use apac.TaskGraph.Output.{Source, find_call, has_function_call_in}

module _ (src : Source) where
  -- A call stands in the statement.
  abbrev pub HasCall : ℕ → Type 0
  HasCall s = (x : ℕ) × Under src.ast s x × (src.ast.is_call_expr x ≡ true)

  abbrev AnyCall : List ℕ → Type 0
  AnyCall stack = (s : ℕ) × In s stack × HasCall s

  no_call_below :
      (s : ℕ)
      → src.ast.is_call_expr s ≡ false
      → HasCall s
      → (c : ℕ) × In c (src.ast.children s) × HasCall c
  no_call_below s no_call (x, itself, call) = absurd (true≢false (sym call ∙ no_call))
  no_call_below s no_call (x, in_child {c} i u, call) = (c, i, (x, u, call))

  find_call-AnyCall :
      (fuel : ℕ) (stack : List ℕ) (b : Bool)
      → find_call src fuel stack ≡ some b
      → (b ≡ true) ↔ AnyCall stack
  unfolding find_call
  find_call-AnyCall fuel [] b h =
      let same = some_inj h in (λ t. let both = same ∙ t in cc, λ c. absurd c.1)
  find_call-AnyCall zero (s ∷ stack) b h = absurd (none≢some h)
  find_call-AnyCall (suc fuel) (s ∷ stack) b h = elim (Bool-cases (src.ast.is_call_expr s)) [
    | inl call ↦
        let same = some_inj (rw (call, find_call) at h) in
        (λ t. (s, inl refl, (s, itself, call)), λ c. sym same)
    | inr no_call ↦
        let rest =
          find_call-AnyCall fuel (push_all (src.ast.children s) stack) b
            (rw (no_call, find_call) at h) in
        (
          λ t.
              let (c, i, called) = rest.0 t in
              elim ((In-push_all c (src.ast.children s) stack).0 i) [
                | inl child ↦
                    let (x, u, call) = called in (s, inl refl, (x, in_child child u, call))
                | inr later ↦ (c, inr later, called)
              ],
          λ any.
              let (c, i, called) = any in
              elim i [
                | inl same ↦
                    let (d, at, deeper) = no_call_below s no_call (subst HasCall same called) in
                    rest.1 (d, (In-push_all d (src.ast.children s) stack).1 (inl at), deeper)
                | inr later ↦
                    rest.1 (c, (In-push_all c (src.ast.children s) stack).1 (inr later), called)
              ],
        )
  ]

  -- A statement of the group has a call in it.
  abbrev pub GroupHasCall : Group → Type 0
  GroupHasCall [] = ⊥
  GroupHasCall (instr ∷ group) = HasCall instr.0 ⊎ GroupHasCall group

  pub has_function_call_in-GroupHasCall :
      (fuel : ℕ) (group : Group) (b : Bool)
      → has_function_call_in src fuel group ≡ some b
      → (b ≡ true) ↔ GroupHasCall group
  unfolding has_function_call_in
  has_function_call_in-GroupHasCall fuel [] b h =
      let same = some_inj h in (λ t. let both = same ∙ t in cc, λ c. absurd c)
  has_function_call_in-GroupHasCall fuel (instr ∷ group) b h =
      elim (Option-cases (find_call src fuel (instr.0 ∷ []))) [
        | inl q ↦ absurd (none≢some (rw (q, has_function_call_in) at h))
        | inr (true, q) ↦
            let same = some_inj (rw (q, has_function_call_in) at h) in
            let (c, i, called) = (find_call-AnyCall fuel (instr.0 ∷ []) true q).0 refl in
            (
              λ t.
                  inl
                    (elim i [ inl here ↦ subst HasCall here called | inr absent ↦ absurd absent ]),
              λ c. sym same,
            )
        | inr (false, q) ↦
            let rest =
              has_function_call_in-GroupHasCall fuel group b (rw (q, has_function_call_in) at h) in
            (
              λ t. inr (rest.0 t),
              λ c. elim c [
                | inl first ↦
                    let found =
                      (find_call-AnyCall fuel (instr.0 ∷ []) false q).1
                        (instr.0, inl refl, first) in
                    absurd (true≢false (sym found))
                | inr later ↦ rest.1 later
              ],
            )
      ]
