-- ===== src/Core/ParamWrite/Analysis.antt =====
-- What analyzeFunction (core/ParamWriteAnalyzer.cpp) records of the parameters of a function.
use apac.Prelude.{
  ℕ, zero, suc, ◌≤◌, ◌<◌, ◌≡◌, refl, sym, ap, ◌∙◌, ◌≢◌, ◌⊎◌, inl, inr, Bool, true, false, not, ◌&&◌,
  ◌||◌, Option, none, some, List, [], ◌∷◌,
}
use apac.Prelude.{
  ◌==◌, ==_iff, ==-self, ==-ne, arith, insert, In-insert, contains, contains_iff, Bool-cases,
  Option-cases, some_inj, none≢some, if_true, if_false,
}
use mathlib.Core.Path.{subst}
use mathlib.Core.Bool.{true≢false}
use apac.Prelude.Maps.{assign}
use apac.Core.Ast.{Ast}
use apac.Core.Types.{Types}
use apac.Core.ParamWrite.{
  or_else, tested, any_child, Written, is_param_read_only, is_modifiable, refers_to_param,
  passes_to, call_writes, contains_write_to, written_set, add_written, param_written,
  analyze_params, analyze_function,
}
use apac.Core.ParamWrite.Writes.{Under, Assigns, Increments, contains_write_to-false}

-- The parameter stands at this number, where the list starts at another.
pub data StandsAt : ℕ → ℕ → ℕ → List ℕ → Type 0 where
  first : {i p : ℕ} {ps : List ℕ} → StandsAt i i p (p ∷ ps)
  after : {i k p q : ℕ} {ps : List ℕ} → StandsAt (suc i) k p ps → StandsAt i k p (q ∷ ps)

StandsAt-least : {i k p : ℕ} {ps : List ℕ} → StandsAt i k p ps → i ≤ k
StandsAt-least first = ground arith
StandsAt-least (after at) = let rest = StandsAt-least at in ground arith

StandsAt-cases :
    {i k p q : ℕ} {ps : List ℕ}
    → StandsAt i k p (q ∷ ps)
    → ((k ≡ i) × (p ≡ q)) ⊎ StandsAt (suc i) k p ps
StandsAt-cases first = inl (refl, refl)
StandsAt-cases (after at) = inr at

StandsAt-none : {i k p : ℕ} → ¬ StandsAt i k p []
StandsAt-none stands = elim stands [ ]

module _ (a : Ast) (ty : Types) (f : ℕ) where
  -- The maps have the same sets, but perhaps for the function itself.
  abbrev Agree : Written → Written → Type 0
  Agree w v = (g : ℕ) → g ≢ a.canonical f → w g ≡ v g

  call_writes-Agree :
      (fuel : ℕ) (w v : Written) (param s : ℕ)
      → Agree w v
      → call_writes a ty fuel w param f s ≡ call_writes a ty fuel v param f s
  unfolding call_writes
  call_writes-Agree fuel w v param s agree = elim (Option-cases (a.direct_callee s)) [
    | inl q ↦ rw (q, call_writes) refl
    | inr (callee, q) ↦ elim (Bool-cases (a.canonical callee == a.canonical f)) [
      | inl e ↦ rw (q, e, call_writes) refl
      | inr e ↦
          let other : a.canonical callee ≢ a.canonical f =
            λ same. true≢false (sym ((==_iff (a.canonical callee) (a.canonical f)).1 same) ∙ e) in
          rw (q, e, call_writes)
            (λ j. tested (not (a.is_apac_helper callee)) (
              passes_to a ty fuel
                (λ i. elim (agree (a.canonical callee) other j) [
                  | none ↦ false
                  | some set ↦ not (contains i set)
                ])
                param 0 (a.params callee) (a.args s)))
    ]
  ]

  contains_write_to-Agree :
      (fuel : ℕ) (w v : Written) (param s : ℕ)
      → Agree w v
      → contains_write_to a ty fuel w param f s ≡ contains_write_to a ty fuel v param f s
  unfolding contains_write_to
  contains_write_to-Agree zero w v param s agree = refl
  contains_write_to-Agree (suc fuel) w v param s agree =
      let calls = call_writes-Agree fuel w v param s agree in
      let deeper = λ (c : ℕ). contains_write_to-Agree fuel w v param c agree in
      λ j.
        or_else
          (or_else
            (tested
              (a.is_binary_operator s && (a.is_assignment_op s || a.is_compound_assignment_op s))
              (refers_to_param a ty fuel (a.lhs s) param))
            (or_else
              (tested (a.is_unary_operator s && a.is_increment_decrement_op s)
                (refers_to_param a ty fuel (a.sub_expr s) param))
              (tested (a.is_call_expr s) (calls j))))
          (any_child (λ c. deeper c j) (a.children s))

  param_written-Agree :
      (fuel : ℕ) (w v : Written) (param : ℕ)
      → Agree w v
      → param_written a ty fuel w f param ≡ param_written a ty fuel v f param
  unfolding param_written
  param_written-Agree fuel w v param agree =
      let same = contains_write_to-Agree fuel w v param (a.body f) agree in
      λ j. elim (a.is_null_type (a.type_of param)) [
        | true ↦ some false
        | false ↦ elim (is_modifiable a ty fuel (a.type_of param)) [
          | none ↦ none
          | some modifiable ↦ tested modifiable (same j)
        ]
      ]

  add_written-Agree : (w : Written) (i : ℕ) → Agree w (add_written a ty w f i)
  add_written-Agree w i g other = rw (==-ne g (a.canonical f) other, add_written) refl

  add_written_self :
      (w : Written) (i : ℕ) (set : List ℕ)
      → w (a.canonical f) ≡ some set
      → add_written a ty w f i (a.canonical f) ≡ some (insert i set)
  add_written_self w i set at =
      if_true _ _ (==-self (a.canonical f))
      ∙ ap (λ (o : Option (List ℕ)). some (insert i (elim o [ none ↦ [] | some old ↦ old ]))) at

  -- What the loop from number `i` leaves in the set of the function: numbers before `i` as they were,
  -- and of the parameters those that are written.
  abbrev IsRecorded : ℕ → Written → ℕ → List ℕ → List ℕ → Written → Type 0
  IsRecorded fuel w i ps set w' =
      (set' : List ℕ) × (w' (a.canonical f) ≡ some set')
      × ((k : ℕ) → k < i → contains k set' ≡ contains k set)
      × ((k p : ℕ)
          → StandsAt i k p ps
          → (b : Bool) × (param_written a ty fuel w f p ≡ some b)
            × (contains k set' ≡ (contains k set || b)))

  contains-insert :
      (k i : ℕ) (set : List ℕ) → contains k (insert i set) ≡ ((k == i) || contains k set)
  contains-insert k i set =
      let ins = In-insert k i set in
      let new = contains_iff k (insert i set) in
      let old = contains_iff k set in let same = ==_iff k i in ground (arith, ins, new, old, same)

  analyze_params-IsRecorded :
      (fuel : ℕ) (w : Written) (i : ℕ) (ps set : List ℕ) (w' : Written)
      → w (a.canonical f) ≡ some set
      → analyze_params a ty fuel f i ps w ≡ some w'
      → IsRecorded fuel w i ps set w'
  unfolding analyze_params
  analyze_params-IsRecorded fuel w i [] set w' at e = (
    set,
    subst (λ v. v (a.canonical f) ≡ some set) (some_inj e) at,
    λ k less. refl,
    λ k p stands. absurd (StandsAt-none stands),
  )
  analyze_params-IsRecorded fuel w i (q ∷ ps) set w' at e =
      elim (Option-cases (param_written a ty fuel w f q)) [
        | inl out ↦ absurd (none≢some (rw (out, analyze_params) at e))
        | inr (true, q_written) ↦
            let (set', at', before, later) =
              analyze_params-IsRecorded fuel (add_written a ty w f i) (suc i) ps (insert i set) w'
                (add_written_self w i set at) (rw (q_written, analyze_params) at e) in
            (
              set',
              at',
              λ k less.
                  let kept = before k (ground arith) in
                  let added = contains-insert k i set in ground arith,
              λ k p stands. elim (StandsAt-cases stands) [
                | inl (same, is_q) ↦
                    let kept = before k (rw same (omega arith)) in
                    let added = contains-insert k i set in (true, rw is_q q_written, ground arith)
                | inr at_later ↦
                    let least = StandsAt-least at_later in
                    let (b, p_written, shown) = later k p at_later in
                    let added = contains-insert k i set in
                    (
                      b,
                      param_written-Agree fuel w (add_written a ty w f i) p (add_written-Agree w i)
                          ∙ p_written,
                      ground arith,
                    )
              ],
            )
        | inr (false, q_written) ↦
            let (set', at', before, later) =
              analyze_params-IsRecorded fuel w (suc i) ps set w' at
                (rw (q_written, analyze_params) at e) in
            (
              set',
              at',
              λ k less. before k (ground arith),
              λ k p stands. elim (StandsAt-cases stands) [
                | inl (same, is_q) ↦
                    let kept = before k (rw same (omega arith)) in
                    (false, rw is_q q_written, ground arith)
                | inr at_later ↦ later k p at_later
              ],
            )
      ]

  -- After the first analysis of a function, isParamReadOnly is true exactly of its parameters that are
  -- not analysed (neither a pointer nor a reference, or const) or that its body does not write to.
  pub analyze_function-param_written :
      (fuel : ℕ) (w w' : Written) (k p : ℕ)
      → w (a.canonical f) ≡ none
      → analyze_function a ty fuel f w ≡ some w'
      → StandsAt 0 k p (a.params f)
      → (b : Bool) × (param_written a ty fuel w f p ≡ some b)
        × (is_param_read_only a ty w' (some f) k ≡ not b)
  unfolding analyze_function
  analyze_function-param_written fuel w w' k p new e stands =
      let start = assign (a.canonical f) (written_set a ty w f) w in
      let start_at : start (a.canonical f) ≡ some [] =
        if_true _ _ (==-self (a.canonical f))
        ∙ ap (λ (o : Option (List ℕ)). some (elim o [ none ↦ [] | some old ↦ old ])) new in
      let agree : Agree w start = λ g other. sym (if_false _ _ (==-ne g (a.canonical f) other)) in
      let (set', at', _, later) =
        analyze_params-IsRecorded fuel start 0 (a.params f) [] w' start_at e in
      let (b, p_written, shown) = later k p stands in
      (
        b,
        param_written-Agree fuel w start p agree ∙ p_written,
        rw (at', is_param_read_only) (ap not shown),
      )

  not_written :
      (fuel : ℕ) (w : Written) (p : ℕ)
      → a.is_null_type (a.type_of p) ≡ false
      → is_modifiable a ty fuel (a.type_of p) ≡ some true
      → param_written a ty fuel w f p ≡ some false
      → contains_write_to a ty fuel w p f (a.body f) ≡ some false
  unfolding param_written
  not_written fuel w p non_null modifiable e = rw (non_null, modifiable, param_written) at e

  -- After the first analysis of a function, if isParamReadOnly is true of a pointer or reference
  -- parameter that is not const, no part of the body assigns to what refers to the parameter, nor
  -- increments or decrements it.
  pub analyze_function-read_only :
      (fuel : ℕ) (w w' : Written) (k p : ℕ)
      → w (a.canonical f) ≡ none
      → analyze_function a ty fuel f w ≡ some w'
      → StandsAt 0 k p (a.params f)
      → a.is_null_type (a.type_of p) ≡ false
      → is_modifiable a ty fuel (a.type_of p) ≡ some true
      → is_param_read_only a ty w' (some f) k ≡ true
      → (x : ℕ) → Under a (a.body f) x
      → (¬ Assigns a ty p x) × (¬ Increments a ty p x)
  analyze_function-read_only fuel w w' k p new e stands non_null modifiable read_only x inside =
      let (b, p_written, shown) = analyze_function-param_written fuel w w' k p new e stands in
      let same : b ≡ false = ground arith in
      contains_write_to-false a ty p fuel w f (a.body f)
        (not_written fuel w p non_null modifiable (p_written ∙ ap some same)) x inside
