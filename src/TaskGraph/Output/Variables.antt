-- ===== src/TaskGraph/Output/Variables.antt =====
-- Which variables the firstprivate and taskwait clauses (OutputHandler.cpp) name.
use apac.Prelude.{ℕ, ◌≡◌, refl, sym, ap, ◌∙◌, ◌↔◌, ◌⊎◌, inl, inr, true, some, List, [], ◌∷◌}
use apac.Prelude.{In, insert_all, In-insert_all, Bool-cases, Option-cases, some_inj, none≢some}
use mathlib.Core.Path.{subst}
use apac.Core.Exprs.{get_array_subscripts_indexes, get_all_decl_ref_expr_inside_expr}
use apac.TaskGraph.AliasArg.{AliasArg}
use apac.TaskGraph.Output.{Source, insert_variables, insert_index_variables, index_variables}

module _ (src : Source) (fuel : ℕ) where
  -- The variable reference `x` stands in one of these index expressions.
  abbrev pub InSome : List ℕ → ℕ → Type 0
  InSome indexes x =
      (i : ℕ) × In i indexes
      × (found : List ℕ) × (get_all_decl_ref_expr_inside_expr src.ast fuel (some i) ≡ some found)
      × In x found

  In-insert_variables :
      (set indexes r : List ℕ) (x : ℕ)
      → insert_variables src fuel set indexes ≡ some r
      → In x r ↔ (In x set ⊎ InSome indexes x)
  In-insert_variables set [] r x e =
      subst (λ l. In x l ↔ (In x set ⊎ InSome [] x)) (some_inj e)
        (inl, λ c. elim c [ inl i ↦ i | inr s ↦ absurd s.1 ])
  In-insert_variables set (i ∷ is) r x e =
      elim (Option-cases (get_all_decl_ref_expr_inside_expr src.ast fuel (some i))) [
        | inl q ↦ absurd (none≢some (rw (q, insert_variables) at e))
        | inr (found, q) ↦
            let rest =
              In-insert_variables (insert_all set found) is r x (rw (q, insert_variables) at e) in
            let first = In-insert_all x set found in
            (
              λ j. elim (rest.0 j) [
                | inl old ↦ elim (first.0 old) [
                  | inl in_set ↦ inl in_set
                  | inr now ↦ inr (i, inl refl, found, q, now)
                ]
                | inr s ↦ let (k, at, found', q', now) = s in inr (k, inr at, found', q', now)
              ],
              λ c. elim c [
                | inl in_set ↦ rest.1 (inl (first.1 (inl in_set)))
                | inr s ↦
                    let (k, at, found', q', now) = s in
                    elim at [
                      | inl same ↦
                          let both : found' ≡ found = some_inj (
                            sym q'
                            ∙ ap (λ n. get_all_decl_ref_expr_inside_expr src.ast fuel (some n)) same
                            ∙ q) in
                          rest.1 (inl (first.1 (inr (subst (λ l. In x l) both now))))
                      | inr later ↦ rest.1 (inr (k, later, found', q', now))
                    ]
              ],
            )
      ]

  -- The variable reference `x` stands in an index of an access with an index that is not known.
  abbrev pub IsIndexVariable : AliasArg → ℕ → Type 0
  IsIndexVariable e x =
      (e.has_unknown_index ≡ true)
      × (exp : ℕ) × (e.expression ≡ some exp)
      × (indexes : List ℕ) × (get_array_subscripts_indexes src.ast fuel exp ≡ some indexes)
      × InSome indexes x

  In-insert_index_variables :
      (e : AliasArg) (set r : List ℕ) (x : ℕ)
      → insert_index_variables src fuel e set ≡ some r
      → In x r ↔ (In x set ⊎ IsIndexVariable e x)
  unfolding insert_index_variables
  In-insert_index_variables e set r x h = elim (Bool-cases e.has_unknown_index) [
    | inr u ↦
        subst (λ l. In x l ↔ (In x set ⊎ IsIndexVariable e x))
          (some_inj (rw (u, insert_index_variables) at h))
          (inl, λ c. elim c [ inl i ↦ i | inr v ↦ let both = sym u ∙ v.0 in cc ])
    | inl u ↦ elim (Option-cases e.expression) [
      | inl q ↦ absurd (none≢some (rw (u, q, insert_index_variables) at h))
      | inr (exp, q) ↦ elim (Option-cases (get_array_subscripts_indexes src.ast fuel exp)) [
        | inl q' ↦ absurd (none≢some (rw (u, q, q', insert_index_variables) at h))
        | inr (indexes, q') ↦
            let found =
              In-insert_variables set indexes r x (rw (u, q, q', insert_index_variables) at h) in
            (
              λ i. elim (found.0 i) [
                | inl in_set ↦ inl in_set
                | inr s ↦ inr (u, exp, q, indexes, q', s)
              ],
              λ c. elim c [
                | inl in_set ↦ found.1 (inl in_set)
                | inr v ↦
                    let (_, exp', p, indexes', p', s) = v in
                    let same_exp : exp' ≡ exp = some_inj (sym p ∙ q) in
                    let same : indexes' ≡ indexes = some_inj (
                      sym p'
                      ∙ ap (λ n. get_array_subscripts_indexes src.ast fuel n) same_exp
                      ∙ q') in
                    found.1 (inr (subst (λ l. InSome l x) same s))
              ],
            )
      ]
    ]
  ]

  -- If the variables of the indexes are found, they are those of the set before, and those that stand in
  -- an index of the elements with an index that is not known.
  pub In-index_variables :
      (args : ℕ → AliasArg) (es set r : List ℕ) (x : ℕ)
      → index_variables src fuel args es set ≡ some r
      → In x r ↔ (In x set ⊎ ((e : ℕ) × In e es × IsIndexVariable (args e) x))
  unfolding index_variables
  In-index_variables args [] set r x h =
      subst (λ l. In x l ↔ (In x set ⊎ ((e : ℕ) × In e [] × IsIndexVariable (args e) x)))
        (some_inj h) (inl, λ c. elim c [ inl i ↦ i | inr v ↦ absurd v.1 ])
  In-index_variables args (e ∷ es) set r x h =
      elim (Option-cases (insert_index_variables src fuel (args e) set)) [
        | inl q ↦ absurd (none≢some (rw (q, index_variables) at h))
        | inr (set', q) ↦
            let first = In-insert_index_variables (args e) set set' x q in
            let rest = In-index_variables args es set' r x (rw (q, index_variables) at h) in
            (
              λ i. elim (rest.0 i) [
                | inl old ↦ elim (first.0 old) [
                  | inl in_set ↦ inl in_set
                  | inr now ↦ inr (e, inl refl, now)
                ]
                | inr v ↦ inr (v.0, inr v.1, v.2)
              ],
              λ c. elim c [
                | inl in_set ↦ rest.1 (inl (first.1 (inl in_set)))
                | inr v ↦ elim v.1 [
                  | inl same ↦
                      rest.1
                        (inl (first.1 (inr (subst (λ n. IsIndexVariable (args n) x) same v.2))))
                  | inr later ↦ rest.1 (inr (v.0, later, v.2))
                ]
              ],
            )
      ]
