-- ===== src/TaskGraph/Node/Depend.antt =====
-- What `computeInOutDep` and `computeInDep` (Node.cpp) put into the `depend` clauses of a task.
use apac.Prelude.{ℕ, ◌≡◌, refl, ◌↔◌, ◌⊎◌, inl, inr, Bool, true, not, ◌&&◌, ◌||◌, List, []}
use apac.Prelude.{◌∷◌, foldl, arith, In, In-insert_sorted, contains}
use apac.Prelude.{contains_iff, Bool-cases, any, sym, ap, ◌∙◌, ==-self}
use mathlib.Core.Bool.{true≢false}
use mathlib.Core.Path.{subst, ap₂}
use apac.Prelude.Maps.{update}
use apac.TaskGraph.AliasArg.{AliasArg}
use apac.TaskGraph.Instruction.{NodeDependency, Dependencies}
use apac.TaskGraph.Node.{
  Heap, touches, prev_touches, is_in_out, is_in, insert_if, compute_in_out_in_dep,
}

In-insert_if :
    (test : ℕ × NodeDependency → Bool) (found : List ℕ) (b : ℕ) (d : NodeDependency) (a : ℕ)
    → In a (insert_if test found (b, d)) ↔ (In a found ⊎ (a ≡ b) × (test (b, d) ≡ true))
In-insert_if test found b d a = ground (arith, In-insert_sorted a b found)

foldl-insert_if :
    (test : ℕ × NodeDependency → Bool) (deps : Dependencies) (found : List ℕ) (a : ℕ)
    → In a (foldl (insert_if test) found deps)
      ↔ (In a found ⊎ ((d : NodeDependency) × In (a, d) deps × (test (a, d) ≡ true)))
foldl-insert_if test [] found a = (inl, λ c. elim c [ inl i ↦ i | inr x ↦ absurd x.1 ])
foldl-insert_if test ((b, d) ∷ deps) found a =
    let step = In-insert_if test found b d a in
    let rest = foldl-insert_if test deps (insert_if test found (b, d)) a in
    (
      λ i. elim (rest.0 i) [
        | inl now ↦ elim (step.0 now) [
          | inl old ↦ inl old
          | inr new ↦ inr (d, inl (λ j. (new.0 j, d)), rw (new.0) new.1)
        ]
        | inr later ↦ inr (later.0, inr later.1, later.2)
      ],
      λ c. rest.1 (elim c [
        | inl old ↦ inl (step.1 (inl old))
        | inr x ↦ elim x.1 [
          | inl e ↦ inl (step.1 (inr (λ j. (e j).0, subst (λ y. test y ≡ true) e x.2)))
          | inr later ↦ inr (x.0, later, x.2)
        ]
      ]),
    )

and_left : (a b : Bool) → (a && b) ≡ true → a ≡ true
and_left a b h = ground arith

and_right : (a b : Bool) → (a && b) ≡ true → b ≡ true
and_right a b h = ground arith

module _ (args : ℕ → AliasArg) (h : Heap) (n : ℕ) where
  -- The test on the predecessors reads only their dependencies.
  prev_touches-update :
      (found : List ℕ) (ps : List ℕ) (a : ℕ)
      → any
          (λ p. touches args a (update h n (record (h n) { in_out_dep = found }) p).dependencies)
          ps
        ≡ any (λ p. touches args a (h p).dependencies) ps
  prev_touches-update found [] a = refl
  prev_touches-update found (p ∷ ps) a =
      ap₂ ◌||◌ (ap (touches args a) (same p)) (prev_touches-update found ps a)
    where
      same :
          (q : ℕ)
          → (update h n (record (h n) { in_out_dep = found }) q).dependencies ≡ (h q).dependencies
      same q = ground arith

  in_out_dep-eq :
      (compute_in_out_in_dep args h n n).in_out_dep
      ≡ foldl (insert_if (is_in_out args h (h n))) (h n).in_out_dep (h n).dependencies
  unfolding compute_in_out_in_dep
  in_out_dep-eq = rw (==-self n) refl

  -- After `computeInOutInDep`, the `inout` elements of the node are those that it had, and its
  -- dependencies that `is_in_out` accepts: written, and shared with a neighbour or in a loop.
  pub In-in_out_dep :
      (a : ℕ)
      → In a (compute_in_out_in_dep args h n n).in_out_dep ↔ (
          In a (h n).in_out_dep
          ⊎ ((d : NodeDependency) × In (a, d) (h n).dependencies
              × (is_in_out args h (h n) (a, d) ≡ true)))
  In-in_out_dep a =
      rw in_out_dep-eq
        (foldl-insert_if (is_in_out args h (h n)) (h n).dependencies (h n).in_out_dep a)

  is_in_iff :
      (found : List ℕ) (a : ℕ) (d : NodeDependency)
      → (is_in args
            (update h n (record (h n) { in_out_dep = found }))
            (record (h n) { in_out_dep = found })
            (a, d)
          ≡ true)
        ↔ ((prev_touches args h (h n) a ≡ true) × (¬ In a found))
  is_in_iff found a d =
      let same = prev_touches-update found (h n).prev a in
      let test = contains_iff a found in
      (
        λ t. (
          sym same ∙ and_left _ _ t,
          λ i. true≢false (sym (and_right _ _ t) ∙ ap not (test.1 i)),
        ),
        λ c. elim (Bool-cases (contains a found)) [
          | inl there ↦ absurd (c.1 (test.0 there))
          | inr missing ↦ ap₂ ◌&&◌ (same ∙ c.0) (ap not missing)
        ],
      )

  -- After `computeInOutInDep`, the `in` elements of the node are those that it had, and its
  -- dependencies that it shares with a predecessor and that are not `inout` then.
  pub In-in_dep :
      (a : ℕ)
      → In a (compute_in_out_in_dep args h n n).in_dep ↔ (
          In a (h n).in_dep
          ⊎ ((d : NodeDependency) × In (a, d) (h n).dependencies
              × (prev_touches args h (h n) a ≡ true)
              × (¬ In a (compute_in_out_in_dep args h n n).in_out_dep)))
  unfolding compute_in_out_in_dep
  In-in_dep a =
      let found = foldl (insert_if (is_in_out args h (h n))) (h n).in_out_dep (h n).dependencies in
      let test =
        is_in args (update h n (record (h n) { in_out_dep = found }))
          (record (h n) { in_out_dep = found }) in
      let all = foldl-insert_if test (h n).dependencies (h n).in_dep a in
      rw (==-self n) (
        λ i. elim (all.0 i) [
          | inl old ↦ inl old
          | inr x ↦ let (p, o) = (is_in_iff found a x.0).0 x.2 in inr (x.0, x.1, p, o)
        ],
        λ c. all.1 (elim c [
          | inl old ↦ inl old
          | inr x ↦ inr (x.0, x.1, (is_in_iff found a x.0).1 (x.2, x.3))
        ]),
      )
