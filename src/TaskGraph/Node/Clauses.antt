-- ===== src/TaskGraph/Node/Clauses.antt =====
-- When the `depend` clauses of two tasks (Node.cpp, `computeInOutDep` and `computeInDep`) keep the
-- order of a link between them.
use apac.Prelude.{ℕ, ◌≡◌, refl, ◌⊎◌, inl, inr, true, false, [], arith, In, some, none}
use apac.Prelude.{Bool-cases, Option-cases, contains, contains_iff, any_of, ◌∙◌}
use apac.Prelude.{sym, ap}
use mathlib.Core.Bool.{true≢false, false≢true}
use mathlib.Core.Path.{subst}
use apac.Prelude.Maps.{has_key, lookup, In-lookup, In-has_key, has_key-lookup}
use apac.TaskGraph.AliasArg.{AliasArg}
use apac.TaskGraph.Instruction.{NodeDependency, Dependencies}
use apac.TaskGraph.Node.{
  Heap, link_map, touches, next_touches, prev_touches, is_in_out, compute_in_out_in_dep,
}
use apac.TaskGraph.Node.Link.{Link, IsMirrored}
use apac.TaskGraph.Node.Depend.{In-in_out_dep, In-in_dep}

-- The link from `m` to `n` is labelled with `a`.
abbrev pub LinkOn : Heap → ℕ → ℕ → ℕ → Type 0
LinkOn h m n a = has_key a (link_map n (h m).next) ≡ true

module _ (args : ℕ → AliasArg) (h : Heap) where
  link_map-no_key : (m n a : ℕ) → lookup n (h m).next ≡ none → ¬ LinkOn h m n a
  link_map-no_key m n a e k =
      let empty : link_map n (h m).next ≡ [] = rw (e, link_map) refl in
      false≢true (sym (ap (has_key a) empty) ∙ k)

  touches-has_key : (a : ℕ) (m : Dependencies) → has_key a m ≡ true → touches args a m ≡ true
  touches-has_key a m k = rw k

  link_map-lookup :
      (m n a : ℕ)
      → LinkOn h m n a
      → (labels : Dependencies) × (lookup n (h m).next ≡ some labels) × (has_key a labels ≡ true)
  link_map-lookup m n a k = elim (Option-cases (lookup n (h m).next)) [
    | inl e ↦ absurd (link_map-no_key m n a e k)
    | inr (labels, e) ↦
        let found : link_map n (h m).next ≡ labels = rw (e, link_map) refl in
        (labels, e, sym (ap (has_key a) found) ∙ k)
  ]

  prev_touches-Link :
      (m n a : ℕ) (dm : NodeDependency)
      → IsMirrored h
      → Link h m n
      → In (a, dm) (h m).dependencies
      → prev_touches args h (h n) a ≡ true
  prev_touches-Link m n a dm mirrored l i =
      any_of (λ p. touches args a (h p).dependencies) (h n).prev m ((mirrored m n).0 l)
        (touches-has_key a (h m).dependencies (In-has_key a (h m).dependencies dm i))

  -- Where `prev` mirrors `next`, a link from `m` to `n` that is labelled with an element `a` which
  -- `m` writes and `n` accesses is kept by the clauses: the task of `m` names `a` as `inout`, and
  -- the task of `n` names it as `in` or as `inout`.
  pub write_link-clauses :
      (m n a : ℕ) (dm dn : NodeDependency)
      → IsMirrored h
      → LinkOn h m n a
      → In (a, dm) (h m).dependencies
      → dm.is_write ≡ true
      → In (a, dn) (h n).dependencies
      → In a (compute_in_out_in_dep args h m m).in_out_dep
        × (In a (compute_in_out_in_dep args h n n).in_dep
            ⊎ In a (compute_in_out_in_dep args h n n).in_out_dep)
  write_link-clauses m n a dm dn mirrored on im wr i =
      let (labels, e, k) = link_map-lookup m n a on in
      let next : next_touches args (h m) a ≡ true =
        any_of (λ (l : ℕ × Dependencies). touches args a l.1) (h m).next (n, labels)
          (In-lookup n (h m).next labels e) (touches-has_key a labels k) in
      let prev = prev_touches-Link m n a dm mirrored (has_key-lookup n (h m).next labels e) im in
      let inout = (compute_in_out_in_dep args h n n).in_out_dep in
      (
        (In-in_out_dep args h m a).1 (inr (dm, im, ground arith)),
        elim (Bool-cases (contains a inout)) [
          | inl there ↦ inr ((contains_iff a inout).0 there)
          | inr missing ↦ inl (
              (In-in_dep args h n a).1
                (inr (dn, i, prev, λ c. true≢false (sym ((contains_iff a inout).1 c) ∙ missing))))
        ],
      )

  -- The task of a node with no predecessor and no clauses yet names no element in `in`, and names
  -- as `inout` only elements that it writes. So an element that it only reads stands in no clause,
  -- also where a later node writes that element.
  pub first_read-no_clause :
      (n a : ℕ)
      → (h n).prev ≡ []
      → (h n).in_out_dep ≡ []
      → (h n).in_dep ≡ []
      → ((d : NodeDependency) → In (a, d) (h n).dependencies → d.is_write ≡ false)
      → (¬ In a (compute_in_out_in_dep args h n n).in_out_dep)
        × (¬ In a (compute_in_out_in_dep args h n n).in_dep)
  first_read-no_clause n a root no_inout no_in read_only = (
    λ i. elim ((In-in_out_dep args h n a).0 i) [
      | inl old ↦ absurd (subst (In a) no_inout old)
      | inr x ↦
          let w = read_only x.0 x.1 in
          let test : is_in_out args h (h n) (a, x.0) ≡ false = rw w in true≢false (sym x.2 ∙ test)
    ],
    λ i. elim ((In-in_dep args h n a).0 i) [
      | inl old ↦ absurd (subst (In a) no_in old)
      | inr x ↦
          let none_before : prev_touches args h (h n) a ≡ false = rw root in
          false≢true (sym none_before ∙ x.2)
    ],
  )
