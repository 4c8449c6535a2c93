-- ===== src/TaskGraph/Node/Shares.antt =====
-- When an element counts as shared with a neighbour, in `computeInOutDep` and `computeInDep` (Node.cpp)
-- and in `indexesMatch` (AliasArg.hpp), and what the clauses of a node are then.
use apac.Prelude.{ℕ, ◌≡◌, refl, ◌≢◌, ◌↔◌, ◌⊎◌, inl, inr, Bool, true, ◌&&◌, ◌||◌, List, [], ◌∷◌}
use apac.Prelude.{arith, In, any, any_find, any_of, length, ltb, Bool-cases}
use mathlib.Core.Path.{subst}
use apac.Prelude.Maps.{keys, has_key, has_key_iff}
use apac.Prelude.Int.{ℤ, minus_one, int_eq, int_eq_iff}
use apac.TaskGraph.AliasArg.{AliasArg, indexes_match}
use apac.TaskGraph.Instruction.{NodeDependency, Dependencies}
use apac.TaskGraph.Node.{
  Heap, touches, next_touches, prev_touches, is_in_out, compute_in_out_in_dep,
}
use apac.TaskGraph.Node.Depend.{In-in_out_dep, In-in_dep}

-- As many indexes, pairwise the same or one of them unknown.
pub data Matches : List ℤ → List ℤ → Type 0 where
  no_indexes : Matches [] []
  same_index : {i j : ℤ} {is js : List ℤ} → i ≡ j → Matches is js → Matches (i ∷ is) (j ∷ js)
  unknown_left :
      {i j : ℤ} {is js : List ℤ} → i ≡ minus_one → Matches is js → Matches (i ∷ is) (j ∷ js)
  unknown_right :
      {i j : ℤ} {is js : List ℤ} → j ≡ minus_one → Matches is js → Matches (i ∷ is) (j ∷ js)

indexes_match-Matches : (is js : List ℤ) → indexes_match is js ≡ true → Matches is js
unfolding indexes_match
indexes_match-Matches [] [] e = no_indexes
indexes_match-Matches [] (j ∷ js) e = cc
indexes_match-Matches (i ∷ is) [] e = cc
indexes_match-Matches (i ∷ is) (j ∷ js) e =
    let rest = indexes_match-Matches is js (ground arith) in
    elim (Bool-cases (int_eq i j)) [
      | inl s ↦ same_index ((int_eq_iff i j).0 s) rest
      | inr s ↦ elim (Bool-cases (int_eq i minus_one)) [
        | inl l ↦ unknown_left ((int_eq_iff i minus_one).0 l) rest
        | inr l ↦ unknown_right ((int_eq_iff j minus_one).0 (ground arith)) rest
      ]
    ]

Matches-indexes_match : (is js : List ℤ) → Matches is js → indexes_match is js ≡ true
unfolding indexes_match
Matches-indexes_match [] [] no_indexes = refl
Matches-indexes_match [] (j ∷ js) m = elim m [ ]
Matches-indexes_match (i ∷ is) [] m = elim m [ ]
Matches-indexes_match (i ∷ is) (j ∷ js) (same_index e m) =
    let s = (int_eq_iff i j).1 e in let rest = Matches-indexes_match is js m in ground arith
Matches-indexes_match (i ∷ is) (j ∷ js) (unknown_left e m) =
    let s = (int_eq_iff i minus_one).1 e in let rest = Matches-indexes_match is js m in ground arith
Matches-indexes_match (i ∷ is) (j ∷ js) (unknown_right e m) =
    let s = (int_eq_iff j minus_one).1 e in let rest = Matches-indexes_match is js m in ground arith

and_true : (b c : Bool) → (b && c) ≡ true → (b ≡ true) × (c ≡ true)
and_true b c e = ground arith

or_cases : (b c : Bool) → (b || c) ≡ true → (b ≡ true) ⊎ (c ≡ true)
or_cases b c e = ground arith

or_true : (b : Bool) → (b || true) ≡ true
or_true b = ground arith

some_index : {A : Type 0} (xs : List A) → (ltb 0 (length xs) ≡ true) ↔ (xs ≢ [])
some_index [] = (λ e. cc, λ ne. absurd (ne refl))
some_index (x ∷ xs) = (λ e. λ same. cc, λ ne. ground arith)

module _ (args : ℕ → AliasArg) where
  -- The same element, or one whose indexes match those of an element that has indexes. The variables
  -- are not compared: `a[1]` and `b[1]` clash.
  abbrev pub Clash : ℕ → ℕ → Type 0
  Clash a b = (b ≡ a) ⊎ (((args a).indexes ≢ []) × Matches (args b).indexes (args a).indexes)

  -- One of the elements of the map clashes with the element.
  abbrev pub SharesWith : ℕ → Dependencies → Type 0
  SharesWith a m = (b : ℕ) × In b (keys m) × Clash a b

  abbrev pub SharesWithNext : Heap → ℕ → ℕ → Type 0
  SharesWithNext h n a = (l : ℕ × Dependencies) × In l (h n).next × SharesWith a l.1

  abbrev pub SharesWithPrev : Heap → ℕ → ℕ → Type 0
  SharesWithPrev h n a = (p : ℕ) × In p (h n).prev × SharesWith a (h p).dependencies

  -- The node writes the element, and it is looped or a neighbour shares the element.
  abbrev pub IsInOut : Heap → ℕ → ℕ → Type 0
  IsInOut h n a =
      (d : NodeDependency) × In (a, d) (h n).dependencies
      × (d.is_write ≡ true)
      × (((h n).is_looped ≡ true) ⊎ (SharesWithNext h n a ⊎ SharesWithPrev h n a))

  abbrev matches : ℕ → ℕ → Bool
  matches a b = indexes_match (args b).indexes (args a).indexes

  touches-SharesWith : (a : ℕ) (m : Dependencies) → (touches args a m ≡ true) ↔ SharesWith a m
  touches-SharesWith a m = (
    λ t. elim (Bool-cases (has_key a m)) [
      | inl k ↦ (a, (has_key_iff a m).0 k, inl refl)
      | inr k ↦
          let both : (ltb 0 (length (args a).indexes) && any (matches a) (keys m)) ≡ true =
            rw (k, touches) at t in
          let (b, i, found) = any_find (matches a) (keys m) (and_true _ _ both).1 in
          (
            b,
            i,
            inr (
              (some_index (args a).indexes).0 (and_true _ _ both).0,
              indexes_match-Matches (args b).indexes (args a).indexes found,
            ),
          )
    ],
    λ (b, i, clash). elim clash [
      | inl e ↦ let k = (has_key_iff a m).1 (subst (λ x. In x (keys m)) e i) in rw k refl
      | inr (indexed, match) ↦
          let guard = (some_index (args a).indexes).1 indexed in
          let found =
            any_of (matches a) (keys m) b i
              (Matches-indexes_match (args b).indexes (args a).indexes match) in
          rw (guard, found) (or_true (has_key a m))
    ],
  )

  next_touches-SharesWithNext :
      (h : Heap) (n a : ℕ) → (next_touches args (h n) a ≡ true) ↔ SharesWithNext h n a
  next_touches-SharesWithNext h n a =
      let test = λ (l : ℕ × Dependencies). touches args a l.1 in
      (
        λ t. let (l, i, e) = any_find test (h n).next t in (l, i, (touches-SharesWith a l.1).0 e),
        λ (l, i, s). any_of test (h n).next l i ((touches-SharesWith a l.1).1 s),
      )

  prev_touches-SharesWithPrev :
      (h : Heap) (n a : ℕ) → (prev_touches args h (h n) a ≡ true) ↔ SharesWithPrev h n a
  prev_touches-SharesWithPrev h n a =
      let test = λ (p : ℕ). touches args a (h p).dependencies in
      (
        λ t.
            let (p, i, e) = any_find test (h n).prev t in
            (p, i, (touches-SharesWith a (h p).dependencies).0 e),
        λ (p, i, s). any_of test (h n).prev p i ((touches-SharesWith a (h p).dependencies).1 s),
      )

  pub is_in_out-IsInOut :
      (h : Heap) (n a : ℕ)
      → ((d : NodeDependency) × In (a, d) (h n).dependencies
          × (is_in_out args h (h n) (a, d) ≡ true))
        ↔ IsInOut h n a
  is_in_out-IsInOut h n a =
      let next = next_touches-SharesWithNext h n a in
      let prev = prev_touches-SharesWithPrev h n a in
      (
        λ (d, i, test).
            let (write, where_) = and_true d.is_write _ test in
            (
              d,
              i,
              write,
              elim (or_cases (h n).is_looped _ where_) [
                | inl looped ↦ inl looped
                | inr near ↦ elim (or_cases (next_touches args (h n) a) _ near) [
                  | inl e ↦ inr (inl (next.0 e))
                  | inr e ↦ inr (inr (prev.0 e))
                ]
              ],
            ),
        λ (d, i, write, c). (
          d,
          i,
          elim c [
            | inl looped ↦ rw (write, looped) refl
            | inr near ↦ elim near [
              | inl s ↦ rw (write, next.1 s) (or_true (h n).is_looped)
              | inr s ↦
                  rw (write, prev.1 s, or_true (next_touches args (h n) a))
                    (or_true (h n).is_looped)
            ]
          ],
        ),
      )

  -- After `computeInOutInDep`, the `inout` elements of a node are those that it had, and those that it
  -- writes, where it is looped or a neighbour shares the element (as a label of the link to a next
  -- node, or as a dependency of a previous one). Its `in` elements are those that it had, and its
  -- dependencies that a previous node shares and that are not `inout` then. A node shares an element
  -- if it has the element itself, or if the element has indexes and the node has an element of any
  -- variable with as many, which are pairwise the same or unknown on one side.
  pub compute_in_out_in_dep-shared :
      (h : Heap) (n a : ℕ)
      → (In a (compute_in_out_in_dep args h n n).in_out_dep
          ↔ (In a (h n).in_out_dep ⊎ IsInOut h n a))
        × (In a (compute_in_out_in_dep args h n n).in_dep ↔ (
            In a (h n).in_dep
            ⊎ ((d : NodeDependency) × In (a, d) (h n).dependencies
                × SharesWithPrev h n a
                × (¬ In a (compute_in_out_in_dep args h n n).in_out_dep))))
  compute_in_out_in_dep-shared h n a =
      let marked = is_in_out-IsInOut h n a in
      let prev = prev_touches-SharesWithPrev h n a in
      let inout = In-in_out_dep args h n a in
      let ins = In-in_dep args h n a in
      (
        (
          λ i. elim (inout.0 i) [ inl old ↦ inl old | inr x ↦ inr (marked.0 x) ],
          λ c. inout.1 (elim c [ inl old ↦ inl old | inr x ↦ inr (marked.1 x) ]),
        ),
        (
          λ i. elim (ins.0 i) [
            | inl old ↦ inl old
            | inr (d, j, t, missing) ↦ inr (d, j, prev.0 t, missing)
          ],
          λ c. ins.1 (elim c [
            | inl old ↦ inl old
            | inr (d, j, s, missing) ↦ inr (d, j, prev.1 s, missing)
          ]),
        ),
      )
