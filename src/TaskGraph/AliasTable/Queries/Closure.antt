-- ===== src/TaskGraph/AliasTable/Queries/Closure.antt =====
-- What `getAliased` and `getAliases` (AliasTable.cpp) return.
use apac.Prelude.{
  ℕ, zero, suc, ◌≤◌, ◌<◌, ◌≡◌, refl, sym, ◌≢◌, ◌↔◌, ◌⊎◌, inl, inr, Option, some, List, [], ◌∷◌,
}
use apac.Prelude.{
  length, In, insert_all, In-insert_all, ◌==◌, ==_iff, Bool-cases, arith, if_true, if_false,
}
use mathlib.Core.Path.{subst}
use apac.Prelude.Search.{
  search-sound, search-IsClosed, search-keeps, search-enough, unvisited, unvisited_le,
}
use apac.TaskGraph.AliasTable.Aliases.{Store}
use apac.TaskGraph.AliasTable.Queries.{
  aliased_next, get_aliased, referred, visit_aliases, alias_round, alias_rounds, get_aliases,
}
use apac.TaskGraph.AliasTable.Queries.Growth.{Grows, Grows-refl, Grows-trans, Grows-insert_all}

module _ (s : Store) where
  -- What can be reached from the element along the aliased elements of references and pointers.
  pub data PointsTo (v : ℕ) : ℕ → Type 0 where
    points_self : PointsTo v v
    points_on : {x y : ℕ} → PointsTo v x → In y (aliased_next s x) → PointsTo v y

  -- Where the aliased elements of the members of a list are members, getAliased of a member ends with
  -- as much fuel as the list is long, and returns what can be reached from it.
  pub get_aliased-PointsTo :
      (us : List ℕ) (fuel v : ℕ)
      → ((x y : ℕ) → In x us → In y (aliased_next s x) → In y us)
      → In v us
      → length us ≤ fuel
      → (r : List ℕ) × (get_aliased s fuel (some v) ≡ some r) × ((x : ℕ) → In x r ↔ PointsTo v x)
  unfolding get_aliased
  get_aliased-PointsTo us fuel v closed inside enough =
      let few = unvisited_le us [] in
      let (r, e) =
        search-enough (aliased_next s) us closed fuel [] (v ∷ [])
          (λ x i. elim i [ inl same ↦ subst (λ y. In y us) (sym same) inside | inr b ↦ absurd b ])
          (ground arith) in
      let all_in = search-IsClosed (aliased_next s) fuel [] (v ∷ []) r e (λ x y i j. absurd i) in
      (
        r,
        e,
        λ x. (
          search-sound (aliased_next s) (PointsTo v) (λ y z p i. points_on p i) fuel [] (v ∷ []) r e
              (λ y c. elim c [
                | inl b ↦ absurd b
                | inr i ↦ elim i [
                  | inl same ↦ subst (PointsTo v) (sym same) points_self
                  | inr b ↦ absurd b
                ]
              ])
              x,
          found r v all_in (search-keeps (aliased_next s) fuel [] (v ∷ []) r e v (inr (inl refl)))
              x,
        ),
      )
    where
      found :
          (r : List ℕ) (v : ℕ)
          → ((x y : ℕ) → In x r → In y (aliased_next s x) → In y r ⊎ ⊥)
          → In v r
          → (x : ℕ) → PointsTo v x
          → In x r
      found r v all_in start x points_self = start
      found r v all_in start x (points_on {x = k} p i) =
          elim (all_in k x (found r v all_in start k p) i) [ inl j ↦ j | inr b ↦ absurd b ]

  -- From an element to those that refer to it, and from a reference to those that it refers to.
  abbrev pub Step : ℕ → ℕ → Type 0
  Step x y = In y (s x).references ⊎ In y (referred s x)

  pub data Aliases (v : ℕ) : ℕ → Type 0 where
    alias_self : Aliases v v
    alias_step : {x y : ℕ} → Aliases v x → Step x y → Aliases v y

  In-visit_aliases :
      (xs a p : List ℕ) (y : ℕ)
      → (In y (visit_aliases s xs (a, p)).0 ↔ (In y a ⊎ ((x : ℕ) × In x xs × In y (referred s x))))
        × (In y (visit_aliases s xs (a, p)).1
            ↔ (In y p ⊎ ((x : ℕ) × In x xs × In y (s x).references)))
  In-visit_aliases [] a p y = (
    (inl, λ c. elim c [ inl i ↦ i | inr b ↦ absurd b.1 ]),
    (inl, λ c. elim c [ inl i ↦ i | inr b ↦ absurd b.1 ]),
  )
  In-visit_aliases (x ∷ xs) a p y =
      let (left, right) =
        In-visit_aliases xs (insert_all a (referred s x)) (insert_all p (s x).references) y in
      (
        also_first (λ x. referred s x) x xs a y _ left (In-insert_all y a (referred s x)),
        also_first (λ x. (s x).references) x xs p y _ right (In-insert_all y p (s x).references),
      )
    where
      also_first :
          (f : ℕ → List ℕ) (x : ℕ) (xs a : List ℕ) (y : ℕ) (r : List ℕ)
          → In y r ↔ (In y (insert_all a (f x)) ⊎ ((z : ℕ) × In z xs × In y (f z)))
          → In y (insert_all a (f x)) ↔ (In y a ⊎ In y (f x))
          → In y r ↔ (In y a ⊎ ((z : ℕ) × In z (x ∷ xs) × In y (f z)))
      also_first f x xs a y r rest first = (
        λ i. elim (rest.0 i) [
          | inl j ↦ elim (first.0 j) [ inl old ↦ inl old | inr now ↦ inr (x, inl refl, now) ]
          | inr b ↦ inr (b.0, inr b.1, b.2)
        ],
        λ c. elim c [
          | inl old ↦ rest.1 (inl (first.1 (inl old)))
          | inr b ↦ elim b.1 [
            | inl same ↦ rest.1 (inl (first.1 (inr (subst (λ z. In y (f z)) same b.2))))
            | inr later ↦ rest.1 (inr (b.0, later, b.2))
          ]
        ],
      )

  In-alias_round :
      (a p : List ℕ) (y : ℕ)
      → (In y (alias_round s (a, p)).0 ↔ (In y a ⊎ In y p ⊎ ((x : ℕ) × In x a × Step x y)))
        × (In y (alias_round s (a, p)).1 → In y p ⊎ ((x : ℕ) × In x a × Step x y))
  In-alias_round a p y =
      let (left, right) = In-visit_aliases a a p y in
      let all = In-insert_all y (visit_aliases s a (a, p)).0 (visit_aliases s a (a, p)).1 in
      (
        (
          λ i. elim (all.0 i) [
            | inl j ↦ elim (left.0 j) [ inl old ↦ inl old | inr b ↦ inr (inr (b.0, b.1, inr b.2)) ]
            | inr j ↦ elim (right.0 j) [
              | inl old ↦ inr (inl old)
              | inr b ↦ inr (inr (b.0, b.1, inl b.2))
            ]
          ],
          λ c. elim c [
            | inl old ↦ all.1 (inl (left.1 (inl old)))
            | inr d ↦ elim d [
              | inl old ↦ all.1 (inr (right.1 (inl old)))
              | inr b ↦ elim b.2 [
                | inl ref ↦ all.1 (inr (right.1 (inr (b.0, b.1, ref))))
                | inr ref ↦ all.1 (inl (left.1 (inr (b.0, b.1, ref))))
              ]
            ]
          ],
        ),
        λ i. elim (right.0 i) [ inl old ↦ inl old | inr b ↦ inr (b.0, b.1, inl b.2) ],
      )

  Grows-visit_aliases : (us xs a p : List ℕ) → Grows us a (visit_aliases s xs (a, p)).0
  Grows-visit_aliases us [] a p = Grows-refl us a
  Grows-visit_aliases us (x ∷ xs) a p =
      Grows-trans us a (insert_all a (referred s x)) _ (Grows-insert_all us a (referred s x))
        (Grows-visit_aliases us xs (insert_all a (referred s x)) (insert_all p (s x).references))

  Grows-alias_round : (us a p : List ℕ) → Grows us a (alias_round s (a, p)).0
  Grows-alias_round us a p =
      Grows-trans us a (visit_aliases s a (a, p)).0 _ (Grows-visit_aliases us a a p)
        (Grows-insert_all us (visit_aliases s a (a, p)).0 (visit_aliases s a (a, p)).1)

  -- What a round starts from.
  abbrev Rounds : List ℕ → ℕ → ℕ → ℕ → List ℕ → List ℕ → Type 0
  Rounds us v fuel old a p =
      ((y : ℕ) → In y a ⊎ In y p → In y us × Aliases v y)
      × In v a
      × ((length a ≡ old) → (x y : ℕ) → In x a → Step x y → In y a)
      × ((length a ≡ old) ⊎ (unvisited us a < fuel))

  next_round :
      (us : List ℕ) (v fuel old : ℕ) (a p : List ℕ)
      → ((x y : ℕ) → In x us → Step x y → In y us)
      → length a ≢ old
      → Rounds us v (suc fuel) old a p
      → Rounds us v fuel (length a) (alias_round s (a, p)).0 (alias_round s (a, p)).1
  next_round us v fuel old a p stays differ (sound, start, _, enough) =
      let (keep, less, growth) = Grows-alias_round us a p in
      let a' = (alias_round s (a, p)).0 in
      let p' = (alias_round s (a, p)).1 in
      let step : (y : ℕ) → ((x : ℕ) × In x a × Step x y) → In y us × Aliases v y = λ y b.
        let (in_us, reached) = sound b.0 (inl b.1) in
        (stays b.0 y in_us b.2, alias_step reached b.2) in
      let inside : (y : ℕ) → In y a' ⊎ In y p' → In y us × Aliases v y = λ y c. elim c [
        | inl i ↦ elim ((In-alias_round a p y).0.0 i) [
          | inl old_one ↦ sound y (inl old_one)
          | inr d ↦ elim d [ inl old_one ↦ sound y (inr old_one) | inr b ↦ step y b ]
        ]
        | inr i ↦ elim ((In-alias_round a p y).1 i) [
          | inl old_one ↦ sound y (inr old_one)
          | inr b ↦ step y b
        ]
      ] in
      (
        inside,
        keep v start,
        λ e x y i st. elim growth [
          | inl same ↦ (In-alias_round a p y).0.1 (inr (inr (x, same.0 x i, st)))
          | inr more ↦ let longer = more.0 in absurd (ground arith)
        ],
        elim growth [
          | inl same ↦ inl same.1
          | inr more ↦ elim enough [
            | inl e ↦ absurd (differ e)
            | inr few ↦ let now = more.1 (λ x i. (inside x (inl i)).0) in inr (omega arith)
          ]
        ],
      )

  Aliases-closed :
      (v : ℕ) (r : List ℕ)
      → In v r
      → ((x y : ℕ) → In x r → Step x y → In y r)
      → (x : ℕ) → Aliases v x
      → In x r
  Aliases-closed v r start closed x alias_self = start
  Aliases-closed v r start closed x (alias_step {x = k} p st) =
      closed k x (Aliases-closed v r start closed k p) st

  abbrev Answer : ℕ → Option (List ℕ) → Type 0
  Answer v o = (r : List ℕ) × (o ≡ some r) × ((x : ℕ) → In x r ↔ Aliases v x)

  finished :
      (us : List ℕ) (v fuel old : ℕ) (a p : List ℕ)
      → length a ≡ old
      → Rounds us v fuel old a p
      → Answer v (some a)
  finished us v fuel old a p same (sound, start, closed, _) =
      (a, refl, λ x. (λ i. (sound x (inl i)).1, Aliases-closed v a start (closed same) x))

  alias_rounds-Aliases :
      (us : List ℕ) (v fuel old : ℕ) (a p : List ℕ)
      → ((x y : ℕ) → In x us → Step x y → In y us)
      → Rounds us v fuel old a p
      → Answer v (alias_rounds s fuel old (a, p))
  unfolding alias_rounds
  alias_rounds-Aliases us v zero old a p stays now = elim (Bool-cases (length a == old)) [
    | inl e ↦
        subst (Answer v) (sym (if_true _ _ e))
          (finished us v zero old a p ((==_iff (length a) old).0 e) now)
    | inr e ↦ elim now.3 [ inl same ↦ absurd (ground arith) | inr few ↦ absurd (ground arith) ]
  ]
  alias_rounds-Aliases us v (suc fuel) old a p stays now = elim (Bool-cases (length a == old)) [
    | inl e ↦
        subst (Answer v) (sym (if_true _ _ e))
          (finished us v (suc fuel) old a p ((==_iff (length a) old).0 e) now)
    | inr e ↦ subst (Answer v) (sym (if_false _ _ e)) (
        alias_rounds-Aliases us v fuel (length a) (alias_round s (a, p)).0 (alias_round s (a, p)).1
          stays
          (next_round us v fuel old a p stays
            (λ same. let both = (==_iff (length a) old).1 same in cc) now))
  ]

  -- Where a list has the aliases of its members as members, getAliases of a member ends with more fuel
  -- than the list is long, and returns the element with all that can be reached from it, from an element
  -- to the references to it, and from a reference to what it refers to.
  pub get_aliases-Aliases :
      (us : List ℕ) (fuel v : ℕ)
      → ((x y : ℕ) → In x us → Step x y → In y us)
      → In v us
      → length us < fuel
      → (r : List ℕ) × (get_aliases s fuel v ≡ some r) × ((x : ℕ) → In x r ↔ Aliases v x)
  get_aliases-Aliases us fuel v stays inside enough =
      let few = unvisited_le us (v ∷ []) in
      alias_rounds-Aliases us v fuel 0 (v ∷ []) [] stays (
        λ y c. elim c [
          | inl i ↦ elim i [
            | inl same ↦ subst (λ z. In z us × Aliases v z) (sym same) (inside, alias_self)
            | inr b ↦ absurd b
          ]
          | inr b ↦ absurd b
        ],
        inl refl,
        λ e x y i st. absurd (ground arith),
        inr (omega arith),
      )
