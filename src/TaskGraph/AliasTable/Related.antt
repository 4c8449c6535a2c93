-- ===== src/TaskGraph/AliasTable/Related.antt =====
-- The elements of an array that an element depends on: `getArrayElementDependencies`,
-- `getArrayElementChildren`, `getArrayElementParents` and `getDirectChildren` (AliasTable.cpp).
use apac.Prelude.{ℕ, ◌≡◌, sym, ap, inl, inr, Option, none, some}
use apac.Prelude.{
  List, [], ◌∷◌, ◌++◌, leb, ltb, length, if◌then◌else◌, insert, insert_all, In, In-insert,
  In-insert_all,
}
use apac.Prelude.{Bool-cases, Option-cases, some_inj, none≢some}
use mathlib.Core.Path.{subst}
use apac.Prelude.Int.{ℤ, int_eq, int_ltb, minus_one}
use apac.Prelude.Maps.{lookup}
use apac.TaskGraph.AliasArg.{AliasArg}
use apac.TaskGraph.AliasTable.{
  Values, Entries, no_entries, entry, alias_struct, sub_array, find_index, struct_of, get_all_alias,
  AliasTableMap,
}

abbrev pub values : Entries → List Values
values no_entries = []
values (entry i v m) = v ∷ values m

-- The children at one index, or all of them if it is unknown.
abbrev pub children_at : Values → ℤ → List Values
children_at (alias_struct s) depth = []
children_at (sub_array m s) depth =
    if int_eq depth minus_one
    then values m
    else (elim (find_index depth m) [ none ↦ [] | some v ↦ v ∷ [] ])

-- With `assert(depth >= -1)`: if it fails, there is no result.
abbrev pub get_direct_children : Values → ℤ → Option (List Values)
get_direct_children v depth = if int_ltb depth minus_one then none else some (children_at v depth)

abbrev pub value_aliases : Values → List ℕ
value_aliases v = elim (struct_of v) [ none ↦ [] | some s ↦ get_all_alias s ]

abbrev pub children_of_all : List Values → ℤ → Option (List Values)
children_of_all [] depth = some []
children_of_all (v ∷ vs) depth = elim (get_direct_children v depth) [
  | none ↦ none
  | some children ↦ elim (children_of_all vs depth) [
    | none ↦ none
    | some rest ↦ some (children ++ rest)
  ]
]

abbrev pub aliases_of_all : List Values → List ℕ
aliases_of_all [] = []
aliases_of_all (v ∷ vs) = value_aliases v ++ aliases_of_all vs

-- The loop: the values of one level, and the indexes that are left. It stops with the indexes, or
-- with the values, when nothing more is found. The order within a level does not matter, as the
-- result is a set.
abbrev pub visit_levels : List ℤ → List Values → Option (List ℕ)
visit_levels [] level = some []
visit_levels (i ∷ is) level = elim (children_of_all level i) [
  | none ↦ none
  | some next ↦ elim (visit_levels is next) [
    | none ↦ none
    | some later ↦ some (aliases_of_all next ++ later)
  ]
]

-- A variable that is not in the table is dereferenced: no result.
unfoldable pub get_array_element_dependencies : AliasTableMap → AliasArg → Option (List ℕ)
get_array_element_dependencies m elem = elim (lookup elem.declaration m) [
  | none ↦ none
  | some v ↦ elim (visit_levels elem.indexes (v ∷ [])) [
    | none ↦ none
    | some below ↦ some (insert_all (insert_all [] (value_aliases v)) below)
  ]
]

module _ (elements : ℕ → AliasArg) (elem : AliasArg) where
  -- The elements with as many indexes or more.
  abbrev pub children_among : List ℕ → List ℕ
  children_among [] = []
  children_among (e ∷ es) =
      let rest = children_among es in
      if leb (length elem.indexes) (length (elements e).indexes) then insert e rest else rest

  -- For each element with fewer indexes, `elem` is pushed.
  abbrev pub parents_among : List ℕ → List ℕ
  parents_among [] = []
  parents_among (e ∷ es) =
      let rest = parents_among es in
      if ltb (length (elements e).indexes) (length elem.indexes) then elem.id ∷ rest else rest

  unfoldable pub get_array_element_children : AliasTableMap → Option (List ℕ)
  get_array_element_children m = elim (get_array_element_dependencies m elem) [
    | none ↦ none
    | some found ↦ some (children_among found)
  ]

  unfoldable pub get_array_element_parents : AliasTableMap → Option (List ℕ)
  get_array_element_parents m = elim (get_array_element_dependencies m elem) [
    | none ↦ none
    | some found ↦ some (parents_among found)
  ]

  In-parents_among : (es : List ℕ) (x : ℕ) → In x (parents_among es) → x ≡ elem.id
  In-parents_among [] x i = absurd i
  In-parents_among (e ∷ es) x i =
      elim (Bool-cases (ltb (length (elements e).indexes) (length elem.indexes))) [
        | inl q ↦ elim (rw (q, parents_among) at i) [
          | inl now ↦ now
          | inr later ↦ In-parents_among es x later
        ]
        | inr q ↦ In-parents_among es x (rw (q, parents_among) at i)
      ]

  In-children_among : (es : List ℕ) (x : ℕ) → In x (children_among es) → In x es
  In-children_among [] x i = i
  In-children_among (e ∷ es) x i =
      elim (Bool-cases (leb (length elem.indexes) (length (elements e).indexes))) [
        | inl q ↦ elim ((In-insert x e (children_among es)).0 (rw (q, children_among) at i)) [
          | inl now ↦ inl now
          | inr later ↦ inr (In-children_among es x later)
        ]
        | inr q ↦ inr (In-children_among es x (rw (q, children_among) at i))
      ]

  -- What `getArrayElementParents` returns holds no element but the given one.
  pub In-get_array_element_parents :
      (m : AliasTableMap) (parents : List ℕ) (x : ℕ)
      → get_array_element_parents m ≡ some parents
      → In x parents
      → x ≡ elem.id
  unfolding get_array_element_parents
  In-get_array_element_parents m parents x e i =
      elim (Option-cases (get_array_element_dependencies m elem)) [
        | inl q ↦ absurd (none≢some (rw (q, get_array_element_parents) at e))
        | inr (found, q) ↦
            In-parents_among found x
              (subst (In x) (sym (some_inj (rw (q, get_array_element_parents) at e))) i)
      ]

  -- Of an element without indexes, `getArrayElementChildren` returns only what the table holds for
  -- the variable itself, and no element of the array.
  pub In-get_array_element_children :
      (m : AliasTableMap) (children : List ℕ) (x : ℕ)
      → elem.indexes ≡ []
      → get_array_element_children m ≡ some children
      → In x children
      → (v : Values) × (lookup elem.declaration m ≡ some v) × In x (value_aliases v)
  unfolding get_array_element_children get_array_element_dependencies
  In-get_array_element_children m children x whole e i =
      elim (Option-cases (lookup elem.declaration m)) [
        | inl q ↦
            absurd
              (none≢some (rw (q, get_array_element_children, get_array_element_dependencies) at e))
        | inr (v, q) ↦
            let found = insert_all [] (value_aliases v) in
            let nothing : visit_levels elem.indexes (v ∷ []) ≡ some [] =
              ap (λ is. visit_levels is (v ∷ [])) whole in
            let result : children_among found ≡ children =
              some_inj (
                rw (q, nothing, get_array_element_children, get_array_element_dependencies) at e) in
            let there = In-children_among found x (subst (In x) (sym result) i) in
            (
              v,
              q,
              elim ((In-insert_all x [] (value_aliases v)).0 there) [
                | inr own ↦ own
                | inl none_there ↦ absurd none_there
              ],
            )
      ]
