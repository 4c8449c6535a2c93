-- ===== src/TaskGraph/AliasTable/Null.antt =====
-- When `insert` of an index map (AliasTableIndexMap.cpp) dereferences a null pointer, and `count`.
use apac.Prelude.{ℕ, ◌≡◌, refl, ◌↔◌, ◌∙◌, sym, ap, inl, inr, Bool, true, false, Option, none, some}
use apac.Prelude.{List, [], ◌∷◌, Option-cases}
use mathlib.Core.Bool.{false≢true}
use mathlib.Core.Path.{subst}
use apac.Prelude.Int.{ℤ, int_eq_iff}
use apac.TaskGraph.AliasTable.{
  ArgStruct, Values, Entries, alias_struct, sub_array, find_index, put_index, at_index, count_index,
  sub_of, insert_last, insert_index,
}
use apac.Prelude.{some_inj, none≢some, if_true}
use apac.TaskGraph.AliasTable.Index.{
  at_index-sub_of, struct_at, struct_at-one, sub_of-struct_of, find_index-put_index,
}

-- A sub array whose struct is a null pointer.
abbrev pub IsNull : Option Values → Type 0
IsNull o = (sub : Entries) × (o ≡ some (sub_array sub none))

abbrev has_null_struct : Option Values → Bool
has_null_struct (some (sub_array m none)) = true
has_null_struct (some (sub_array m (some s))) = false
has_null_struct (some (alias_struct s)) = false
has_null_struct none = false

IsNull-has_null_struct : (o : Option Values) → IsNull o → has_null_struct o ≡ true
IsNull-has_null_struct o x = ap has_null_struct x.1

map_none :
    {A B : Type 0} (f : A → B) (o : Option A)
    → (elim o [ none ↦ none | some v ↦ some (f v) ] ≡ none) ↔ (o ≡ none)
map_none f none = (λ e. refl, λ e. refl)
map_none f (some v) = (λ e. absurd (none≢some (sym e)), λ e. absurd (none≢some (sym e)))

insert_last-IsNull : (o : Option Values) (new : ArgStruct) → (insert_last o new ≡ none) ↔ IsNull o
insert_last-IsNull none new = (λ e. absurd (none≢some (sym e)), λ x. absurd (none≢some x.1))
insert_last-IsNull (some (alias_struct s)) new =
    (λ e. absurd (none≢some (sym e)), λ x. absurd (false≢true (IsNull-has_null_struct _ x)))
insert_last-IsNull (some (sub_array m none)) new = (λ e. (m, refl), λ x. refl)
insert_last-IsNull (some (sub_array m (some s))) new =
    (λ e. absurd (none≢some (sym e)), λ x. absurd (false≢true (IsNull-has_null_struct _ x)))

-- The insertion at an index list has no result exactly where the list leads to a sub array that was
-- made for longer lists and has no struct of its own.
pub insert_index-IsNull :
    (i : ℤ) (is : List ℤ) (new : ArgStruct) (m : Entries)
    → (insert_index (i ∷ is) new m ≡ none) ↔ IsNull (at_index (i ∷ is) m)
unfolding insert_index at_index
insert_index-IsNull i [] new m =
    let step = map_none (λ v. put_index i v m) (insert_last (find_index i m) new) in
    let last = insert_last-IsNull (find_index i m) new in
    (λ e. last.0 (step.0 e), λ x. step.1 (last.1 x))
insert_index-IsNull i (j ∷ is) new m =
    let (sub, s) = sub_of (find_index i m) in
    let step = map_none (λ t. put_index i (sub_array t s) m) (insert_index (j ∷ is) new sub) in
    let below = insert_index-IsNull j is new sub in
    let same = at_index-sub_of i j is m in
    (λ e. subst IsNull (sym same) (below.0 (step.0 e)), λ x. step.1 (below.1 (subst IsNull same x)))

-- An element of an array cannot be inserted after its sub elements: where nothing stands at `tab[i]`
-- and an element with more indexes is inserted below, the insertion of `tab[i]` has no result.
pub insert_index-prefix :
    (i j : ℤ) (is : List ℤ) (new later : ArgStruct) (m m' : Entries)
    → struct_at (i ∷ []) m ≡ none
    → insert_index (i ∷ j ∷ is) new m ≡ some m'
    → insert_index (i ∷ []) later m' ≡ none
unfolding insert_index at_index
insert_index-prefix i j is new later m m' free e =
    let (old, s) = sub_of (find_index i m) in
    let no_struct : s ≡ none = sub_of-struct_of (find_index i m) ∙ sym (struct_at-one i m) ∙ free in
    elim (Option-cases (insert_index (j ∷ is) new old)) [
      | inl q ↦ absurd (none≢some (rw (q, insert_index) at e))
      | inr (sub, q) ↦
          let found : find_index i (put_index i (sub_array sub s) m) ≡ some (sub_array sub s) =
            find_index-put_index i i (sub_array sub s) m ∙ if_true _ _ ((int_eq_iff i i).1 refl) in
          (insert_index-IsNull i [] later m').1 (
            subst (λ k. IsNull (find_index i k)) (some_inj (rw (q, insert_index) at e))
              (sub, found ∙ ap (λ t. some (sub_array sub t)) no_struct))
    ]

abbrev pub found : Option Values → ℕ
found none = 0
found (some v) = 1

count_step :
    (is : List ℤ) (o : Option Values)
    → ((sub : Entries) → count_index is sub ≡ found (at_index is sub))
    → elim o [ none ↦ 0 | some (alias_struct s) ↦ 0 | some (sub_array sub s) ↦ count_index is sub ]
      ≡ found (elim o [
        | none ↦ none
        | some (alias_struct s) ↦ none
        | some (sub_array sub s) ↦ at_index is sub
      ])
count_step is none below = refl
count_step is (some (alias_struct s)) below = refl
count_step is (some (sub_array sub s)) below = below sub

-- `count` is 1 where `at` finds a value, and 0 where it returns a null pointer.
pub count_index-at_index : (is : List ℤ) (m : Entries) → count_index is m ≡ found (at_index is m)
unfolding count_index at_index
count_index-at_index [] m = refl
count_index-at_index (i ∷ []) m = refl
count_index-at_index (i ∷ j ∷ is) m =
    count_step (j ∷ is) (find_index i m) (count_index-at_index (j ∷ is))
