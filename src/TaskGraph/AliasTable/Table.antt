-- ===== src/TaskGraph/AliasTable/Table.antt =====
-- The table of all elements (AliasTableAliasMap.cpp) and `getAliasArg` (AliasTable.cpp).
use Prim.Native.String.{String}
use apac.Prelude.{◌==◌}
use text.Mathlib.TextEquality.{eq_iff}
use text.Mathlib.TextPositions.{eq_refl}
use apac.Prelude.{
  ℕ, ◌≡◌, refl, ◌≢◌, ◌∙◌, sym, ap, inl, inr, Bool, true, false, ◌&&◌, ==_iff, ==-self,
}
use apac.Prelude.{Option, none, some, List, [], ◌∷◌, if◌then◌else◌, Option-cases, Bool-cases}
use mathlib.Core.Path.{subst}
use apac.Prelude.Int.{ℤ, int_eq_iff}
use apac.Prelude.Maps.{lookup, put, lookup-put}
use apac.TaskGraph.AliasArg.{AliasArg, get_index_key}
use apac.TaskGraph.AliasTable.{
  ArgStruct, Values, Entries, AliasTableMap, alias_struct, sub_array, at_index, sub_of,
  insert_index, struct_of, arg_struct, insert_variable, table_at, table_insert, pick, get_alias_arg,
  same_text,
}
use apac.Prelude.{some_inj, none≢some, if_true, if_false, if_and}
use apac.TaskGraph.AliasTable.Index.{
  struct_at, same_index, merged, step_at, struct_of_option, struct_of_option_lem, sub_of-struct_of,
  insert_index-struct_at,
}

-- The struct of the element of a variable at an index list.
abbrev pub table_struct : ℕ → List ℤ → AliasTableMap → Option ArgStruct
table_struct key is m = struct_of_option (table_at key is m)

-- What an insertion leaves: the variable itself is not merged.
abbrev pub joined : List ℤ → Option ArgStruct → ArgStruct → ArgStruct
joined [] none new = new
joined [] (some s) new = s
joined (i ∷ is) o new = merged o new

table_struct-sub :
    (key : ℕ) (i : ℤ) (is : List ℤ) (m : AliasTableMap)
    → table_struct key (i ∷ is) m ≡ struct_at (i ∷ is) (sub_of (lookup key m)).0
unfolding table_at
table_struct-sub key i is m =
    ap struct_of_option (step_at (lookup key m) (i ∷ is))
    ∙ sym (struct_of_option_lem (at_index (i ∷ is) (sub_of (lookup key m)).0))

ap_if {ℓ μ} :
    {A : Type ℓ} {B : Type μ} (f : A → B) (c : Bool) (x y : A)
    → f (if c then x else y) ≡ (if c then f x else f y)
ap_if f true x y = refl
ap_if f false x y = refl

-- The value of one variable changes.
module _ (key : ℕ) (m : AliasTableMap) (v : Values) where
  table_struct-put_variable :
      (k : ℕ)
      → table_struct k [] (put key v m) ≡ (if key == k then struct_of v else table_struct k [] m)
  unfolding table_at
  table_struct-put_variable k =
      ap struct_of_option (lookup-put key k v m)
      ∙ ap_if struct_of_option (key == k) (some v) (lookup k m)

  table_struct-put_element :
      (k : ℕ) (i : ℤ) (is : List ℤ)
      → table_struct k (i ∷ is) (put key v m)
        ≡ (if key == k then struct_at (i ∷ is) (sub_of (some v)).0 else table_struct k (i ∷ is) m)
  table_struct-put_element k i is =
      table_struct-sub k i is (put key v m)
      ∙ ap (λ o. struct_at (i ∷ is) (sub_of o).0) (lookup-put key k v m)
      ∙ ap_if (λ o. struct_at (i ∷ is) (sub_of o).0) (key == k) (some v) (lookup k m)
      ∙ ap (λ o. if key == k then struct_at (i ∷ is) (sub_of (some v)).0 else o)
          (sym (table_struct-sub k i is m))

-- What an insertion at `is` makes of the structs of all variables and index lists.
abbrev pub TableInsertedAt : ℕ → List ℤ → ArgStruct → AliasTableMap → AliasTableMap → Type 0
TableInsertedAt key is new m m' =
    (k : ℕ) (js : List ℤ)
    → table_struct k js m' ≡ (
        if (key == k) && same_index is js
        then some (joined is (table_struct key is m) new)
        else table_struct k js m)

insert_variable-struct_of :
    (o : Option Values) (new : ArgStruct)
    → struct_of (insert_variable o new) ≡ some (joined [] (struct_of_option o) new)
insert_variable-struct_of none new = refl
insert_variable-struct_of (some (alias_struct s)) new = refl
insert_variable-struct_of (some (sub_array m none)) new = refl
insert_variable-struct_of (some (sub_array m (some s))) new = refl

insert_variable-sub_of :
    (o : Option Values) (new : ArgStruct) → (sub_of (some (insert_variable o new))).0 ≡ (sub_of o).0
insert_variable-sub_of none new = refl
insert_variable-sub_of (some (alias_struct s)) new = refl
insert_variable-sub_of (some (sub_array m none)) new = refl
insert_variable-sub_of (some (sub_array m (some s))) new = refl

variable_inserted :
    (key : ℕ) (new : ArgStruct) (m : AliasTableMap)
    → TableInsertedAt key [] new m (put key (insert_variable (lookup key m) new) m)
unfolding table_at
variable_inserted key new m k [] =
    let v = insert_variable (lookup key m) new in
    table_struct-put_variable key m v k
    ∙ if_and (key == k) true (struct_of v) (table_struct k [] m) _
        (λ same. insert_variable-struct_of (lookup key m) new)
variable_inserted key new m k (j ∷ js) =
    let v = insert_variable (lookup key m) new in
    table_struct-put_element key m v k j js
    ∙ if_and (key == k) false (struct_at (j ∷ js) (sub_of (some v)).0) (table_struct k (j ∷ js) m) _
        (λ same.
          ap (struct_at (j ∷ js)) (insert_variable-sub_of (lookup key m) new)
          ∙ ap (λ x. struct_at (j ∷ js) (sub_of (lookup x m)).0) ((==_iff key k).0 same)
          ∙ sym (table_struct-sub k j js m))

element_inserted :
    (key : ℕ) (i : ℤ) (is : List ℤ) (new : ArgStruct) (m : AliasTableMap) (sub : Entries)
    → insert_index (i ∷ is) new (sub_of (lookup key m)).0 ≡ some sub
    → TableInsertedAt key (i ∷ is) new m (put key (sub_array sub (sub_of (lookup key m)).1) m)
unfolding table_at
element_inserted key i is new m sub e k [] =
    let s = (sub_of (lookup key m)).1 in
    table_struct-put_variable key m (sub_array sub s) k
    ∙ if_and (key == k) false s (table_struct k [] m) _ (λ same.
      sub_of-struct_of (lookup key m)
      ∙ ap (λ x. struct_of_option (lookup x m)) ((==_iff key k).0 same))
element_inserted key i is new m sub e k (j ∷ js) =
    let (old, s) = sub_of (lookup key m) in
    let c = same_index (i ∷ is) (j ∷ js) in
    table_struct-put_element key m (sub_array sub s) k j js
    ∙ if_and (key == k) c (struct_at (j ∷ js) sub) (table_struct k (j ∷ js) m) _ (λ same.
      insert_index-struct_at i is new old sub e (j ∷ js)
      ∙ ap (λ o. if c then some (merged (struct_at (i ∷ is) old) new) else o)
          (ap (λ x. struct_at (j ∷ js) (sub_of (lookup x m)).0) ((==_iff key k).0 same)
            ∙ sym (table_struct-sub k j js m))
      ∙ ap (λ o. if c then some (merged o new) else table_struct k (j ∷ js) m)
          (sym (table_struct-sub key i is m)))

-- If the insertion of an element of a variable succeeds, the struct at its indexes is the new one,
-- or the old one with the unknown indexes of the new one, and for the variable itself the old one.
-- No other struct in the table changes.
pub table_insert-table_struct :
    (elem : AliasArg) (is : List ℤ) (m m' : AliasTableMap)
    → table_insert elem is m ≡ some m'
    → TableInsertedAt elem.declaration is (arg_struct elem) m m'
unfolding table_insert
table_insert-table_struct elem [] m m' e =
    subst (TableInsertedAt elem.declaration [] (arg_struct elem) m) (some_inj e)
      (variable_inserted elem.declaration (arg_struct elem) m)
table_insert-table_struct elem (i ∷ is) m m' e =
    let (old, s) = sub_of (lookup elem.declaration m) in
    elim (Option-cases (insert_index (i ∷ is) (arg_struct elem) old)) [
      | inl q ↦ absurd (none≢some (rw (q, table_insert) at e))
      | inr (sub, q) ↦
          subst (TableInsertedAt elem.declaration (i ∷ is) (arg_struct elem) m)
            (some_inj (rw (q, table_insert) at e))
            (element_inserted elem.declaration i is (arg_struct elem) m sub q)
    ]

abbrev pick_option : String → Option ArgStruct → Option ℕ
pick_option text none = none
pick_option text (some s) = pick text s

pick_found :
    (text : String) (o : Option Values)
    → elim o [ none ↦ none | some v ↦ elim (struct_of v) [ none ↦ none | some s ↦ pick text s ] ]
      ≡ pick_option text (struct_of_option o)
pick_found text none = refl
pick_found text (some v) = elim (Option-cases (struct_of v)) [
  | inl e ↦ rw e refl
  | inr (s, e) ↦ rw e refl
]

get_alias_arg-table_struct :
    (m : AliasTableMap) (v : ℕ) (is : List ℤ) (text : String)
    → get_alias_arg m v is text ≡ pick_option text (table_struct v is m)
unfolding get_alias_arg
get_alias_arg-table_struct m v is text = pick_found text (table_at v is m)

joined-none : (is : List ℤ) (new : ArgStruct) → some (joined is none new) ≡ some new
joined-none [] new = refl
joined-none (i ∷ is) new = refl

same_index_self : (is : List ℤ) → same_index is is ≡ true
same_index_self [] = refl
same_index_self (i ∷ is) =
    ap (λ b. b && same_index is is) ((int_eq_iff i i).1 refl) ∙ same_index_self is

pick_text :
    (text : String) (id : ℕ)
    → text ≢ ""
    → pick text (record { alias = none; unknown_index_aliases = (text, id) ∷ [] }) ≡ some id
pick_text text id named = elim (Bool-cases (same_text text "")) [
  | inl e ↦ absurd (named ((eq_iff text "").0 e))
  | inr e ↦ if_false none _ e ∙ if_true (some id) none (eq_refl text)
]

pick-arg_struct :
    (elem : AliasArg)
    → (elem.has_unknown_index ≡ true → elem.index_string ≢ "")
    → pick (get_index_key elem) (arg_struct elem) ≡ some elem.id
pick-arg_struct elem named = elim (Bool-cases elem.has_unknown_index) [
  | inl e ↦ rw e (pick_text elem.index_string elem.id (named e))
  | inr e ↦ rw e refl
]

-- Round trip: where the table has no struct at the indexes of a variable, and an element is inserted
-- there, `getAliasArg` finds this element under the text of its indexes, which is not empty if one
-- of them is unknown.
pub get_alias_arg-table_insert :
    (elem : AliasArg) (is : List ℤ) (m m' : AliasTableMap)
    → table_insert elem is m ≡ some m'
    → table_struct elem.declaration is m ≡ none
    → (elem.has_unknown_index ≡ true → elem.index_string ≢ "")
    → get_alias_arg m' elem.declaration is (get_index_key elem) ≡ some elem.id
get_alias_arg-table_insert elem is m m' e free named =
    let key = elem.declaration in
    let here : (key == key) && same_index is is ≡ true =
      ap (λ b. b && same_index is is) (==-self key) ∙ same_index_self is in
    get_alias_arg-table_struct m' key is (get_index_key elem)
    ∙ ap (pick_option (get_index_key elem)) (
        table_insert-table_struct elem is m m' e key is
        ∙ if_true _ _ here
        ∙ ap (λ o. some (joined is o (arg_struct elem))) free
        ∙ joined-none is (arg_struct elem))
    ∙ pick-arg_struct elem named

-- The insertion of an element leaves what `getAliasArg` answers for every other variable or list of
-- indexes.
pub get_alias_arg-other :
    (elem : AliasArg) (is : List ℤ) (m m' : AliasTableMap) (v : ℕ) (js : List ℤ) (text : String)
    → table_insert elem is m ≡ some m'
    → ((elem.declaration == v) && same_index is js) ≡ false
    → get_alias_arg m' v js text ≡ get_alias_arg m v js text
get_alias_arg-other elem is m m' v js text e other =
    get_alias_arg-table_struct m' v js text
    ∙ ap (pick_option text) (table_insert-table_struct elem is m m' e v js ∙ if_false _ _ other)
    ∙ sym (get_alias_arg-table_struct m v js text)
