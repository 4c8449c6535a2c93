-- ===== src/TaskGraph/AliasTable/Index.antt =====
-- The index maps (AliasTableIndexMap.cpp) as a finite map from index lists to structs.
use apac.Prelude.{◌≡◌, refl, ◌∙◌, sym, ap, inl, inr, Bool, true, false, ◌&&◌}
use apac.Prelude.{
  Option, none, some, List, [], ◌∷◌, if◌then◌else◌, arith, Option-cases, Bool-cases, some_inj,
  none≢some,
}
use apac.Prelude.{if_true, if_false, if_and}
use mathlib.Core.Path.{subst}
use apac.Prelude.Int.{ℤ, int_eq, int_eq_iff}
use apac.TaskGraph.AliasTable.{
  ArgStruct, merge, Values, Entries, alias_struct, sub_array, no_entries, entry, find_index,
  put_index, at_index, sub_of, insert_last, insert_index, struct_of,
}

abbrev pub same_index : List ℤ → List ℤ → Bool
same_index [] [] = true
same_index (i ∷ is) (j ∷ js) = int_eq i j && same_index is js
same_index _ _ = false

-- The struct at an index list.
abbrev pub struct_at : List ℤ → Entries → Option ArgStruct
struct_at is m = elim (at_index is m) [ none ↦ none | some v ↦ struct_of v ]

abbrev pub merged : Option ArgStruct → ArgStruct → ArgStruct
merged none new = new
merged (some s) new = merge s new

pub find_index-put_index :
    (i j : ℤ) (v : Values) (m : Entries)
    → find_index j (put_index i v m) ≡ (if int_eq i j then some v else find_index j m)
find_index-put_index i j v no_entries = refl
find_index-put_index i j v (entry k w m) =
    ground (arith, find_index-put_index i j v m, int_eq_iff i j, int_eq_iff k i, int_eq_iff k j)

at_index-no_entries : (is : List ℤ) → at_index is no_entries ≡ none
unfolding at_index
at_index-no_entries [] = refl
at_index-no_entries (i ∷ []) = refl
at_index-no_entries (i ∷ j ∷ is) = refl

pub step_at :
    (o : Option Values) (is : List ℤ)
    → elim o [
      | none ↦ none
      | some (alias_struct s) ↦ none
      | some (sub_array sub s) ↦ at_index is sub
    ]
      ≡ at_index is (sub_of o).0
step_at none is = sym (at_index-no_entries is)
step_at (some (alias_struct s)) is = sym (at_index-no_entries is)
step_at (some (sub_array sub s)) is = refl

pub at_index-sub_of :
    (i j : ℤ) (is : List ℤ) (m : Entries)
    → at_index (i ∷ j ∷ is) m ≡ at_index (j ∷ is) (sub_of (find_index i m)).0
unfolding at_index
at_index-sub_of i j is m = step_at (find_index i m) (j ∷ is)

abbrev pub struct_of_option : Option Values → Option ArgStruct
struct_of_option none = none
struct_of_option (some v) = struct_of v

-- What the value at the last index is, after the insertion.
abbrev Inserted : Option Values → ArgStruct → Values → Type 0
Inserted o new v =
    (struct_of v ≡ some (merged (struct_of_option o) new)) × ((sub_of (some v)).0 ≡ (sub_of o).0)

insert_last-Inserted :
    (o : Option Values) (new : ArgStruct) (v : Values)
    → insert_last o new ≡ some v
    → Inserted o new v
insert_last-Inserted none new v e = subst (Inserted none new) (some_inj e) (refl, refl)
insert_last-Inserted (some (alias_struct s)) new v e =
    subst (Inserted (some (alias_struct s)) new) (some_inj e) (refl, refl)
insert_last-Inserted (some (sub_array m none)) new v e = absurd (none≢some e)
insert_last-Inserted (some (sub_array m (some s))) new v e =
    subst (Inserted (some (sub_array m (some s))) new) (some_inj e) (refl, refl)

pub sub_of-struct_of : (o : Option Values) → (sub_of o).1 ≡ struct_of_option o
sub_of-struct_of none = refl
sub_of-struct_of (some (alias_struct s)) = refl
sub_of-struct_of (some (sub_array m s)) = refl

pub struct_of_option_lem :
    (o : Option Values) → elim o [ none ↦ none | some v ↦ struct_of v ] ≡ struct_of_option o
struct_of_option_lem none = refl
struct_of_option_lem (some v) = refl

pub struct_at-one : (i : ℤ) (m : Entries) → struct_at (i ∷ []) m ≡ struct_of_option (find_index i m)
unfolding at_index
struct_at-one i m = struct_of_option_lem (find_index i m)

struct_at-sub :
    (i j : ℤ) (is : List ℤ) (m : Entries)
    → struct_at (i ∷ j ∷ is) m ≡ struct_at (j ∷ is) (sub_of (find_index i m)).0
struct_at-sub i j is m =
    ap (λ o. elim o [ none ↦ none | some v ↦ struct_of v ]) (at_index-sub_of i j is m)

-- One step of the insertion: the value at the first index changes, and nothing else.
module _ (i : ℤ) (m : Entries) (v : Values) where
  struct_at-put_one :
      (k : ℤ)
      → struct_at (k ∷ []) (put_index i v m)
        ≡ (if int_eq i k then struct_of v else struct_at (k ∷ []) m)
  struct_at-put_one k = elim (Bool-cases (int_eq i k)) [
    | inl e ↦
        struct_at-one k (put_index i v m)
        ∙ ap struct_of_option (find_index-put_index i k v m ∙ if_true _ _ e)
        ∙ sym (if_true _ _ e)
    | inr e ↦
        struct_at-one k (put_index i v m)
        ∙ ap struct_of_option (find_index-put_index i k v m ∙ if_false _ _ e)
        ∙ sym (struct_at-one k m)
        ∙ sym (if_false _ _ e)
  ]

  struct_at-put_more :
      (k j : ℤ) (js : List ℤ)
      → struct_at (k ∷ j ∷ js) (put_index i v m)
        ≡ (if int_eq i k then struct_at (j ∷ js) (sub_of (some v)).0 else struct_at (k ∷ j ∷ js) m)
  struct_at-put_more k j js = elim (Bool-cases (int_eq i k)) [
    | inl e ↦
        struct_at-sub k j js (put_index i v m)
        ∙ ap (λ o. struct_at (j ∷ js) (sub_of o).0) (find_index-put_index i k v m ∙ if_true _ _ e)
        ∙ sym (if_true _ _ e)
    | inr e ↦
        struct_at-sub k j js (put_index i v m)
        ∙ ap (λ o. struct_at (j ∷ js) (sub_of o).0) (find_index-put_index i k v m ∙ if_false _ _ e)
        ∙ sym (struct_at-sub k j js m)
        ∙ sym (if_false _ _ e)
  ]

-- What an insertion at `is` makes of the structs at the lists `js`.
abbrev pub InsertedAt : List ℤ → ArgStruct → Entries → Entries → Type 0
InsertedAt is new m m' =
    (js : List ℤ)
    → struct_at js m'
      ≡ (if same_index is js then some (merged (struct_at is m) new) else struct_at js m)

insert_one :
    (i : ℤ) (new : ArgStruct) (m : Entries) (v : Values)
    → insert_last (find_index i m) new ≡ some v
    → InsertedAt (i ∷ []) new m (put_index i v m)
unfolding at_index
insert_one i new m v e [] = refl
insert_one i new m v e (k ∷ []) =
    let inserted = insert_last-Inserted (find_index i m) new v e in
    struct_at-put_one i m v k
    ∙ if_and (int_eq i k) true (struct_of v) (struct_at (k ∷ []) m) _
        (λ same. inserted.0 ∙ ap (λ o. some (merged o new)) (sym (struct_at-one i m)))
insert_one i new m v e (k ∷ j ∷ js) =
    let inserted = insert_last-Inserted (find_index i m) new v e in
    struct_at-put_more i m v k j js
    ∙ if_and (int_eq i k) false (struct_at (j ∷ js) (sub_of (some v)).0) (struct_at (k ∷ j ∷ js) m)
        _
        (λ same.
          ap (struct_at (j ∷ js)) inserted.1
          ∙ ap (λ x. struct_at (j ∷ js) (sub_of (find_index x m)).0) ((int_eq_iff i k).0 same)
          ∙ sym (struct_at-sub k j js m))

insert_more :
    (i j : ℤ) (is : List ℤ) (new : ArgStruct) (m sub : Entries)
    → InsertedAt (j ∷ is) new (sub_of (find_index i m)).0 sub
    → InsertedAt (i ∷ j ∷ is) new m (put_index i (sub_array sub (sub_of (find_index i m)).1) m)
unfolding at_index
insert_more i j is new m sub below [] = refl
insert_more i j is new m sub below (k ∷ []) =
    struct_at-put_one i m _ k
    ∙ if_and (int_eq i k) false (sub_of (find_index i m)).1 (struct_at (k ∷ []) m) _ (λ same.
      sub_of-struct_of (find_index i m)
      ∙ ap (λ x. struct_of_option (find_index x m)) ((int_eq_iff i k).0 same)
      ∙ sym (struct_at-one k m))
insert_more i j is new m sub below (k ∷ l ∷ js) =
    let old = (sub_of (find_index i m)).0 in
    let c = same_index (j ∷ is) (l ∷ js) in
    struct_at-put_more i m _ k l js
    ∙ if_and (int_eq i k) c (struct_at (l ∷ js) sub) (struct_at (k ∷ l ∷ js) m) _ (λ same.
      let there : struct_at (l ∷ js) old ≡ struct_at (k ∷ l ∷ js) m =
        ap (λ x. struct_at (l ∷ js) (sub_of (find_index x m)).0) ((int_eq_iff i k).0 same)
        ∙ sym (struct_at-sub k l js m) in
      below (l ∷ js)
      ∙ ap (λ o. if c then some (merged (struct_at (j ∷ is) old) new) else o) there
      ∙ ap (λ o. if c then some (merged o new) else struct_at (k ∷ l ∷ js) m)
          (sym (struct_at-sub i j is m)))

-- If the insertion of a struct at an index list succeeds, the struct there is the new one, or the
-- old one with the unknown indexes of the new one, and the struct at every other list stays.
pub insert_index-struct_at :
    (i : ℤ) (is : List ℤ) (new : ArgStruct) (m m' : Entries)
    → insert_index (i ∷ is) new m ≡ some m'
    → InsertedAt (i ∷ is) new m m'
unfolding insert_index
insert_index-struct_at i [] new m m' e = elim (Option-cases (insert_last (find_index i m) new)) [
  | inl q ↦ absurd (none≢some (rw (q, insert_index) at e))
  | inr (v, q) ↦
      subst (InsertedAt (i ∷ []) new m) (some_inj (rw (q, insert_index) at e))
        (insert_one i new m v q)
]
insert_index-struct_at i (j ∷ is) new m m' e =
    elim (Option-cases (insert_index (j ∷ is) new (sub_of (find_index i m)).0)) [
      | inl q ↦ absurd (none≢some (rw (q, insert_index) at e))
      | inr (sub, q) ↦
          subst (InsertedAt (i ∷ j ∷ is) new m) (some_inj (rw (q, insert_index) at e)) (
            insert_more i j is new m sub
              (insert_index-struct_at j is new (sub_of (find_index i m)).0 sub q))
    ]
