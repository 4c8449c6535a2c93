-- ===== src/TaskGraph/AliasTable/Tests.antt =====
-- The theorems on the alias table at a small array: `tab`, `tab[1][2]` and `tab[i]`.
use apac.Prelude.{ℕ, ◌≡◌, refl, ◌≢◌, ◌↔◌, sym, true, none, some, [], ◌∷◌}
use Prim.Native.String.{String}
use mathlib.Core.Bool.{true≢false}
use text.Mathlib.TextEquality.{eq_iff}
use apac.Prelude.Int.{pos, minus_one}
use apac.TaskGraph.AliasArg.{AliasArg, AliasType, alias_arg}
use apac.TaskGraph.AliasTable.{
  ArgStruct, Entries, AliasTableMap, no_entries, entry, alias_struct, sub_array, arg_struct,
  insert_index, table_insert, get_alias_arg, at_index, table_at,
}
use apac.Prelude.{inl, ◌==◌, if◌then◌else◌}
use apac.Prelude.Maps.{lookup}
use apac.TaskGraph.AliasTable.{Values}
use apac.TaskGraph.AliasTable.Related.{
  value_aliases, get_array_element_parents, get_array_element_children,
  get_array_element_dependencies, In-get_array_element_parents, In-get_array_element_children,
}
use apac.Prelude.{In, List, false, ◌⊎◌, foldl, arith}
use apac.Prelude.Maps.{update}
use apac.TaskGraph.AliasTable.Aliases.{
  Store, IsBacked, add_alias_ptr, fuse_aliased, alias_to, replace_aliased_to_element,
  remove_dependency_ptr, add_alias_ptr-IsBacked, fuse_aliased-IsBacked, In-fuse_aliased,
  In-replace_aliased_to_element,
}
use apac.TaskGraph.AliasTable.Null.{IsNull, insert_index-IsNull, insert_index-prefix}
use apac.TaskGraph.AliasTable.Table.{
  TableInsertedAt, table_insert-table_struct, get_alias_arg-table_insert, get_alias_arg-other,
}

abbrev element : ℕ → ArgStruct
element e = record { alias = some e; unknown_index_aliases = [] }

-- `tab[1][2]`
abbrev deep : Entries
deep =
    entry (pos 1) (sub_array (entry (pos 2) (alias_struct (element 1)) no_entries) none) no_entries

deep_inserted : insert_index (pos 1 ∷ pos 2 ∷ []) (element 1) no_entries ≡ some deep
unfolding insert_index
deep_inserted = refl

insert_index-IsNull_example :
    (insert_index (pos 1 ∷ []) (element 3) deep ≡ none) ↔ IsNull (at_index (pos 1 ∷ []) deep)
insert_index-IsNull_example = insert_index-IsNull (pos 1) [] (element 3) deep

-- `tab[1]` after `tab[1][2]`.
insert_index-prefix_example : insert_index (pos 1 ∷ []) (element 3) deep ≡ none
unfolding at_index
insert_index-prefix_example =
    insert_index-prefix (pos 1) (pos 2) [] (element 1) (element 3) no_entries deep refl
      deep_inserted

-- `tab[i]`, with the identifier 2.
abbrev unknown : AliasArg
unknown = record {
  has_unknown_index = true;
  declaration = 0;
  alias_type = AliasType.variable;
  indexes = minus_one ∷ [];
  index_string = "[i]";
  expression = none;
  id = 2;
  pointers = [];
  references = [];
  aliased = [];
}

unknown-alias_arg : unknown ≡ alias_arg 0 AliasType.variable (minus_one ∷ []) "[i]" none 2
unfolding alias_arg
unknown-alias_arg = refl

-- `tab` alone.
abbrev before : AliasTableMap
before = (0, alias_struct (element 0)) ∷ []

abbrev after : AliasTableMap
after =
    (
      0,
      sub_array (entry minus_one (alias_struct (arg_struct unknown)) no_entries) (some (element 0)),
    )
    ∷ []

unknown_inserted : table_insert unknown (minus_one ∷ []) before ≡ some after
unfolding table_insert insert_index
unknown_inserted = refl

named : true ≡ true → ◌≢◌ {A = String} "[i]" ""
named _ e = true≢false (sym ((eq_iff "[i]" "").1 e))

table_insert-table_struct_example :
    TableInsertedAt 0 (minus_one ∷ []) (arg_struct unknown) before after
table_insert-table_struct_example =
    table_insert-table_struct unknown (minus_one ∷ []) before after unknown_inserted

get_alias_arg-table_insert_example : get_alias_arg after 0 (minus_one ∷ []) "[i]" ≡ some 2
unfolding table_at
get_alias_arg-table_insert_example =
    get_alias_arg-table_insert unknown (minus_one ∷ []) before after unknown_inserted refl named

get_alias_arg-other_example :
    get_alias_arg after 0 (pos 5 ∷ []) "[5]" ≡ get_alias_arg before 0 (pos 5 ∷ []) "[5]"
get_alias_arg-other_example =
    get_alias_arg-other unknown (minus_one ∷ []) before after 0 (pos 5 ∷ []) "[5]" unknown_inserted
      refl

-- The variables 1 and 2, and the pointers 3, which points to 1, and 4.
abbrev cell : ℕ → List ℕ → List ℕ → AliasArg
cell e pointers aliased = record {
  has_unknown_index = false;
  declaration = e;
  alias_type = AliasType.pointer;
  indexes = [];
  index_string = "";
  expression = none;
  id = e;
  pointers = pointers;
  references = [];
  aliased = aliased;
}

abbrev no_aliases : Store
no_aliases e = cell e [] []

no_aliases-IsBacked : IsBacked no_aliases
no_aliases-IsBacked p x i = absurd i

abbrev pointing : Store
pointing = add_alias_ptr (some 1) (some 3) no_aliases

pointing-IsBacked : IsBacked pointing
pointing-IsBacked = add_alias_ptr-IsBacked (some 1) (some 3) no_aliases no_aliases-IsBacked

add_alias_ptr-IsBacked_example : IsBacked (add_alias_ptr (some 2) (some 3) pointing)
add_alias_ptr-IsBacked_example = add_alias_ptr-IsBacked (some 2) (some 3) pointing pointing-IsBacked

fuse_aliased-IsBacked_example : IsBacked (fuse_aliased (some 3) (some 4) pointing)
fuse_aliased-IsBacked_example = fuse_aliased-IsBacked (some 3) (some 4) pointing pointing-IsBacked

In-fuse_aliased_example :
    In 1 (fuse_aliased (some 3) (some 4) pointing 4).aliased
    ↔ ((◌≡◌ {A = ℕ} 4 4 × In 1 (pointing 3).aliased) ⊎ In 1 (pointing 4).aliased)
In-fuse_aliased_example = In-fuse_aliased 3 4 pointing 4 1

abbrev replaced : Store
replaced = foldl (alias_to 4) (update pointing 4 (record (pointing 4) { aliased = [] })) (1 ∷ [])

with_target : replace_aliased_to_element before 3 4 pointing ≡ some replaced
unfolding replace_aliased_to_element remove_dependency_ptr add_alias_ptr
with_target = refl

In-replace_aliased_to_element_example : In 1 (replaced 4).aliased ↔ In 1 (pointing 3).aliased
In-replace_aliased_to_element_example =
    In-replace_aliased_to_element before 3 4 pointing replaced 1 (λ e. ground arith) with_target

-- `tab` and `tab[i]`, by their identifiers.
abbrev tab : AliasArg
tab = cell 0 [] []

abbrev tab_elements : ℕ → AliasArg
tab_elements e = if e == 2 then unknown else tab

unknown_parents : get_array_element_parents tab_elements unknown after ≡ some (2 ∷ [])
unfolding get_array_element_parents get_array_element_dependencies
unknown_parents = refl

In-get_array_element_parents_example : 2 ≡ unknown.id
In-get_array_element_parents_example =
    In-get_array_element_parents tab_elements unknown after (2 ∷ []) 2 unknown_parents (inl refl)

tab_children : get_array_element_children tab_elements tab after ≡ some (0 ∷ [])
unfolding get_array_element_children get_array_element_dependencies
tab_children = refl

In-get_array_element_children_example :
    (v : Values) × (lookup 0 after ≡ some v) × In 0 (value_aliases v)
In-get_array_element_children_example =
    In-get_array_element_children tab_elements tab after (0 ∷ []) 0 refl tab_children (inl refl)
