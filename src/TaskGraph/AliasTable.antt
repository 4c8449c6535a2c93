-- ===== src/TaskGraph/AliasTable.antt =====
-- transforms/TaskGraph: include/AliasTableMaps.hpp, src/AliasTableIndexMap.cpp,
-- src/AliasTableAliasMap.cpp, and the lookups of AliasTable.hpp and AliasTable.cpp. A `nullptr` that
-- is returned is `none`. An operation that dereferences a null pointer has the result `none` too:
-- then its result type is an `Option` of the changed map.
pub mod Aliases
pub mod Index
pub mod Null
pub mod Related
pub mod Queries
pub mod Table
mod Tests
use Prim.Native.String.{String}
use text.Mathlib.Text.{◌==◌}
use apac.Prelude.{ℕ, ◌+◌, Bool, true, false, Option, none, some, List, [], ◌∷◌, ◌++◌, foldl, length}
use apac.Prelude.{if◌then◌else◌}
use apac.Prelude.Int.{ℤ, int_eq, int_ltb}
use apac.Prelude.Maps.{lookup, put}
use apac.TaskGraph.AliasArg.{AliasArg}

abbrev pub same_text : String → String → Bool
same_text s t = s == t

-- `aliasArgStruct`: an element, and the elements with unknown indexes, each under its text.
pub record ArgStruct : Type 0 where
  pub alias : Option ℕ
  pub unknown_index_aliases : List (String × ℕ)

abbrev pub lookup_text : String → List (String × ℕ) → Option ℕ
lookup_text k [] = none
lookup_text k ((j, e) ∷ m) = let rest = lookup_text k m in if same_text k j then some e else rest

-- `insert` into an `unordered_map` keeps the value that is there.
abbrev pub insert_text : List (String × ℕ) → String × ℕ → List (String × ℕ)
insert_text m (k, e) = elim (lookup_text k m) [ none ↦ m ++ (k, e) ∷ [] | some _ ↦ m ]

abbrev pub struct_nb_elements : ArgStruct → ℕ
struct_nb_elements s = elim s.alias [ none ↦ 0 | some _ ↦ 1 ] + length s.unknown_index_aliases

abbrev pub values_of : List (String × ℕ) → List ℕ
values_of [] = []
values_of ((k, e) ∷ m) = e ∷ values_of m

abbrev pub get_all_alias : ArgStruct → List ℕ
get_all_alias s = elim s.alias [ none ↦ [] | some e ↦ e ∷ [] ] ++ values_of s.unknown_index_aliases

-- `operator+=`
abbrev pub merge : ArgStruct → ArgStruct → ArgStruct
merge s rhs = record s {
  unknown_index_aliases = foldl insert_text s.unknown_index_aliases rhs.unknown_index_aliases;
}

-- The struct that `insert` makes of a new element.
abbrev pub arg_struct : AliasArg → ArgStruct
arg_struct elem =
    if elem.has_unknown_index
    then record { alias = none; unknown_index_aliases = (elem.index_string, elem.id) ∷ [] }
    else record { alias = some elem.id; unknown_index_aliases = [] }

-- `aliasesTableValues`, and the map of an `IndexTableMapStruct` in the order of its keys. A sub
-- array has the struct of the element whose indexes it holds, or a null pointer.
mutual
  pub data Values : Type 0 where
    alias_struct : ArgStruct → Values
    sub_array : Entries → Option ArgStruct → Values

  pub data Entries : Type 0 where
    no_entries : Entries
    entry : ℤ → Values → Entries → Entries

abbrev pub find_index : ℤ → Entries → Option Values
find_index i no_entries = none
find_index i (entry j v m) = let rest = find_index i m in if int_eq j i then some v else rest

abbrev pub put_index : ℤ → Values → Entries → Entries
put_index i v no_entries = entry i v no_entries
put_index i v (entry j w m) =
    let rest = put_index i v m in
    if int_eq j i
    then entry i v m
    else if int_ltb i j
    then entry i v (entry j w m)
    else entry j w rest

-- `IndexTableMapStruct::at`
unfoldable pub at_index : List ℤ → Entries → Option Values
at_index [] m = none
at_index (i ∷ []) m = find_index i m
at_index (i ∷ j ∷ is) m = elim (find_index i m) [
  | none ↦ none
  | some (alias_struct s) ↦ none
  | some (sub_array sub s) ↦ at_index (j ∷ is) sub
]

-- `IndexTableMapStruct::count`
unfoldable pub count_index : List ℤ → Entries → ℕ
count_index [] m = 0
count_index (i ∷ []) m = elim (find_index i m) [ none ↦ 0 | some _ ↦ 1 ]
count_index (i ∷ j ∷ is) m = elim (find_index i m) [
  | none ↦ 0
  | some (alias_struct s) ↦ 0
  | some (sub_array sub s) ↦ count_index (j ∷ is) sub
]

-- `IndexTableMapStruct::nbElements`
unfoldable mutual
  pub nb_values : Values → ℕ
  nb_values (alias_struct s) = struct_nb_elements s
  nb_values (sub_array m s) = elim s [ none ↦ 0 | some t ↦ struct_nb_elements t ] + nb_entries m

  pub nb_entries : Entries → ℕ
  nb_entries no_entries = 0
  nb_entries (entry i v m) = nb_values v + nb_entries m

-- The sub array on the way to a longer index list: a new one, one made of an element, or the old.
abbrev pub sub_of : Option Values → Entries × Option ArgStruct
sub_of none = (no_entries, none)
sub_of (some (alias_struct s)) = (no_entries, some s)
sub_of (some (sub_array m s)) = (m, s)

-- The last index. A sub array whose struct is null is dereferenced.
abbrev pub insert_last : Option Values → ArgStruct → Option Values
insert_last none new = some (alias_struct new)
insert_last (some (alias_struct s)) new = some (sub_array no_entries (some (merge s new)))
insert_last (some (sub_array m none)) new = none
insert_last (some (sub_array m (some s))) new = some (sub_array m (some (merge s new)))

-- `IndexTableMapStruct::insert`, where there are indexes.
unfoldable pub insert_index : List ℤ → ArgStruct → Entries → Option Entries
insert_index [] new m = some m
insert_index (i ∷ []) new m = elim (insert_last (find_index i m) new) [
  | none ↦ none
  | some v ↦ some (put_index i v m)
]
insert_index (i ∷ j ∷ is) new m = elim (insert_index (j ∷ is) new (sub_of (find_index i m)).0) [
  | none ↦ none
  | some sub ↦ some (put_index i (sub_array sub (sub_of (find_index i m)).1) m)
]

-- `AliasTableMapStruct`: from declarations.
abbrev pub AliasTableMap : Type 0
AliasTableMap = List (ℕ × Values)

-- `AliasTableMapStruct::at`
unfoldable pub table_at : ℕ → List ℤ → AliasTableMap → Option Values
table_at key [] m = lookup key m
table_at key (i ∷ is) m = elim (lookup key m) [
  | none ↦ none
  | some (alias_struct s) ↦ none
  | some (sub_array sub s) ↦ at_index (i ∷ is) sub
]

-- `AliasTableMapStruct::count`
unfoldable pub table_count : ℕ → List ℤ → AliasTableMap → ℕ
table_count key [] m = elim (lookup key m) [ none ↦ 0 | some _ ↦ 1 ]
table_count key (i ∷ is) m = elim (lookup key m) [
  | none ↦ 0
  | some (alias_struct s) ↦ 0
  | some (sub_array sub s) ↦ count_index (i ∷ is) sub
]

-- `AliasTableMapStruct::nbElements`
unfoldable pub table_nb_elements : AliasTableMap → ℕ
table_nb_elements [] = 0
table_nb_elements ((key, v) ∷ m) = nb_values v + table_nb_elements m

-- The variable itself: only a variable that is not there, or has only elements, changes.
abbrev pub insert_variable : Option Values → ArgStruct → Values
insert_variable none new = alias_struct new
insert_variable (some (alias_struct s)) new = alias_struct s
insert_variable (some (sub_array m none)) new = sub_array m (some new)
insert_variable (some (sub_array m (some s))) new = sub_array m (some s)

-- `AliasTableMapStruct::insert`
unfoldable pub table_insert : AliasArg → List ℤ → AliasTableMap → Option AliasTableMap
table_insert elem [] m =
    some (put elem.declaration (insert_variable (lookup elem.declaration m) (arg_struct elem)) m)
table_insert elem (i ∷ is) m =
    elim (insert_index (i ∷ is) (arg_struct elem) (sub_of (lookup elem.declaration m)).0) [
      | none ↦ none
      | some sub ↦
          some (put elem.declaration (sub_array sub (sub_of (lookup elem.declaration m)).1) m)
    ]

abbrev pub struct_of : Values → Option ArgStruct
struct_of (alias_struct s) = some s
struct_of (sub_array m s) = s

-- The element that a struct holds for the text of its indexes, which is empty if they are known.
abbrev pub pick : String → ArgStruct → Option ℕ
pick index_string s =
    if same_text index_string "" then s.alias else lookup_text index_string s.unknown_index_aliases

-- `AliasTable::getAliasArg`; `none` is a null pointer.
unfoldable pub get_alias_arg : AliasTableMap → ℕ → List ℤ → String → Option ℕ
get_alias_arg m v indexes index_string = elim (table_at v indexes m) [
  | none ↦ none
  | some value ↦ elim (struct_of value) [ none ↦ none | some s ↦ pick index_string s ]
]
