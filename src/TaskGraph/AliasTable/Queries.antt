-- ===== src/TaskGraph/AliasTable/Queries.antt =====
-- The queries of the alias sets: `getAliased`, `getAliases`, `getPointerAccessedVariables` and
-- `getModifiedVariables` (AliasTable.cpp). The loops that look for more are on fuel; `none` is out of fuel.
pub mod Growth
pub mod Closure
use apac.Prelude.{ℕ, zero, suc, Bool, true, false, ◌||◌, Option, none, some, List, [], ◌∷◌}
use apac.Prelude.{◌==◌, if◌then◌else◌, length, insert, insert_all}
use apac.Prelude.Int.{ℤ, pos, negsuc}
use apac.Prelude.Search.{search}
use apac.TaskGraph.AliasArg.{AliasArg, AliasType}
use apac.TaskGraph.AliasTable.Aliases.{Store}

abbrev pub is_reference : AliasType → Bool
is_reference AliasType.reference = true
is_reference _ = false

abbrev pub is_pointer : AliasType → Bool
is_pointer AliasType.pointer = true
is_pointer _ = false

module _ (s : Store) where
  abbrev pub aliased_next : ℕ → List ℕ
  aliased_next x =
      if is_reference (s x).alias_type || is_pointer (s x).alias_type then (s x).aliased else []

  -- The stack starts with the element, if it is no null pointer.
  unfoldable pub get_aliased : ℕ → Option ℕ → Option (List ℕ)
  get_aliased fuel none = search aliased_next fuel [] []
  get_aliased fuel (some v) = search aliased_next fuel [] (v ∷ [])

  abbrev pub get_references_aliases : ℕ → List ℕ → List ℕ
  get_references_aliases v aliases = insert_all aliases (s v).references

  -- The elements that a reference refers to.
  abbrev pub referred : ℕ → List ℕ
  referred x = if is_reference (s x).alias_type then (s x).aliased else []

  -- The loop over the set `aliases`, into which it inserts: the elements that it starts with are
  -- visited. (Whether one that is inserted is visited in the same round or in the next is not said.)
  abbrev pub visit_aliases : List ℕ → List ℕ × List ℕ → List ℕ × List ℕ
  visit_aliases [] sets = sets
  visit_aliases (x ∷ xs) (aliases, prev) =
      visit_aliases xs (insert_all aliases (referred x), get_references_aliases x prev)

  abbrev pub alias_round : List ℕ × List ℕ → List ℕ × List ℕ
  alias_round (aliases, prev) =
      let (aliases', prev') = visit_aliases aliases (aliases, prev) in
      (insert_all aliases' prev', prev')

  -- The rounds go on while the set grows.
  unfoldable pub alias_rounds : ℕ → ℕ → List ℕ × List ℕ → Option (List ℕ)
  alias_rounds zero old_size sets = if length sets.0 == old_size then some sets.0 else none
  alias_rounds (suc fuel) old_size sets =
      let rest = alias_rounds fuel (length sets.0) (alias_round sets) in
      if length sets.0 == old_size then some sets.0 else rest

  -- The aliases of an element that is no null pointer.
  abbrev pub get_aliases : ℕ → ℕ → Option (List ℕ)
  get_aliases fuel v = alias_rounds fuel 0 (v ∷ [], [])

  -- One level: what the elements of the set alias is added to this level and to the results.
  abbrev pub access_level : List ℕ → List ℕ × List ℕ → List ℕ × List ℕ
  access_level [] sets = sets
  access_level (x ∷ xs) (cur, results) =
      access_level xs (insert_all cur (s x).aliased, insert_all results (s x).aliased)

  abbrev pub access_levels : ℕ → List ℕ → List ℕ → List ℕ
  access_levels zero prec results = results
  access_levels (suc depth) prec results =
      let (cur, results') = access_level prec ([], results) in access_levels depth cur results'

  unfoldable pub get_pointer_accessed_variables : ℕ → List ℕ → List ℕ
  get_pointer_accessed_variables depth results = access_levels depth results results

  -- One level of `getModifiedVariables`: only pointers are followed.
  abbrev pub modify_level : List ℕ → List ℕ → List ℕ
  modify_level [] cur = cur
  modify_level (x ∷ xs) cur =
      modify_level xs (if is_pointer (s x).alias_type then insert_all cur (s x).aliased else cur)

  abbrev pub modify_levels : ℕ → List ℕ → List ℕ
  modify_levels zero cur = cur
  modify_levels (suc depth) cur = modify_levels depth (modify_level cur [])

  -- The loop over `tempAliased`, into which it inserts, and `curSet`.
  abbrev pub visit_modified : List ℕ → List ℕ × List ℕ → List ℕ × List ℕ
  visit_modified [] sets = sets
  visit_modified (x ∷ xs) (temp, cur) =
      visit_modified xs (insert_all temp (referred x), insert_all cur (s x).references)

  abbrev pub modified_rounds : ℕ → ℕ → List ℕ × List ℕ → Option (List ℕ × List ℕ)
  modified_rounds zero old_size sets = if length sets.0 == old_size then some sets else none
  modified_rounds (suc fuel) old_size sets =
      let rest = modified_rounds fuel (length sets.0) (visit_modified sets.0 sets) in
      if length sets.0 == old_size then some sets else rest

  -- A depth below -1 changes nothing.
  unfoldable pub get_modified_variables : ℕ → ℤ → List ℕ → Option (List ℕ)
  get_modified_variables fuel (pos zero) results =
      elim (modified_rounds fuel 0 (results, results)) [
        | none ↦ none
        | some sets ↦ some (insert_all results (insert_all sets.1 sets.0))
      ]
  get_modified_variables fuel (pos (suc depth)) results = some (modify_levels (suc depth) results)
  get_modified_variables fuel (negsuc zero) results = some []
  get_modified_variables fuel (negsuc (suc n)) results = some results
