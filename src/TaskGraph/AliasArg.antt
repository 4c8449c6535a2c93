-- ===== src/TaskGraph/AliasArg.antt =====
-- transforms/TaskGraph/include/AliasArg.hpp: the elements (variables and array elements) that
-- instructions read and write. A `shared_ptr<aliasArg>` is the element's `id`.
use Prim.Native.String.{String}
use apac.Prelude.{ℕ, Bool, true, false, ◌&&◌, ◌||◌, Option, List, [], ◌∷◌, any, if◌then◌else◌}
use apac.Prelude.Int.{ℤ, int_eq, minus_one}

pub data AliasType : Type 0 where
  reference pointer variable no_type : AliasType

-- `declaration` names the variable; `expression` is a clang expression of the source.
pub record AliasArg : Type 0 where
  pub has_unknown_index : Bool
  pub declaration : ℕ
  pub alias_type : AliasType
  pub indexes : List ℤ
  pub index_string : String
  pub expression : Option ℕ
  pub id : ℕ
  pub pointers : List ℕ
  pub references : List ℕ
  pub aliased : List ℕ

-- The constructor, at the value `cur_id` of the counter.
unfoldable pub alias_arg : ℕ → AliasType → List ℤ → String → Option ℕ → ℕ → AliasArg
alias_arg decl t indexes index_string exp cur_id = record {
  has_unknown_index = any (λ i. int_eq i minus_one) indexes;
  declaration = decl;
  alias_type = t;
  indexes = indexes;
  index_string = index_string;
  expression = exp;
  id = cur_id;
  pointers = [];
  references = [];
  aliased = [];
}

-- The text of the indexes, if one of them is unknown.
abbrev pub get_index_key : AliasArg → String
get_index_key elem = if elem.has_unknown_index then elem.index_string else ""

-- a[1] and a[d] match, since an unknown index is -1.
unfoldable pub indexes_match : List ℤ → List ℤ → Bool
indexes_match [] [] = true
indexes_match (i ∷ is) (j ∷ js) =
    (int_eq i j || (int_eq i minus_one || int_eq j minus_one)) && indexes_match is js
indexes_match _ _ = false
