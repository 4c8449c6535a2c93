-- ===== src/TaskGraph/Instruction.antt =====
-- transforms/TaskGraph/include/Instruction.hpp and NodeDependency.hpp. Statements of clang are
-- numbers; what the source asks of one is a field of `Clang`.
use Prim.Native.String.{String}
use apac.Prelude.{ℕ, Bool, ◌||◌, List, [], ◌∷◌}

-- What the source asks of a clang statement: where it begins and its class (`isa<...>`).
pub record Clang : Type 0 where
  pub begin_loc : ℕ → ℕ
  pub is_for_stmt : ℕ → Bool
  pub is_if_stmt : ℕ → Bool
  pub is_compound_stmt : ℕ → Bool

pub record NodeDependency : Type 0 where
  pub is_read : Bool
  pub is_write : Bool

-- `operator+`
abbrev pub plus : NodeDependency → NodeDependency → NodeDependency
plus lhs rhs = record {
  is_read = lhs.is_read || rhs.is_read;
  is_write = lhs.is_write || rhs.is_write;
}

-- A map from elements to how they are accessed.
abbrev pub Dependencies : Type 0
Dependencies = List (ℕ × NodeDependency)

pub record Fields : Type 0 where
  pub statement : ℕ
  pub instruction_string : String
  pub complex_instruction : Bool
  pub no_fusion : Bool
  pub scoped_instructions_number : ℕ
  pub dependencies : Dependencies
  pub cur_aliases : List (ℕ × ℕ)

-- An instruction holds the vector of the instructions of its scope.
mutual
  pub data Instruction : Type 0 where
    instruction : Fields → Instructions → Instruction

  pub data Instructions : Type 0 where
    nil : Instructions
    cons : Instruction → Instructions → Instructions

abbrev pub fields : Instruction → Fields
fields (instruction f scoped) = f

abbrev pub scoped_instructions : Instruction → Instructions
scoped_instructions (instruction f scoped) = scoped

abbrev pub to_list : Instructions → List Instruction
to_list nil = []
to_list (cons i is) = i ∷ to_list is
