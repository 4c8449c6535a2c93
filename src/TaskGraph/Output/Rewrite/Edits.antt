-- ===== src/TaskGraph/Output/Rewrite/Edits.antt =====
-- Which edits `modifyFile` (OutputHandler.hpp) asks the rewriter for.
use Prim.Native.String.{String}
use apac.Prelude.{ℕ, false, Option, none, some, List, [], ◌∷◌, ◌++◌}
use apac.TaskGraph.AliasArg.{AliasArg}
use apac.TaskGraph.Node.{Heap}
use apac.TaskGraph.StmtOrder.{StmtOrder, Group}
use apac.TaskGraph.Output.{Source}
use apac.TaskGraph.Output.Rewrite.{
  Edit, blank, Output, then_output, text, write_edits, modified_string_for_instruction,
  each_instruction, modify_group,
}

abbrev pub OnlyBlanks : List Edit → Type 0
OnlyBlanks [] = Unit
OnlyBlanks (blank s ∷ edits) = OnlyBlanks edits
OnlyBlanks (_ ∷ edits) = ⊥

-- An output that writes nothing, if there is one.
Blank : Output → Type 0
Blank none = Unit
Blank (some out) = OnlyBlanks out.1

module _ (src : Source) (args : ℕ → AliasArg) (h : Heap) (orders : ℕ → StmtOrder) where
  -- The text of a group in its pragma.
  abbrev group_output : ℕ → StmtOrder → Group → String × String → Output
  group_output fuel o group pragma = then_output (text pragma.0) (
      then_output
        (each_instruction src args h orders
          (modified_string_for_instruction src args h orders
            (λ o' g. modify_group src args h orders fuel o' false g) o)
          group)
        (text pragma.1))

  -- The edits of the groups that are written: for each that is not empty, blanks, the removal of its
  -- statements, and one text where its last statement begins.
  pub data IsWritten : List Group → List Edit → Type 0 where
    no_group : IsWritten [] []
    empty_group :
        {gs : List Group} {edits : List Edit} → IsWritten gs edits → IsWritten ([] ∷ gs) edits
    one_group :
        {instr : ℕ × Option ℕ} {group : Group} {gs : List Group} {edits : List Edit}
        (before : List Edit) (s : String)
        → OnlyBlanks before
        → IsWritten gs edits
        → IsWritten ((instr ∷ group) ∷ gs) ((before ++ write_edits instr group s) ++ edits)
