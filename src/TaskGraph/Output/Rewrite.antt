-- ===== src/TaskGraph/Output/Rewrite.antt =====
-- transforms/TaskGraph: `modifyFile`, `modifyGroup` and `modifiedStringForInstruction`
-- (OutputHandler.hpp, OutputHandler.cpp): the text of each group of statements, and the edits that the
-- rewriter is asked for. The recursion is on fuel, one for each call of `modifyGroup`.
pub mod Edits
use Prim.Native.String.{String, ◌++◌ as ◌<>◌}
use apac.Prelude.{
  ℕ, zero, suc, ◌-◌, Bool, true, false, not, ◌&&◌, ◌||◌, Option, none, some, List, [], ◌∷◌, ◌++◌,
  if◌then◌else◌,
}
use apac.Prelude.Maps.{SearchMap}
use apac.TaskGraph.AliasArg.{AliasArg}
use apac.TaskGraph.Node.{Node, Heap}
use apac.TaskGraph.StmtOrder.{StmtOrder, Orders, Group, get_sub_stmt_order}
use apac.TaskGraph.Output.{Source}
use apac.TaskGraph.Output.Pragmas.{create_pragma_string}

-- What the rewriter is asked for: blanks over a statement, its removal, or a text where it begins.
pub data Edit : Type 0 where
  blank removal : ℕ → Edit
  insertion : ℕ → String → Edit

-- A text, or none where the code would use a null pointer or the fuel is out, with the edits so far.
abbrev pub Output : Type 0
Output = Option (String × List Edit)

abbrev pub then_output : Output → Output → Output
then_output none out = none
then_output (some a) none = none
then_output (some a) (some b) = some (a.0 <> b.0, a.1 ++ b.1)

abbrev pub text : String → Output
text s = some (s, [])

-- The groups of a map in the order of their keys, which are below the counter.
abbrev pub groups_below : ℕ → SearchMap Group → List Group
groups_below zero groups = []
groups_below (suc k) groups =
    let before = groups_below k groups in
    elim (groups k) [ none ↦ before | some group ↦ before ++ group ∷ [] ]

abbrev pub all_groups : StmtOrder → List Group
all_groups o = groups_below o.group_counter o.instruction_groups

abbrev pub removals : Group → List Edit
removals [] = []
removals (instr ∷ group) = removal instr.0 ∷ removals group

abbrev pub last_statement : ℕ → Group → ℕ
last_statement s [] = s
last_statement s (instr ∷ group) = last_statement instr.0 group

-- The edits that write a group: its statements are removed, and the text is inserted.
abbrev pub write_edits : ℕ × Option ℕ → Group → String → List Edit
write_edits instr group s =
    removals (instr ∷ group) ++ insertion (last_statement instr.0 group) s ∷ []

abbrev pub written : Bool → ℕ × Option ℕ → Group → Output → Output
written is_write instr group none = none
written false instr group (some out) = some out
written true instr group (some out) = some (out.0, out.1 ++ write_edits instr group out.0)

module _ (src : Source) (args : ℕ → AliasArg) (h : Heap) (orders : ℕ → StmtOrder) where
  -- The loop over the groups of a scope that is no if statement.
  abbrev pub each_group : (Group → Output) → List Group → Output
  each_group f [] = text ""
  each_group f (g ∷ gs) = then_output (f g) (each_group f gs)

  -- The loop over the groups of an if statement: an else before each but the first.
  abbrev pub if_groups : (Group → Output) → ℕ → Bool → List Group → Output
  if_groups f instr is_second [] = text ""
  if_groups f instr is_second (g ∷ gs) =
      then_output (text (if is_second && src.has_else instr then "} else {" else ""))
        (then_output (f g) (if_groups f instr true gs))

  -- The two overloads of `modifiedStringForInstruction`, where `f` is `modifyGroup` in a sub order.
  unfoldable pub modified_string_for_instruction :
      (StmtOrder → Group → Output) → StmtOrder → ℕ → Output
  modified_string_for_instruction f o instr =
      then_output (some ("", blank instr ∷ [])) (elim (get_sub_stmt_order instr o) [
        | none ↦ text (src.stmt_as_string_full instr <> "\n")
        | some sub ↦
            let o' = orders sub in
            let one = each_group (f o') (all_groups o') in
            let two = if_groups (f o') instr false (all_groups o') in
            let start = text (src.stmt_as_string instr <> "{\n") in
            if src.clang.is_if_stmt instr
            then then_output start (then_output two (text "}\n"))
            else if src.clang.is_compound_stmt instr
            then one
            else then_output start (then_output one (text "}\n"))
      ])

  abbrev pub each_instruction : (ℕ → Output) → Group → Output
  each_instruction f [] = text ""
  each_instruction f (instr ∷ group) = then_output (f instr.0) (each_instruction f group)

  -- An empty group has no text.
  unfoldable pub modify_group : ℕ → StmtOrder → Bool → Group → Output
  modify_group zero o is_write group = none
  modify_group (suc fuel) o is_write [] = text ""
  modify_group (suc fuel) o is_write (instr ∷ group) =
      elim (create_pragma_string src args h fuel o (instr ∷ group)) [
        | none ↦ none
        | some pragma ↦ written is_write instr group (
            then_output (text pragma.0) (
              then_output
                (each_instruction
                  (modified_string_for_instruction (λ o' g. modify_group fuel o' false g) o)
                  (instr ∷ group))
                (text pragma.1)))
      ]

  abbrev pub modify_groups : ℕ → StmtOrder → List Group → Option (List Edit)
  modify_groups fuel o [] = some []
  modify_groups fuel o (g ∷ gs) = elim (modify_group fuel o true g) [
    | none ↦ none
    | some out ↦ elim (modify_groups fuel o gs) [ none ↦ none | some edits ↦ some (out.1 ++ edits) ]
  ]

  unfoldable pub modify_file : ℕ → StmtOrder → Option (List Edit)
  modify_file fuel o = modify_groups fuel o (all_groups o)
