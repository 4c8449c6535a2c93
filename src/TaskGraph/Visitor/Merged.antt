-- ===== src/TaskGraph/Visitor/Merged.antt =====
-- The instruction of a for statement (`TraverseForStmt`, ASTTaskGraphVisitor.cpp), made of those of its
-- scope.
use apac.Prelude.{
  ℕ, ◌≡◌, refl, sym, ap, ◌∙◌, inl, inr, Bool, true, false, Option, none, some, List, [], ◌∷◌,
}
use apac.Prelude.{if◌then◌else◌, ◌==◌, foldl, Bool-cases, Option-cases, ==_iff}
use apac.Prelude.Maps.{lookup, lookup-put}
use apac.TaskGraph.Instruction.{
  NodeDependency, Dependencies, Instruction, fields, scoped_instructions, to_list,
}
use apac.TaskGraph.Visitor.{
  Statements, insert_dependency, insert_dependencies, from_list, for_instruction,
}

-- The first of two, if it is there.
abbrev pub first_found : Option NodeDependency → Option NodeDependency → Option NodeDependency
first_found none y = y
first_found (some x) y = some x

-- How the first instruction that accesses the element does so.
abbrev pub first_access : ℕ → List Instruction → Option NodeDependency
first_access e [] = none
first_access e (i ∷ is) = first_found (lookup e (fields i).dependencies) (first_access e is)

first_found_assoc :
    (x y z : Option NodeDependency)
    → first_found (first_found x y) z ≡ first_found x (first_found y z)
first_found_assoc none y z = refl
first_found_assoc (some x) y z = refl

first_found-none : (x : Option NodeDependency) → first_found x none ≡ x
first_found-none none = refl
first_found-none (some x) = refl

lookup-insert_dependency :
    (k e : ℕ) (d : NodeDependency) (deps : Dependencies)
    → lookup k (insert_dependency deps (e, d))
      ≡ first_found (lookup k deps) (if e == k then some d else none)
lookup-insert_dependency k e d deps = elim (Bool-cases (e == k)) [
  | inl b ↦
      let at : lookup e deps ≡ lookup k deps = ap (λ x. lookup x deps) ((==_iff e k).0 b) in
      elim (Option-cases (lookup e deps)) [
        | inl new ↦ rw (new, insert_dependency) (lookup-put e k d deps ∙ rw (b, ← at, new) refl)
        | inr (old, there) ↦ rw (there, insert_dependency) (rw (b, ← at, there) refl)
      ]
  | inr b ↦ elim (Option-cases (lookup e deps)) [
    | inl new ↦
        rw (new, insert_dependency)
          (lookup-put e k d deps ∙ rw b (sym (first_found-none (lookup k deps))))
    | inr (old, there) ↦
        rw (there, insert_dependency) (rw b (sym (first_found-none (lookup k deps))))
  ]
]

first_found-if :
    (b : Bool) (d : NodeDependency) (y : Option NodeDependency)
    → first_found (if b then some d else none) y ≡ (if b then some d else y)
first_found-if true d y = refl
first_found-if false d y = refl

lookup-insert_all :
    (k : ℕ) (l deps : Dependencies)
    → lookup k (foldl insert_dependency deps l) ≡ first_found (lookup k deps) (lookup k l)
lookup-insert_all k [] deps = sym (first_found-none (lookup k deps))
lookup-insert_all k ((e, d) ∷ l) deps =
    lookup-insert_all k l (insert_dependency deps (e, d))
    ∙ ap (λ x. first_found x (lookup k l)) (lookup-insert_dependency k e d deps)
    ∙ first_found_assoc (lookup k deps) (if e == k then some d else none) (lookup k l)
    ∙ ap (first_found (lookup k deps)) (first_found-if (e == k) d (lookup k l))

lookup-insert_dependencies :
    (k : ℕ) (is : List Instruction) (deps : Dependencies)
    → lookup k (insert_dependencies deps is) ≡ first_found (lookup k deps) (first_access k is)
lookup-insert_dependencies k [] deps = sym (first_found-none (lookup k deps))
lookup-insert_dependencies k (i ∷ is) deps =
    lookup-insert_dependencies k is (foldl insert_dependency deps (fields i).dependencies)
    ∙ ap (λ x. first_found x (first_access k is)) (lookup-insert_all k (fields i).dependencies deps)
    ∙ first_found_assoc (lookup k deps) (lookup k (fields i).dependencies) (first_access k is)

to_list-from_list : (is : List Instruction) → to_list (from_list is) ≡ is
to_list-from_list [] = refl
to_list-from_list (i ∷ is) = ap (λ l. i ∷ l) (to_list-from_list is)

-- A complex instruction of the statement that is not fused, with this scope, and with the dependencies
-- of the instructions of the scope: an element is accessed as the first of them that accesses it does.
pub record IsForInstruction (f : ℕ) (scope : List Instruction) (i : Instruction) : Type 0 where
  pub of_statement : (fields i).statement ≡ f
  pub is_complex : (fields i).complex_instruction ≡ true
  pub is_unfused : (fields i).no_fusion ≡ true
  pub has_scope : to_list (scoped_instructions i) ≡ scope
  pub accesses : (e : ℕ) → lookup e (fields i).dependencies ≡ first_access e scope

pub for_instruction-IsForInstruction :
    (st : Statements) (f : ℕ) (scope : List Instruction)
    → IsForInstruction f scope (for_instruction st f scope)
for_instruction-IsForInstruction st f scope = record {
  of_statement = refl;
  is_complex = refl;
  is_unfused = refl;
  has_scope = to_list-from_list scope;
  accesses = λ e. lookup-insert_dependencies e scope [];
}
